-- ===== src/Text/Compare.antt =====
-- About memcmp and strncmp of string.c.
use project4final.Text.Strings.{strncmp, StringAt}
use project4final.Text.Memory.{Memory, memcmp, byte_diff}
use native.Mathlib.Nat.{add-zero}
use project4final.Prelude.{
  zero, suc, ℕ, ◌+◌, [], ◌∷◌, refl, ◌<◌, ◌≡◌, List, arith, ◌↔◌, ap, take, ◌∙◌, sym, ℕ_discrete,
  ne→==, eq→==, ap₂,
}

-- Every value in the memory is a byte.
abbrev pub IsBytes : Memory → Type 0
IsBytes mem = (x : ℕ) → mem x < 256

byte_diff-zero : (a b : ℕ) → a < 256 → b < 256 → byte_diff a b ≡ 0 → a ≡ b
byte_diff-zero a b h k e = omega arith

-- memcmp returns 0 exactly if the two ranges of `n` bytes hold the same.
pub memcmp_iff :
    (n : ℕ) (mem : Memory) (p q : ℕ)
    → IsBytes mem
    → (memcmp mem p q n ≡ 0) ↔ ((i : ℕ) → i < n → mem (p + i) ≡ mem (q + i))
unfolding memcmp
memcmp_iff zero mem p q b = ((λ e i l. absurd (omega arith)), λ h. refl)
memcmp_iff (suc n) mem p q b = elim (ℕ_discrete (mem p) (mem q)) [
  | yes e ↦
      let ih = memcmp_iff n mem (p + 1) (q + 1) b in
      rw (eq→== (mem p) (mem q) e) (
        (λ z i l. at_index i e (ih.0 z) l),
        λ h. ih.1 (λ i l. ap mem (shift p i) ∙ h (suc i) (omega arith) ∙ ap mem (sym (shift q i))),
      )
  | no k ↦ rw (ne→== (mem p) (mem q) k) (
    (λ z. absurd (k (byte_diff-zero (mem p) (mem q) (b p) (b q) z))),
    λ h. absurd (k (ap mem (sym (add-zero p)) ∙ h 0 (omega arith) ∙ ap mem (add-zero q))),
  )
]
  where
    shift : (a i : ℕ) → a + 1 + i ≡ a + suc i
    shift a i = omega arith

    at_index :
        (i : ℕ)
        → mem p ≡ mem q
        → ((j : ℕ) → j < n → mem (p + 1 + j) ≡ mem (q + 1 + j))
        → i < suc n
        → mem (p + i) ≡ mem (q + i)
    at_index zero e h l = ap mem (add-zero p) ∙ e ∙ ap mem (sym (add-zero q))
    at_index (suc i) e h l = ap mem (sym (shift p i)) ∙ h i (omega arith) ∙ ap mem (shift q i)

-- strncmp of two strings returns 0 exactly if their first `n` characters are the same.
pub strncmp_iff :
    (n : ℕ) (mem : Memory) (p q : ℕ) (xs ys : List ℕ)
    → IsBytes mem
    → StringAt mem p xs
    → StringAt mem q ys
    → (strncmp mem p q n ≡ 0) ↔ (take n xs ≡ take n ys)
unfolding strncmp
strncmp_iff zero mem p q xs ys b s t = ((λ e. refl), λ e. refl)
strncmp_iff (suc n) mem p q [] [] b s t = rw (s, t) ((λ e. refl), λ e. refl)
strncmp_iff (suc n) mem p q [] (y ∷ ys) b s t =
    rw (s, t.0)
      ((λ e. absurd (t.1 (sym (byte_diff-zero 0 y (omega arith) (rw t.0 at (b q)) e)))), λ e. cc)
strncmp_iff (suc n) mem p q (x ∷ xs) [] b s t =
    rw (s.0, t, ne→== x 0 s.1)
      ((λ e. absurd (s.1 (byte_diff-zero x 0 (rw s.0 at (b p)) (omega arith) e))), λ e. cc)
strncmp_iff (suc n) mem p q (x ∷ xs) (y ∷ ys) b s t = elim (ℕ_discrete x y) [
  | yes e ↦
      let ih = strncmp_iff n mem (p + 1) (q + 1) xs ys b s.2 t.2 in
      rw (s.0, t.0, ne→== x 0 s.1, eq→== x y e) ((λ z. ap₂ ◌∷◌ e (ih.0 z)), λ z. ih.1 (cc))
  | no k ↦
      rw (s.0, t.0, ne→== x 0 s.1, ne→== x y k)
        (
          (λ z. absurd (k (byte_diff-zero x y (rw s.0 at (b p)) (rw t.0 at (b q)) z))),
          λ z. absurd (k (cc)),
        )
]
