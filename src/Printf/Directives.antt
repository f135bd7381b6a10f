-- ===== src/Printf/Directives.antt =====
-- printf and cprintf side by side.
use project4final.Printf.Format.{cprintf_case, cprintf, directive, printf, in_front, advance}
use project4final.Text.Memory.{Memory}
use project4final.Prelude.{
  Bool, ℕ, List, false, ◌∷◌, ◌==◌, ◌≡◌, ◌||◌, [], true, refl, ℕ_discrete, arith, sym, subst, eq→==,
  ne→==, ap, ok,
}

-- Whether a format has the directive %c, which cprintf does not have.
abbrev pub has_char : Bool → List ℕ → Bool
has_char percent [] = false
has_char true (c ∷ fmt) = (c == b'c') || has_char false fmt
has_char false (c ∷ fmt) = has_char (c == b'%') fmt

module _ (f a : ℕ) (mem : Memory) (args : ℕ → ℕ) where
  case_same :
      (c arg : ℕ) → (c == b'c') ≡ false → cprintf_case f a mem c arg ≡ directive f a mem c arg
  unfolding cprintf_case directive
  case_same c arg n = elim (ℕ_discrete c b'%') [
    | yes q ↦ subst (λ c. cprintf_case f a mem c arg ≡ directive f a mem c arg) (sym q) refl
    | no q ↦ rw (n, ne→== c b'%' q) refl
  ]

  same_from :
      (k : ℕ) (fmt : List ℕ)
      → has_char false fmt ≡ false
      → cprintf f a mem args k fmt ≡ printf f a mem args false k fmt
  unfolding cprintf printf
  same_from k [] n = refl
  same_from k (c ∷ []) n = refl
  same_from k (c ∷ c' ∷ fmt) n = elim (ℕ_discrete c b'%') [
    | yes q ↦
        let (u, v) =
          neither (c' == b'c') (has_char false fmt)
            (subst (λ b. has_char b (c' ∷ fmt) ≡ false) (eq→== c b'%' q) n) in
        rw (eq→== c b'%' q, case_same c' (args k) u)
          (ap (in_front (directive f a mem c' (args k)).0)
            (same_from (advance (directive f a mem c' (args k)).1 k) fmt v))
    | no q ↦ rw (ne→== c b'%' q) (
        ap (in_front (ok (c ∷ [])))
          (same_from k (c' ∷ fmt) (subst (λ b. has_char b (c' ∷ fmt) ≡ false) (ne→== c b'%' q) n)))
  ]
    where
      neither : (x y : Bool) → (x || y) ≡ false → (x ≡ false) × (y ≡ false)
      neither x y h = (ground arith, ground arith)

-- For every format with no directive %c, which it alone has, printf prints what cprintf prints with the same digits: the
-- same characters, or it stops as cprintf does.
pub printf-cprintf :
    (f a : ℕ) (mem : Memory) (args : ℕ → ℕ) (fmt : List ℕ)
    → has_char false fmt ≡ false
    → printf f a mem args false 0 fmt ≡ cprintf f a mem args 0 fmt
printf-cprintf f a mem args fmt n = sym (same_from f a mem args 0 fmt n)
