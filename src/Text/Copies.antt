-- ===== src/Text/Copies.antt =====
-- About strlen and safestrcpy.
use project4final.Text.Memory.{Memory}
use project4final.Text.Strings.{strlen_from, strlen, safe_copy, safestrcpy, StringAt}
use native.Mathlib.Nat.{add-zero}
use project4final.Prelude.{
  zero, suc, ℕ, ◌+◌, ◌-◌, some, [], ◌∷◌, List, ◌<◌, length, ◌≤◌, ◌⊎◌, ◌≡◌, arith, subst, update_ne,
  take, ap, sym, ◌∙◌, Bool-cases, update_self, ne→==, ◌==◌, update, inl, inr, ◌≢◌,
}

strlen_from_lem :
    (f : ℕ) (mem : Memory) (s n : ℕ) (xs : List ℕ)
    → length xs < f
    → StringAt mem (s + n) xs
    → strlen_from f mem s n ≡ some (n + length xs)
unfolding strlen_from
strlen_from_lem zero mem s n xs h a = absurd (omega arith)
strlen_from_lem (suc f) mem s n [] h a = rw a (ap some (omega arith))
strlen_from_lem (suc f) mem s n (x ∷ xs) h a =
    rw (a.0, ne→== x 0 a.1)
      (strlen_from_lem f mem s (n + 1) xs (omega arith)
          (subst (λ p. StringAt mem p xs) (omega arith) a.2)
        ∙ ap some (omega arith))

-- strlen of a string gives its length, if it has a round for each character and one for the NUL.
pub strlen-length :
    (f : ℕ) (mem : Memory) (s : ℕ) (xs : List ℕ)
    → length xs < f
    → StringAt mem s xs
    → strlen f mem s ≡ some (length xs)
unfolding strlen
strlen-length f mem s xs h a =
    strlen_from_lem f mem s 0 xs h (subst (λ p. StringAt mem p xs) (sym (add-zero s)) a)
    ∙ ap some (omega arith)

StringAt-frame :
    (mem mem' : Memory) (s : ℕ) (xs : List ℕ)
    → ((i : ℕ) → s ≤ i → i ≤ s + length xs → mem' i ≡ mem i)
    → StringAt mem s xs
    → StringAt mem' s xs
StringAt-frame mem mem' s [] h a = h s (omega arith) (omega arith) ∙ a
StringAt-frame mem mem' s (x ∷ xs) h a = (
  h s (omega arith) (omega arith) ∙ a.0,
  a.1,
  StringAt-frame mem mem' (s + 1) xs (λ i p q. h i (omega arith) (omega arith)) a.2,
)

safe_copy_out :
    (n : ℕ) (mem : Memory) (s t x : ℕ) → (x < s) ⊎ (s + n < x) → safe_copy mem s t n x ≡ mem x
unfolding safe_copy
safe_copy_out zero mem s t x h = update_ne mem s 0 x (λ e. omega arith)
safe_copy_out (suc n) mem s t x h = elim (Bool-cases (mem t == 0)) [
  | inl e ↦ rw e (
      update_ne (update mem s (mem t)) (s + 1) 0 x (λ q. omega arith)
      ∙ update_ne mem s (mem t) x (λ q. omega arith))
  | inr e ↦ rw e (
      safe_copy_out n (update mem s (mem t)) (s + 1) (t + 1) x (omega arith)
      ∙ update_ne mem s (mem t) x (λ q. omega arith))
]

safe_copy_step :
    (n : ℕ) (mem : Memory) (s t x : ℕ)
    → mem t ≡ x
    → x ≢ 0
    → safe_copy mem s t (suc n) ≡ safe_copy (update mem s x) (s + 1) (t + 1) n
unfolding safe_copy
safe_copy_step n mem s t x e h = rw (e, ne→== x 0 h)

-- The source lies apart from the `n + 1` bytes from `s` on.
safe_copy_lem :
    (n : ℕ) (mem : Memory) (s t : ℕ) (xs : List ℕ)
    → (t + length xs < s) ⊎ (s + n < t)
    → StringAt mem t xs
    → StringAt (safe_copy mem s t n) s (take n xs)
unfolding safe_copy
safe_copy_lem zero mem s t xs h a = update_self mem s 0
safe_copy_lem (suc n) mem s t [] h a =
    rw (a) (update_ne (update mem s 0) (s + 1) 0 s (λ q. omega arith) ∙ update_self mem s 0)
safe_copy_lem (suc n) mem s t (x ∷ xs) h a =
    subst (λ m. StringAt m s (x ∷ take n xs)) (sym (safe_copy_step n mem s t x a.0 a.1))
      (
        (safe_copy_out n (update mem s x) (s + 1) (t + 1) s (inl (omega arith))
            ∙ update_self mem s x),
        a.1,
        safe_copy_lem n (update mem s x) (s + 1) (t + 1) xs (omega arith) (
            StringAt-frame mem (update mem s x) (t + 1) xs
              (λ i p q. update_ne mem s x i (λ e. omega arith)) a.2),
      )

-- safestrcpy into a buffer of `n` bytes that does not meet the source: with `n` positive the buffer holds the first
-- `n - 1` characters of the string, or the whole string if it is shorter, with a NUL behind them; no byte outside the
-- buffer changes.
pub safestrcpy_copies :
    (mem : Memory) (s t n : ℕ) (xs : List ℕ)
    → 0 < n
    → (t + length xs < s) ⊎ (s + n ≤ t)
    → StringAt mem t xs
    → StringAt (safestrcpy mem s t n) s (take (n - 1) xs)
      × ((x : ℕ) → (x < s) ⊎ (s + n ≤ x) → safestrcpy mem s t n x ≡ mem x)
unfolding safestrcpy
safestrcpy_copies mem s t n xs h o a = rw (ne→== n 0 (λ e. omega arith)) (
  safe_copy_lem (n - 1) mem s t xs (omega arith) a,
  λ x q. safe_copy_out (n - 1) mem s t x (omega arith),
)
