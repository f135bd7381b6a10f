-- ===== src/Files/Totals.antt =====
-- Sums over an array.
use project4final.Prelude.{
  ℕ, ◌<◌, ◌≤◌, suc, ◌+◌, ◌≢◌, arith, ◌*◌, ◌≡◌, ℕ_discrete, zero, subst, ◌∙◌, sym, refl,
}

unfoldable pub total : ℕ → (ℕ → ℕ) → ℕ
total zero g = 0
total (suc n) g = total n g + g n

-- Changing one summand changes the total by as much.
pub total-change :
    (n i : ℕ) (g h : ℕ → ℕ)
    → i < n
    → ((x : ℕ) → x ≢ i → g x ≡ h x)
    → total n g + h i ≡ total n h + g i
unfolding total
total-change zero i g h l e = absurd (omega arith)
total-change (suc n) i g h l e = elim (ℕ_discrete n i) [
  | yes q ↦
      subst (λ i. total n g + g n + h i ≡ total n h + h n + g i) q
        (omega (arith, unchanged n (λ x k. e x (λ z. below x k (z ∙ sym q)))))
  | no q ↦ omega (arith, total-change n i g h (omega arith) e, e n q)
]
  where
    below : (x : ℕ) → x < n → x ≡ n → ⊥
    below x k z = omega arith

    unchanged : (m : ℕ) → ((x : ℕ) → x < m → g x ≡ h x) → total m g ≡ total m h
    unchanged zero e = refl
    unchanged (suc m) e = omega (arith, unchanged m (λ x k. e x (omega arith)), e m (omega arith))

pub total-ge : (n i : ℕ) (g : ℕ → ℕ) → i < n → g i ≤ total n g
unfolding total
total-ge zero i g l = absurd (omega arith)
total-ge (suc n) i g l = elim (ℕ_discrete n i) [
  | yes q ↦ subst (λ i. g i ≤ total n g + g n) q (omega arith)
  | no q ↦ omega (arith, total-ge n i g (omega arith))
]

pub total-le : (n b : ℕ) (g : ℕ → ℕ) → ((x : ℕ) → g x ≤ b) → total n g ≤ n * b
unfolding total
total-le zero b g h = omega arith
total-le (suc n) b g h = omega (arith, total-le n b g h, h n)
