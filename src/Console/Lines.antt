-- ===== src/Console/Lines.antt =====
-- The input as two lists: the characters that readers may take, and the line that is being edited.
use project4final.Console.Input.{Input, input_size, newline}
use project4final.Prelude.{
  ℕ, List, ◌∷◌, ◌<◌, ◌≡◌, ◌++◌, ◌%◌, ◌^◌, [], ◌+◌, length, ◌⊎◌, ap, ◌≤◌, subst, inl, refl, All,
  arith, update, inr, ◌≢◌, update_ne, ◌∙◌, ◌-◌,
}

-- The characters stand in the ring from counter `h` on.
abbrev pub At : (ℕ → ℕ) → ℕ → List ℕ → Type 0
At buf h [] = Unit
At buf h (x ∷ xs) = (buf (h % input_size) ≡ x) × At buf ((h + 1) % 2 ^ 32) xs

-- The state stands for the two lists.
pub record Shows (p : Input) (ready edit : List ℕ) : Type 0 where
  pub r_word : p.r < 2 ^ 32
  pub w_at : p.w ≡ (p.r + length ready) % 2 ^ 32
  pub e_at : p.e ≡ (p.w + length edit) % 2 ^ 32
  pub room : length ready + length edit ≤ input_size
  pub ready_at : At p.buf p.r ready
  pub edit_at : At p.buf p.w edit
  pub one_line : All (λ x. x ≢ newline) edit

pub At-append :
    (buf : ℕ → ℕ) (h : ℕ) (xs ys : List ℕ)
    → h < 2 ^ 32
    → At buf h xs
    → At buf ((h + length xs) % 2 ^ 32) ys
    → At buf h (xs ++ ys)
At-append buf h [] ys l a b = subst (λ k. At buf k ys) (omega arith) b
At-append buf h (x ∷ xs) ys l a b = (
  a.0,
  At-append buf ((h + 1) % 2 ^ 32) xs ys (omega arith) a.1
      (subst (λ k. At buf k ys) (omega arith) b),
)

pub At-prefix :
    (buf : ℕ → ℕ) (h : ℕ) (xs ys : List ℕ)
    → h < 2 ^ 32
    → At buf h (xs ++ ys)
    → At buf h xs × At buf ((h + length xs) % 2 ^ 32) ys
At-prefix buf h [] ys l a = (tt, subst (λ k. At buf k ys) (omega arith) a)
At-prefix buf h (x ∷ xs) ys l a =
    let (b, c) = At-prefix buf ((h + 1) % 2 ^ 32) xs ys (omega arith) a.1 in
    ((a.0, b), subst (λ k. At buf k ys) (omega arith) c)

-- A write just behind at most `n` characters leaves those before it, where the ring is not full.
pub At-put :
    (buf : ℕ → ℕ) (h n c : ℕ) (xs : List ℕ)
    → h < 2 ^ 32
    → length xs ≤ n
    → n < input_size
    → At buf h xs
    → At (update buf ((h + n) % 2 ^ 32 % input_size) c) h xs
At-put buf h n c [] l k m a = tt
At-put buf h n c (x ∷ xs) l k m a = (
  update_ne buf ((h + n) % 2 ^ 32 % input_size) c (h % input_size) (λ q. omega arith) ∙ a.0,
  subst (λ j. At (update buf j c) ((h + 1) % 2 ^ 32) xs) (omega arith)
      (At-put buf ((h + 1) % 2 ^ 32) (n - 1) c xs (omega arith) (omega arith) (omega arith) a.1),
)

unfoldable pub drop_last : List ℕ → List ℕ
drop_last [] = []
drop_last (x ∷ []) = []
drop_last (x ∷ y ∷ ys) = x ∷ drop_last (y ∷ ys)

-- A list is empty or ends with a last member.
pub last_cases : (xs : List ℕ) → (xs ≡ []) ⊎ ((ys : List ℕ) × (y : ℕ) × (xs ≡ ys ++ (y ∷ [])))
last_cases [] = inl refl
last_cases (x ∷ xs) = elim (last_cases xs) [
  | inl e ↦ inr ([], x, ap (◌∷◌ x) e)
  | inr (ys, y, e) ↦ inr (x ∷ ys, y, ap (◌∷◌ x) e)
]

pub drop_last-append : (ys : List ℕ) (y : ℕ) → drop_last (ys ++ (y ∷ [])) ≡ ys
unfolding drop_last
drop_last-append [] y = refl
drop_last-append (x ∷ []) y = refl
drop_last-append (x ∷ z ∷ ys) y = ap (◌∷◌ x) (drop_last-append (z ∷ ys) y)
