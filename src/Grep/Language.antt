-- ===== src/Grep/Language.antt =====
-- What a pattern means, and the matcher's loops on it.
use project4final.Grep.Matcher.{matchstar, matchone, fits}
use project4final.Prelude.{
  ℕ, [], ◌∷◌, true, refl, inl, inr, ◌++◌, ◌≡◌, List, ◌==◌, ◌⊎◌, ◌≢◌, ◌||◌, Bool, All, arith,
  Bool-cases, ap,
}

abbrev pub Fits : ℕ → ℕ → Type 0
Fits c x = (c ≡ b'.') ⊎ (c ≡ x)

-- The pattern matches at the start of the text: `.` stands for any character, a character with `*` behind it for any
-- number of them, `$` at the end of the pattern for the end of the text, and any other for itself.
pub data Here : List ℕ → List ℕ → Type 0 where
  done : (text : List ℕ) → Here [] text
  end : (c : ℕ) → c ≡ b'$' → Here (c ∷ []) []
  last : (c x : ℕ) (text : List ℕ) → c ≢ b'$' → Fits c x → Here (c ∷ []) (x ∷ text)
  one :
      (c d x : ℕ) (re text : List ℕ)
      → d ≢ b'*'
      → Fits c x
      → Here (d ∷ re) text
      → Here (c ∷ d ∷ re) (x ∷ text)
  many :
      (c d : ℕ) (re text run rest : List ℕ)
      → d ≡ b'*'
      → All (Fits c) run
      → text ≡ run ++ rest
      → Here re rest
      → Here (c ∷ d ∷ re) text

fits-Fits : (c x : ℕ) → fits c x ≡ true → Fits c x
fits-Fits c x h = ground arith

Fits-fits : (c x : ℕ) → Fits c x → fits c x ≡ true
Fits-fits c x h = ground arith

star-Fits : (c x : ℕ) → (x == c || c == b'.') ≡ true → Fits c x
star-Fits c x h = ground arith

Fits-star : (c x : ℕ) → Fits c x → (x == c || c == b'.') ≡ true
Fits-star c x h = ground arith

-- What matchstar looks for.
abbrev pub Run : ℕ → (List ℕ → Bool) → List ℕ → Type 0
Run c here text = (run rest : List ℕ) × All (Fits c) run × (text ≡ run ++ rest) × (here rest ≡ true)

pub matchstar_sound :
    (c : ℕ) (here : List ℕ → Bool) (text : List ℕ) → matchstar c here text ≡ true → Run c here text
unfolding matchstar
matchstar_sound c here [] h = ([], [], tt, refl, h)
matchstar_sound c here (x ∷ text) h = elim (Bool-cases (here (x ∷ text))) [
  | inl y ↦ ([], x ∷ text, tt, refl, y)
  | inr n ↦ elim (Bool-cases (x == c || c == b'.')) [
    | inl f ↦
        let (run, rest, a, e, k) = matchstar_sound c here text (ground arith) in
        (x ∷ run, rest, (star-Fits c x f, a), ap (◌∷◌ x) e, k)
    | inr g ↦ absurd (ground arith)
  ]
]

pub matchstar_complete :
    (c : ℕ) (here : List ℕ → Bool) (run rest : List ℕ)
    → All (Fits c) run
    → here rest ≡ true
    → matchstar c here (run ++ rest) ≡ true
unfolding matchstar
matchstar_complete c here [] [] a k = k
matchstar_complete c here [] (x ∷ rest) a k = rw k
matchstar_complete c here (x ∷ run) rest a k =
    rw (Fits-star c x a.0, matchstar_complete c here run rest a.1 k) (ground arith)

pub matchone_sound :
    (c : ℕ) (here : List ℕ → Bool) (text : List ℕ)
    → matchone c here text ≡ true
    → (x : ℕ) × (rest : List ℕ) × (text ≡ x ∷ rest) × Fits c x × (here rest ≡ true)
unfolding matchone
matchone_sound c here [] h = cc
matchone_sound c here (x ∷ text) h = (x, text, refl, fits-Fits c x (ground arith), ground arith)

pub matchone_complete :
    (c x : ℕ) (here : List ℕ → Bool) (text : List ℕ)
    → Fits c x
    → here text ≡ true
    → matchone c here (x ∷ text) ≡ true
unfolding matchone
matchone_complete c x here text f k = rw (Fits-fits c x f) k
