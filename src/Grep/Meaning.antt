-- ===== src/Grep/Meaning.antt =====
-- About match and matchhere of grep.c.
use project4final.Grep.Language.{
  Here, matchstar_sound, matchstar_complete, matchone_sound, matchone_complete,
}
use project4final.Grep.Matcher.{match, match_from, matchhere, matchone}
use project4final.Prelude.{
  ℕ, [], ◌∷◌, true, refl, inl, inr, ◌++◌, ◌≡◌, List, ◌≢◌, ◌⊎◌, ◌↔◌, arith, Bool-cases, ap,
  ℕ_discrete, ne→==, eq→==,
}

matchone_nil : (c : ℕ) → matchone c (λ _. true) [] ≢ true
unfolding matchone
matchone_nil c h = cc

matchhere_sound : (re text : List ℕ) → matchhere re text ≡ true → Here re text
unfolding matchhere
matchhere_sound [] text h = Here.done text
matchhere_sound (c ∷ []) [] h = elim (ℕ_discrete c b'$') [
  | yes e ↦ Here.end c e
  | no n ↦ absurd (matchone_nil c (rw (ne→== c b'$' n) at h))
]
matchhere_sound (c ∷ []) (x ∷ text) h = elim (ℕ_discrete c b'$') [
  | yes e ↦ absurd (ground arith)
  | no n ↦
      let (y, rest, e, f, k) = matchone_sound c (λ _. true) (x ∷ text) (rw (ne→== c b'$' n) at h) in
      rw e (Here.last c y rest n f)
]
matchhere_sound (c ∷ d ∷ re) text h = elim (ℕ_discrete d b'*') [
  | yes e ↦
      let (run, rest, a, s, k) = matchstar_sound c (matchhere re) text (rw (eq→== d b'*' e) at h) in
      Here.many c d re text run rest e a s (matchhere_sound re rest k)
  | no n ↦
      let (x, rest, e, f, k) =
        matchone_sound c (matchhere (d ∷ re)) text (rw (ne→== d b'*' n) at h) in
      rw e (Here.one c d x re rest n f (matchhere_sound (d ∷ re) rest k))
]

matchhere_complete : (re text : List ℕ) → Here re text → matchhere re text ≡ true
unfolding matchhere
matchhere_complete _ _ (Here.done text) = refl
matchhere_complete _ _ (Here.end c e) = rw (eq→== c b'$' e) refl
matchhere_complete _ _ (Here.last c x text n f) =
    rw (ne→== c b'$' n) (matchone_complete c x (λ _. true) text f refl)
matchhere_complete _ _ (Here.one c d x re text n f t) =
    rw (ne→== d b'*' n)
      (matchone_complete c x (matchhere (d ∷ re)) text f (matchhere_complete (d ∷ re) text t))
matchhere_complete _ _ (Here.many c d re text run rest e a s t) =
    rw (eq→== d b'*' e, s)
      (matchstar_complete c (matchhere re) run rest a (matchhere_complete re rest t))

-- matchhere returns 1 exactly if the pattern matches at the start of the text.
pub matchhere_iff : (re text : List ℕ) → (matchhere re text ≡ true) ↔ Here re text
matchhere_iff re text = (matchhere_sound re text, matchhere_complete re text)

-- The pattern matches at some place of the text.
abbrev pub Within : List ℕ → List ℕ → Type 0
Within re text = (pre rest : List ℕ) × (text ≡ pre ++ rest) × Here re rest

match_from_sound : (re text : List ℕ) → match_from re text ≡ true → Within re text
unfolding match_from
match_from_sound re [] h = ([], [], refl, matchhere_sound re [] h)
match_from_sound re (x ∷ text) h = elim (Bool-cases (matchhere re (x ∷ text))) [
  | inl y ↦ ([], x ∷ text, refl, matchhere_sound re (x ∷ text) y)
  | inr n ↦
      let (pre, rest, e, k) = match_from_sound re text (rw n at h) in
      (x ∷ pre, rest, ap (◌∷◌ x) e, k)
]

match_from_complete : (re pre rest : List ℕ) → Here re rest → match_from re (pre ++ rest) ≡ true
unfolding match_from
match_from_complete re [] [] k = matchhere_complete re [] k
match_from_complete re [] (x ∷ rest) k = rw (matchhere_complete re (x ∷ rest) k) refl
match_from_complete re (x ∷ pre) rest k = rw (match_from_complete re pre rest k) (ground arith)

match_from_iff : (re text : List ℕ) → (match_from re text ≡ true) ↔ Within re text
match_from_iff re text =
    (match_from_sound re text, λ (pre, rest, e, k). rw e (match_from_complete re pre rest k))

-- What match looks for: behind a leading `^` a match at the start of the text, else one at any place of it.
unfoldable pub Matches : List ℕ → List ℕ → Type 0
Matches [] text = Within [] text
Matches (c ∷ re) text = ((c ≡ b'^') × Here re text) ⊎ ((c ≢ b'^') × Within (c ∷ re) text)

-- match returns 1 exactly if the pattern matches in the text.
pub match_iff : (re text : List ℕ) → (match re text ≡ true) ↔ Matches re text
unfolding match Matches
match_iff [] text = match_from_iff [] text
match_iff (c ∷ re) text = elim (ℕ_discrete c b'^') [
  | yes e ↦ rw (eq→== c b'^' e) (
    (λ h. inl (e, matchhere_sound re text h)),
    elim [ inl k ↦ matchhere_complete re text k.1 | inr k ↦ absurd (k.0 e) ],
  )
  | no n ↦ rw (ne→== c b'^' n) (
    (λ h. inr (n, (match_from_iff (c ∷ re) text).0 h)),
    elim [ inl k ↦ absurd (n k.0) | inr k ↦ (match_from_iff (c ∷ re) text).1 k.1 ],
  )
]
