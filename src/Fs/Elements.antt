-- ===== src/Fs/Elements.antt =====
-- About skipelem: the elements of a path.
use project4final.Fs.Paths.{dirsiz, skip_slashes, element, behind_element, skipelem}
use mathlib.Core.List.{append_assoc, append-nil}
use project4final.Prelude.{
  ℕ, List, ◌∷◌, All, Option, ◌≡◌, [], none, ◌++◌, ◌≢◌, take, length, ℕ_discrete, All-append, suc,
  some, ◌≤◌, eq→==, ap, arith, ne→==, ◌∙◌, zero, sym, refl, ◌<◌, length-append, subst,
}

-- The path is done, or goes on with a slash.
abbrev pub AtSlash : List ℕ → Type 0
AtSlash [] = Unit
AtSlash (c ∷ path) = c ≡ b'/'

-- A path is slashes, or slashes, an element of other characters and a path of further elements. Of an element the
-- first DIRSIZ characters are its name.
pub data Elements : List ℕ → List (List ℕ) → Type 0 where
  no_more :
      (path slashes : List ℕ) → All (λ c. c ≡ b'/') slashes → path ≡ slashes → Elements path []
  then_element :
      (path slashes name rest : List ℕ) (names : List (List ℕ))
      → All (λ c. c ≡ b'/') slashes
      → name ≢ []
      → All (λ c. c ≢ b'/') name
      → AtSlash rest
      → path ≡ slashes ++ (name ++ rest)
      → Elements rest names
      → Elements path (take dirsiz name ∷ names)

-- The names that calls of skipelem give, one after the other, in rounds.
unfoldable pub all_elements : ℕ → List ℕ → Option (List (List ℕ))
all_elements zero path = none
all_elements (suc f) path = elim (skipelem path) [
  | none ↦ some []
  | some (name, rest) ↦ elim (all_elements f rest) [
    | none ↦ none
    | some names ↦ some (name ∷ names)
  ]
]

skip_slashes_lem :
    (path : List ℕ)
    → (slashes : List ℕ) × All (λ c. c ≡ b'/') slashes
      × (path ≡ slashes ++ skip_slashes path)
      × (length (skip_slashes path) ≤ length path)
unfolding skip_slashes
skip_slashes_lem [] = ([], tt, refl, omega arith)
skip_slashes_lem (c ∷ path) = elim (ℕ_discrete c b'/') [
  | yes e ↦
      let (slashes, a, q, l) = skip_slashes_lem path in
      rw (eq→== c b'/' e) (c ∷ slashes, (e, a), ap (◌∷◌ c) q, omega (arith, l))
  | no n ↦ rw (ne→== c b'/' n) ([], tt, refl, omega arith)
]

skip_slashes-head : (path : List ℕ) (c : ℕ) (p : List ℕ) → skip_slashes path ≡ c ∷ p → c ≢ b'/'
unfolding skip_slashes
skip_slashes-head [] c p e = absurd (cc)
skip_slashes-head (x ∷ path) c p e = elim (ℕ_discrete x b'/') [
  | yes y ↦ skip_slashes-head path c p (rw (eq→== x b'/' y) at e)
  | no n ↦ λ q. n (head_eq (rw (ne→== x b'/' n) at e) ∙ q)
]
  where
    head_eq : {x c : ℕ} {xs ys : List ℕ} → x ∷ xs ≡ c ∷ ys → x ≡ c
    head_eq e = cc

element_lem :
    (path : List ℕ)
    → All (λ c. c ≢ b'/') (element path)
      × AtSlash (behind_element path)
      × (path ≡ element path ++ behind_element path)
unfolding element behind_element
element_lem [] = (tt, tt, refl)
element_lem (c ∷ path) = elim (ℕ_discrete c b'/') [
  | yes e ↦ rw (eq→== c b'/' e) (tt, e, refl)
  | no n ↦ let (a, s, q) = element_lem path in rw (ne→== c b'/' n) ((n, a), s, ap (◌∷◌ c) q)
]

-- Slashes in front make no difference.
Elements-slashes :
    (slashes path : List ℕ) (names : List (List ℕ))
    → All (λ c. c ≡ b'/') slashes
    → Elements path names
    → Elements (slashes ++ path) names
Elements-slashes slashes path names a (no_more _ more b q) =
    no_more (slashes ++ path) (slashes ++ more) (All-append (λ c. c ≡ b'/') slashes more a b)
      (ap (λ p. slashes ++ p) q)
Elements-slashes slashes path names a (then_element _ more name rest ns b n c s q t) =
    then_element (slashes ++ path) (slashes ++ more) name rest ns
      (All-append (λ c. c ≡ b'/') slashes more a b) n c s
      (ap (λ p. slashes ++ p) q ∙ sym (append_assoc slashes more (name ++ rest))) t

element-head :
    (c : ℕ) (p : List ℕ)
    → c ≢ b'/'
    → (element (c ∷ p) ≡ c ∷ element p) × (behind_element (c ∷ p) ≡ behind_element p)
unfolding element behind_element
element-head c p n = rw (ne→== c b'/' n) (refl, refl)

skipelem-none : (path : List ℕ) → skip_slashes path ≡ [] → skipelem path ≡ none
unfolding skipelem
skipelem-none path e = rw (e, skipelem) refl

skipelem-some :
    (path : List ℕ) (c : ℕ) (p : List ℕ)
    → skip_slashes path ≡ c ∷ p
    → skipelem path ≡ some (take dirsiz (element (c ∷ p)), skip_slashes (behind_element (c ∷ p)))
unfolding skipelem
skipelem-some path c p e = rw (e, skipelem) refl

-- Taking the names off a path one after the other ends, and gives the names of the path's elements in order.
pub all_elements_lem :
    (f : ℕ) (path : List ℕ)
    → length path < f
    → (names : List (List ℕ)) × (all_elements f path ≡ some names) × Elements path names
unfolding all_elements
all_elements_lem zero path l = absurd (omega arith)
all_elements_lem (suc f) path l = at_skipped (skip_slashes path) refl (all_elements_lem f)
  where
    at_skipped :
        (p : List ℕ)
        → skip_slashes path ≡ p
        → ((q : List ℕ)
            → length q < f
            → (names : List (List ℕ)) × (all_elements f q ≡ some names) × Elements q names)
        → (names : List (List ℕ)) × (all_elements (suc f) path ≡ some names) × Elements path names
    at_skipped [] e ih =
        let (slashes, a, q, m) = skip_slashes_lem path in
        (
          [],
          rw (skipelem-none path e, all_elements) refl,
          no_more path slashes a (q ∙ ap (λ p. slashes ++ p) e ∙ append-nil slashes),
        )
    at_skipped (c ∷ p) e ih =
        let (slashes, a, q, m) = skip_slashes_lem path in
        let n = skip_slashes-head path c p e in
        let (b, s, t) = element_lem (c ∷ p) in
        let (more, a', q', m') = skip_slashes_lem (behind_element (c ∷ p)) in
        let shorter : length (behind_element (c ∷ p)) ≤ length p =
          ap_le (element-head c p n).1 (behind_le p) in
        let (names, g, k) =
          ih (skip_slashes (behind_element (c ∷ p)))
            (omega (arith, l, m, m', shorter, ap length e)) in
        (
          take dirsiz (element (c ∷ p)) ∷ names,
          rw (skipelem-some path c p e, all_elements) (rw (g, all_elements) refl),
          then_element path slashes (element (c ∷ p)) (behind_element (c ∷ p)) names a
              (λ z. cons-ne-nil (sym (element-head c p n).0 ∙ z)) b s
              (q ∙ ap (λ p. slashes ++ p) (e ∙ t))
              (subst (λ r. Elements r names) (sym q')
                (Elements-slashes more (skip_slashes (behind_element (c ∷ p))) names a' k)),
        )
      where
        cons-ne-nil : {c : ℕ} {p : List ℕ} → c ∷ p ≢ []
        cons-ne-nil e = cc

        ap_le : {xs ys : List ℕ} {n : ℕ} → xs ≡ ys → length ys ≤ n → length xs ≤ n
        ap_le e h = rw e h

        behind_le : (p : List ℕ) → length (behind_element p) ≤ length p
        behind_le p =
            let (b, s, t) = element_lem p in
            omega (arith, ap length t, length-append (element p) (behind_element p))
