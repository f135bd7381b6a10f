-- ===== src/Proc/Chain.antt =====
-- Linked lists through the `next` fields: which entries a pointer leads to, and how a walk ends.
use project4final.Prelude.{
  ℕ, zero, suc, ◌≡◌, refl, sym, ◌≢◌, ◌<◌, List, [], ◌∷◌, ◌++◌, Option, none, some, arith, update,
  update_self, update_ne, length, All, Fresh, Distinct, ok, subst, All-mono, ap₂,
}
use project4final.Proc.ReadyLists.{walk_to_last}

-- Following `nx` from `p` meets the entries `xs`, in order, and then the null pointer.
abbrev pub Chain : (ℕ → Option ℕ) → Option ℕ → List ℕ → Type 0
Chain nx p [] = p ≡ none
Chain nx p (x ∷ xs) = (p ≡ some x) × Chain nx (nx x) xs

-- The last entry of a list that begins with `x`.
abbrev pub last : ℕ → List ℕ → ℕ
last x [] = x
last x (y ∷ ys) = last y ys

-- A chain depends only on the links of its own entries.
pub Chain-frame :
    (nx mx : ℕ → Option ℕ) (p : Option ℕ) (xs : List ℕ)
    → All (λ x. mx x ≡ nx x) xs
    → Chain nx p xs
    → Chain mx p xs
Chain-frame nx mx p [] a c = c
Chain-frame nx mx p (x ∷ xs) a c =
    (c.0, subst (λ q. Chain mx q xs) (sym a.0) (Chain-frame nx mx (nx x) xs a.1 c.1))

-- A write to an entry off the chain leaves it.
pub Chain-update :
    (nx : ℕ → Option ℕ) (p : Option ℕ) (xs : List ℕ) (a : ℕ) (q : Option ℕ)
    → Fresh a xs
    → Chain nx p xs
    → Chain (update nx a q) p xs
Chain-update nx p xs a q f =
    Chain-frame nx (update nx a q) p xs (All-mono (λ x h. update_ne nx a q x h) xs f)

-- The walk to the last entry ends there, if it has a round for each entry.
pub walk_to_last_lem :
    (f : ℕ) (nx : ℕ → Option ℕ) (x : ℕ) (xs : List ℕ)
    → length xs < f
    → Chain nx (nx x) xs
    → walk_to_last f nx x ≡ ok (last x xs)
unfolding walk_to_last
walk_to_last_lem zero nx x xs h c = absurd (omega arith)
walk_to_last_lem (suc f) nx x [] h c = rw (c, walk_to_last)
walk_to_last_lem (suc f) nx x (y ∷ ys) h c =
    rw (c.0, walk_to_last) (walk_to_last_lem f nx y ys (omega arith) c.1)

Fresh-last : (a x : ℕ) (xs : List ℕ) → a ≢ x → Fresh a xs → a ≢ last x xs
Fresh-last a x [] n f = n
Fresh-last a x (y ∷ ys) n f = Fresh-last a y ys (λ e. f.0 (sym e)) f.1

pub ne_last : (x : ℕ) (xs : List ℕ) (z : ℕ) → x ≢ z → Fresh z xs → last x xs ≢ z
ne_last x xs z n f e = Fresh-last z x xs (λ p. n (sym p)) f (sym e)

pub last-All : (P : ℕ → Type 0) (x : ℕ) (xs : List ℕ) → P x → All P xs → P (last x xs)
last-All P x [] p h = p
last-All P x (y ∷ ys) p h = last-All P y ys h.0 h.1

-- Linking the last entry of one chain to the start of another joins them.
pub Chain-join :
    (nx : ℕ → Option ℕ) (x : ℕ) (xs ys : List ℕ) (q : Option ℕ)
    → Distinct (x ∷ xs)
    → Chain nx (some x) (x ∷ xs)
    → Chain (update nx (last x xs) q) q ys
    → Chain (update nx (last x xs) q) (some x) (x ∷ xs ++ ys)
Chain-join nx x [] ys q d c k = (refl, rw (update_self nx x q) k)
Chain-join nx x (y ∷ r) ys q d c k = (
  refl,
  rw (update_ne nx (last y r) q x (Fresh-last x y r (λ e. d.0.0 (sym e)) d.0.1), c.1.0)
      (Chain-join nx y r ys q d.1 (refl, c.1.1) k),
)

-- A pointer leads along one list only.
pub Chain-unique :
    (nx : ℕ → Option ℕ) (p : Option ℕ) (xs ys : List ℕ) → Chain nx p xs → Chain nx p ys → xs ≡ ys
Chain-unique nx p [] [] c d = refl
Chain-unique nx p [] (y ∷ ys) c d = cc
Chain-unique nx p (x ∷ xs) [] c d = cc
Chain-unique nx p (x ∷ xs) (y ∷ ys) c d =
    let e : x ≡ y = cc in ap₂ ◌∷◌ e (Chain-unique nx (nx x) xs ys c.1 (rw e d.1))
