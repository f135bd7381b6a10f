-- ===== src/Fs/Cached.antt =====
-- About iget: the cache holds an inode at most once.
use project4final.Fs.Icache.{
  Icache, ninode, fresh_entry, iget_from, iget, Entry, is_of, in_use, count_up,
}
use project4final.Prelude.{
  ℕ, ◌<◌, Option, Outcome, ◌≡◌, ◌≢◌, ◌+◌, ◌⊎◌, stop, ℕ_discrete, inl, some, false, panic, subst,
  arith, none, ok, sym, ==-self, update_ne, inr, suc, dec_lt, eq→==, ne→==, zero, refl, ◌∙◌, ◌^◌,
  ◌-◌, true, ◌&&◌, not, ◌==◌, ◌%◌, ltb,
}

-- The entry is of the inode.
abbrev pub IsOf : Entry → ℕ → ℕ → Type 0
IsOf e dev inum = (e.dev ≡ dev) × (e.inum ≡ inum)

-- Two entries in use are of two inodes.
abbrev pub IsUnique : Icache → Type 0
IsUnique c =
    (i j : ℕ)
    → i < ninode
    → j < ninode
    → 0 < (c i).ref
    → 0 < (c j).ref
    → IsOf (c i) (c j).dev (c j).inum
    → i ≡ j

-- Every count of references is an int, and none is the largest.
abbrev pub IsBounded : Icache → Type 0
IsBounded c = (j : ℕ) → j < ninode → (c j).ref < 2 ^ 31 - 1

-- Entry `i` has one more reference in `c'`, to the inode, and no other entry has changed. It was in use for this
-- inode, or it was free and is neither locked nor valid.
pub record Referenced (c c' : Icache) (i dev inum : ℕ) : Type 0 where
  pub in_range : i < ninode
  pub inode : IsOf (c' i) dev inum
  pub counted : (c' i).ref ≡ (c i).ref + 1
  pub others : (j : ℕ) → j ≢ i → c' j ≡ c j
  pub was :
      (IsOf (c i) dev inum × (0 < (c i).ref))
      ⊎ (((c i).ref ≡ 0) × ((c' i).busy ≡ false) × ((c' i).valid ≡ false))

-- No entry below `n` is in use for the inode.
abbrev pub NoneOf : Icache → ℕ → ℕ → ℕ → Type 0
NoneOf c dev inum n = (j : ℕ) → j < n → 0 < (c j).ref → ¬ IsOf (c j) dev inum

-- No entry below `i` is in use for the inode; `empty` is free, or no entry below `i` is.
abbrev Passed : Icache → ℕ → ℕ → ℕ → Option ℕ → Type 0
Passed c dev inum i none = NoneOf c dev inum i × ((j : ℕ) → j < i → 0 < (c j).ref)
Passed c dev inum i (some e) = NoneOf c dev inum i × (e < i) × ((c e).ref ≡ 0)

abbrev Gets : Icache → ℕ → ℕ → Outcome (Icache × ℕ) → Type 0
Gets c dev inum o =
    ((o ≡ stop panic) × ((j : ℕ) → j < ninode → 0 < (c j).ref) × NoneOf c dev inum ninode)
    ⊎ ((c' : Icache) × (i : ℕ) × (o ≡ ok (c', i))
        × Referenced c c' i dev inum
        × ((0 < (c i).ref) ⊎ NoneOf c dev inum ninode))

of_cases :
    (e : Entry) (dev inum : ℕ)
    → (IsOf e dev inum × (is_of e dev inum ≡ true))
      ⊎ ((¬ IsOf e dev inum) × (is_of e dev inum ≡ false))
of_cases e dev inum = elim (ℕ_discrete e.dev dev) [
  | no n ↦ inr ((λ h. n h.0), rw (ne→== e.dev dev n) refl)
  | yes p ↦ elim (ℕ_discrete e.inum inum) [
    | no n ↦ inr ((λ h. n h.1), rw (eq→== e.dev dev p, ne→== e.inum inum n) refl)
    | yes q ↦ inl ((p, q), rw (eq→== e.dev dev p, eq→== e.inum inum q) refl)
  ]
]

in_use-true : (e : Entry) → 0 < e.ref → e.ref < 2 ^ 31 - 1 → in_use e ≡ true
in_use-true e l m = used e.ref l m
  where
    used : (r : ℕ) → 0 < r → r < 2 ^ 31 - 1 → (not (r == 0) && ltb r (2 ^ 31)) ≡ true
    used r l m = ground arith

extend :
    (c : Icache) (dev inum i : ℕ)
    → NoneOf c dev inum i
    → (0 < (c i).ref → ¬ IsOf (c i) dev inum)
    → NoneOf c dev inum (i + 1)
extend c dev inum i h n j l r = elim (ℕ_discrete j i) [
  | yes e ↦ subst (λ x. 0 < (c x).ref → ¬ IsOf (c x) dev inum) (sym e) n r
  | no q ↦ h j (omega arith) r
]

extend_all :
    (c : Icache) (i : ℕ)
    → ((j : ℕ) → j < i → 0 < (c j).ref)
    → 0 < (c i).ref
    → (j : ℕ) → j < i + 1
    → 0 < (c j).ref
extend_all c i h n j l = elim (ℕ_discrete j i) [
  | yes e ↦ subst (λ x. 0 < (c x).ref) (sym e) n
  | no q ↦ h j (omega arith)
]

hit :
    (c : Icache) (dev inum i : ℕ)
    → i < ninode
    → IsOf (c i) dev inum
    → 0 < (c i).ref
    → (c i).ref < 2 ^ 31 - 1
    → Gets c dev inum (ok (count_up c i, i))
hit c dev inum i l q r b = inr (
  count_up c i,
  i,
  refl,
  record {
    in_range = l;
    inode = rw (==-self i) q;
    counted = rw (==-self i) (omega arith);
    others = λ j n. update_ne c i (record (c i) { ref = ((c i).ref + 1) % 2 ^ 32 }) j n;
    was = inl (q, r);
  },
  inl r,
)

stays-IsUnique :
    (c c' : Icache) (i dev inum : ℕ)
    → IsUnique c
    → Referenced c c' i dev inum
    → (0 < (c i).ref) ⊎ NoneOf c dev inum ninode
    → IsUnique c'
stays-IsUnique c c' i dev inum u r f a b la lb ra rb e = elim (ℕ_discrete a i) [
  | yes p ↦ elim (ℕ_discrete b i) [
    | yes q ↦ p ∙ sym q
    | no q ↦
        p
        ∙ sym (
            only b lb q (subst (λ x. 0 < x.ref) (r.others b q) rb)
              (subst (λ x. IsOf x dev inum) (r.others b q) (of_inode a b p e)))
  ]
  | no p ↦ elim (ℕ_discrete b i) [
    | yes q ↦
        only a la p (subst (λ x. 0 < x.ref) (r.others a p) ra)
          (subst (λ x. IsOf x dev inum) (r.others a p) (of_inode b a q (sym e.0, sym e.1)))
        ∙ sym q
    | no q ↦
        u a b la lb (subst (λ x. 0 < x.ref) (r.others a p) ra)
          (subst (λ x. 0 < x.ref) (r.others b q) rb)
          (subst (λ x. IsOf x (c b).dev (c b).inum) (r.others a p)
            (subst (λ x. IsOf (c' a) x.dev x.inum) (r.others b q) e))
  ]
]
  where
    -- An entry that is of the inode of entry `i` is of the inode.
    of_inode : (x y : ℕ) → x ≡ i → IsOf (c' x) (c' y).dev (c' y).inum → IsOf (c' y) dev inum
    of_inode x y p h =
        let (d, n) = subst (λ k. IsOf (c' k) dev inum) (sym p) r.inode in (sym h.0 ∙ d, sym h.1 ∙ n)

    only : (j : ℕ) → j < ninode → j ≢ i → 0 < (c j).ref → IsOf (c j) dev inum → j ≡ i
    only j l n h q = elim r.was [
      | inl w ↦ u j i l r.in_range h w.1 (q.0 ∙ sym w.0.0, q.1 ∙ sym w.0.1)
      | inr w ↦ elim f [ inl g ↦ absurd (omega (arith, w.0, g)) | inr g ↦ absurd (g j l h q) ]
    ]

module _ (c : Icache) (dev inum : ℕ) (small : IsBounded c) where
  fresh-Gets :
      (x : ℕ)
      → x < ninode
      → (c x).ref ≡ 0
      → NoneOf c dev inum ninode
      → Gets c dev inum (ok (fresh_entry c x dev inum, x))
  fresh-Gets x l z h = inr (
    fresh_entry c x dev inum,
    x,
    refl,
    record {
      in_range = l;
      inode = rw (==-self x) (refl, refl);
      counted = rw (==-self x, z) refl;
      others = λ j n.
          update_ne c x
            (record (c x) { dev = dev; inum = inum; ref = 1; busy = false; valid = false }) j n;
      was = inr (z, rw (==-self x) refl, rw (==-self x) refl);
    },
    inr h,
  )

  -- An entry in use that is of another inode is passed.
  passes :
      (i : ℕ)
      → i < ninode
      → 0 < (c i).ref
      → is_of (c i) dev inum ≡ false
      → (in_use (c i) && is_of (c i) dev inum) ≡ false
  passes i l r n = rw (n, in_use-true (c i) r (small i l)) refl

  hits :
      (i : ℕ)
      → i < ninode
      → 0 < (c i).ref
      → is_of (c i) dev inum ≡ true
      → (in_use (c i) && is_of (c i) dev inum) ≡ true
  hits i l r n = rw (n, in_use-true (c i) r (small i l)) refl

  free : (i : ℕ) → (c i).ref ≡ 0 → (in_use (c i) && is_of (c i) dev inum) ≡ false
  free i z = rw (eq→== (c i).ref 0 z) refl

  iget_from-Gets :
      (k i : ℕ) (empty : Option ℕ)
      → i + k ≡ ninode
      → Passed c dev inum i empty
      → Gets c dev inum (iget_from k i empty c dev inum)
  unfolding iget_from
  iget_from-Gets zero i none e h =
      inl (refl, (λ j l. h.1 j (omega arith)), λ j l. h.0 j (omega arith))
  iget_from-Gets zero i (some x) e h =
      fresh-Gets x (omega (arith, h.1, e)) h.2 (λ j l. h.0 j (omega arith))
  iget_from-Gets (suc k) i none e h = elim (dec_lt 0 (c i).ref) [
    | yes r ↦ elim (of_cases (c i) dev inum) [
      | inl (q, t) ↦
          rw (hits i (omega arith) r t) (hit c dev inum i (omega arith) q r (small i (omega arith)))
      | inr (q, t) ↦
          rw (passes i (omega arith) r t, ne→== (c i).ref 0 (λ z. omega (arith, z, r)))
            (iget_from-Gets k (i + 1) none (omega arith)
              (extend c dev inum i h.0 (λ u. q), extend_all c i h.1 r))
    ]
    | no r ↦
        rw (free i (omega arith), eq→== (c i).ref 0 (omega arith))
          (iget_from-Gets k (i + 1) (some i) (omega arith)
            (extend c dev inum i h.0 (λ u. absurd (r u)), (omega arith), omega arith))
  ]
  iget_from-Gets (suc k) i (some x) e h = elim (dec_lt 0 (c i).ref) [
    | yes r ↦ elim (of_cases (c i) dev inum) [
      | inl (q, t) ↦
          rw (hits i (omega arith) r t) (hit c dev inum i (omega arith) q r (small i (omega arith)))
      | inr (q, t) ↦ rw (passes i (omega arith) r t) (
          iget_from-Gets k (i + 1) (some x) (omega arith)
            (extend c dev inum i h.0 (λ u. q), omega (arith, h.1), h.2))
    ]
    | no r ↦ rw (free i (omega arith)) (
        iget_from-Gets k (i + 1) (some x) (omega arith)
          (extend c dev inum i h.0 (λ u. absurd (r u)), omega (arith, h.1), h.2))
  ]

-- iget, with no count of references the largest int, panics, with every entry in use and none of the inode; or it
-- gives an entry of the inode with one more reference, that which the inode had if it had one, and no other entry
-- changes. The cache holds each inode at most once, as before.
pub iget_references :
    (c : Icache) (dev inum : ℕ)
    → IsBounded c
    → IsUnique c
    → ((iget c dev inum ≡ stop panic)
        × ((j : ℕ) → j < ninode → 0 < (c j).ref)
        × NoneOf c dev inum ninode)
      ⊎ ((c' : Icache) × (i : ℕ) × (iget c dev inum ≡ ok (c', i))
          × Referenced c c' i dev inum
          × ((0 < (c i).ref) ⊎ NoneOf c dev inum ninode)
          × IsUnique c')
unfolding iget
iget_references c dev inum small u =
    elim (iget_from-Gets c dev inum small ninode 0 none (omega arith)
      ((λ j l. absurd (omega arith)), λ j l. absurd (omega arith))) [
        | inl x ↦ inl x
        | inr (c', i, o, r, f) ↦ inr (c', i, o, r, f, stays-IsUnique c c' i dev inum u r f)
      ]
