-- ===== src/Fs/FreeMap.antt =====
-- What balloc and bfree do to the free map.
use project4final.Text.Compare.{IsBytes}
use project4final.Fs.Alloc.{
  used, IsLaidOut, Allocated, find_bit-none, find_bit-some, taken-Allocated, used-update,
  update-IsBytes,
}
use project4final.Fs.Bits.{bit-clear_bit, clear_bit-IsBytes}
use project4final.Fs.Blocks.{
  Disk, Superblock, bpb, bblock, readsb, bit, clear_bit, find_bit, take_block, balloc_from, balloc,
  bfree, bzero, set_bit,
}
use project4final.Prelude.{
  ℕ, Outcome, ◌%◌, ◌≡◌, stop, ◌<◌, none, some, panic, ◌+◌, ◌≤◌, ok, ◌≢◌, ap₂, ◌*◌, ◌⊎◌, arith, ◌-◌,
  suc, sym, inl, ◌∙◌, dec_lt, ap, inr, le→ltb, lt→ltb, Option-cases, zero, refl, update,
  if◌then◌else◌, ◌==◌, subst, ℕ_discrete, eq→==, ne→==, update_ne,
}

-- What balloc finds, from block `b` on.
abbrev Found : Superblock → Disk → ℕ → Outcome (Disk × ℕ) → Type 0
Found sb d b o =
    ((o ≡ stop panic) × ((c : ℕ) → b ≤ c → c < sb.size → used sb d c ≢ 0))
    ⊎ ((d' : Disk) × (c : ℕ) × (o ≡ ok (d', c))
        × Allocated sb d d' c
        × ((x : ℕ) → b ≤ x → x < c → used sb d x ≢ 0))

-- The bit of a block behind the block `b`, at the start of a block of the free map.
used-at :
    (sb : Superblock) (d : Disk) (b bi : ℕ)
    → b % bpb ≡ 0
    → bi < bpb
    → used sb d (b + bi) ≡ bit (d (bblock b sb)) bi
used-at sb d b bi h l = ap₂ (λ x y. bit (d (x + sb.bmapstart)) y) (omega arith) (omega arith)

module _ (sb : Superblock) (d : Disk) (s : IsLaidOut sb d) (b : ℕ) (h : b % bpb ≡ 0) where
  block_full :
      find_bit bpb sb.size (d (bblock b sb)) b 0 ≡ none
      → (c : ℕ) → b ≤ c
      → c < b + bpb
      → c < sb.size
      → used sb d c ≢ 0
  block_full e c l m n q =
      find_bit-none bpb sb.size (d (bblock b sb)) b 0 e (c - b) (omega arith) (omega arith)
        (omega arith)
        (sym (used-at sb d b (c - b) h (omega arith)) ∙ ap (used sb d) (omega arith) ∙ q)

  block-Found :
      (bi : ℕ)
      → find_bit bpb sb.size (d (bblock b sb)) b 0 ≡ some bi
      → Found sb d b (ok (take_block sb d b bi))
  unfolding take_block
  block-Found bi e =
      let (u, v, w, z, below) = find_bit-some bpb sb.size (d (bblock b sb)) b 0 bi e in
      let free : used sb d (b + bi) ≡ 0 = used-at sb d b bi h (omega arith) ∙ z in
      let t : Allocated sb d
          (bzero (update d (bblock (b + bi) sb) (set_bit (d (bblock (b + bi) sb)) ((b + bi) % bpb)))
            (b + bi))
          (b + bi) =
        taken-Allocated sb d s (b + bi) w free in
      inr (
        bzero (update d (bblock b sb) (set_bit (d (bblock b sb)) bi)) (b + bi),
        b + bi,
        refl,
        subst
            (λ (y : ℕ × ℕ).
              Allocated sb d
                (bzero (update d (y.0 + sb.bmapstart) (set_bit (d (y.0 + sb.bmapstart)) y.1))
                  (b + bi))
                (b + bi))
            (ap₂ {A = ℕ} {B = ℕ} (λ x y. (x, y)) (omega arith) (omega arith)) t,
        lower below,
      )
    where
      bounded : bi < bpb
      bounded = (find_bit-some bpb sb.size (d (bblock b sb)) b 0 bi e).1

      lower :
          ((j : ℕ) → 0 ≤ j → j < bi → bit (d (bblock b sb)) j ≢ 0)
          → (x : ℕ) → b ≤ x
          → x < b + bi
          → used sb d x ≢ 0
      lower below x l m q = below (x - b) (omega arith) (omega arith) (
          sym (used-at sb d b (x - b) h (omega (arith, m, bounded)))
          ∙ ap (used sb d) (omega arith)
          ∙ q)

balloc_from_lem :
    (f : ℕ) (sb : Superblock) (d : Disk) (b : ℕ)
    → IsLaidOut sb d
    → b % bpb ≡ 0
    → b ≤ sb.size + bpb
    → sb.size + bpb < b + f * bpb
    → Found sb d b (balloc_from f sb d b)
unfolding balloc_from
balloc_from_lem zero sb d b s h g l = absurd (omega arith)
balloc_from_lem (suc f) sb d b s h g l = elim (dec_lt b sb.size) [
  | no n ↦ rw (le→ltb b sb.size (omega arith)) (inl (refl, λ c u v. absurd (omega arith)))
  | yes y ↦
      rw (lt→ltb b sb.size y) (elim (Option-cases (find_bit bpb sb.size (d (bblock b sb)) b 0)) [
        | inl e ↦
            rw e (
              later e
                (balloc_from_lem f sb d (b + bpb) s (omega arith) (omega arith) (omega arith)))
        | inr (bi, e) ↦ rw e (block-Found sb d s b h bi e)
      ])
]
  where
    later :
        find_bit bpb sb.size (d (bblock b sb)) b 0 ≡ none
        → Found sb d (b + bpb) (balloc_from f sb d (b + bpb))
        → Found sb d b (balloc_from f sb d (b + bpb))
    later e (inl (o, k)) = inl (
      o,
      λ c u v. elim (dec_lt c (b + bpb)) [
        | yes m ↦ block_full sb d s b h e c u m v
        | no m ↦ k c (omega arith) v
      ],
    )
    later e (inr (d', c, o, a, k)) = inr (
      d',
      c,
      o,
      a,
      λ x u v. elim (dec_lt x (b + bpb)) [
        | yes m ↦ block_full sb d s b h e x u m (omega (arith, v, a.in_range))
        | no m ↦ k x (omega arith) v
      ],
    )

-- balloc, on a disk that is laid out, either panics, with every block in use, or returns the first block that is not
-- in use: the block is zero, in the free map its bit alone has changed, and no other block has.
pub balloc_takes_first_free :
    (sb : Superblock) (d : Disk)
    → IsLaidOut sb d
    → ((balloc sb d ≡ stop panic) × ((c : ℕ) → c < sb.size → used sb d c ≢ 0))
      ⊎ ((d' : Disk) × (b : ℕ) × (balloc sb d ≡ ok (d', b))
          × Allocated sb d d' b
          × ((c : ℕ) → c < b → used sb d c ≢ 0))
unfolding balloc
balloc_takes_first_free sb d s =
    from_zero (balloc_from_lem (sb.size + 2) sb d 0 s (omega arith) (omega arith) (omega arith))
  where
    from_zero :
        Found sb d 0 (balloc_from (sb.size + 2) sb d 0)
        → ((balloc sb d ≡ stop panic) × ((c : ℕ) → c < sb.size → used sb d c ≢ 0))
          ⊎ ((d' : Disk) × (b : ℕ) × (balloc sb d ≡ ok (d', b))
              × Allocated sb d d' b
              × ((c : ℕ) → c < b → used sb d c ≢ 0))
    from_zero (inl (o, k)) = inl (o, λ c l. k c (omega arith) l)
    from_zero (inr (d', c, o, a, k)) = inr (d', c, o, a, λ x l. k x (omega arith) l)

-- bfree panics at a block that is not in use; else it clears its bit in the free map, and changes no other bit and no
-- other block.
pub bfree_cases :
    (sb : Superblock) (d : Disk) (b : ℕ)
    → ((x : ℕ) → IsBytes (d x))
    → readsb d ≡ sb
    → ((used sb d b ≡ 0) × (bfree d b ≡ stop panic))
      ⊎ ((used sb d b ≢ 0)
          × ((d' : Disk) × (bfree d b ≡ ok d')
              × ((c : ℕ) → used sb d' c ≡ (if c == b then 0 else used sb d c))
              × ((x : ℕ) → x ≢ bblock b sb → d' x ≡ d x)
              × ((x : ℕ) → IsBytes (d' x))))
unfolding bfree
bfree_cases sb d b h e =
    rw (e, bfree)
      (elim (ℕ_discrete (used sb d b) 0) [
        | yes z ↦ inl (z, rw (eq→== (used sb d b) 0 z) refl)
        | no n ↦ inr (
          n,
          (
            update d (bblock b sb) (clear_bit (d (bblock b sb)) (b % bpb)),
            rw (ne→== (used sb d b) 0 n) refl,
            used-update sb d b 0 (clear_bit (d (bblock b sb)) (b % bpb))
                (λ j. bit-clear_bit (d (bblock b sb)) (b % bpb) j (h (bblock b sb)) n),
            (λ x k. update_ne d (bblock b sb) (clear_bit (d (bblock b sb)) (b % bpb)) x k),
            update-IsBytes d (bblock b sb) (clear_bit (d (bblock b sb)) (b % bpb)) h
                (clear_bit-IsBytes (d (bblock b sb)) (b % bpb) (h (bblock b sb))),
          ),
        )
      ])
