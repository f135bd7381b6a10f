-- ===== src/Fs/Alloc.antt =====
-- About balloc and bfree: the free map as a set of blocks.
use project4final.Text.Compare.{IsBytes}
use project4final.Fs.Bits.{bit-set_bit, set_bit-IsBytes}
use project4final.Fs.Blocks.{Disk, Superblock, bsize, bpb, bblock, bzero, bit, set_bit, find_bit}
use project4final.Text.Moves.{memset_fills}
use project4final.Text.Memory.{Memory}
use project4final.Prelude.{
  ℕ, ◌%◌, ◌<◌, ◌≡◌, some, ◌≢◌, none, ◌≤◌, if◌then◌else◌, ◌==◌, ◌+◌, arith, suc, ℕ_discrete, dec_lt,
  sym, le→ltb, lt→ltb, eq→==, subst, ne→==, zero, ==-self, inr, update, ap, ◌∙◌, ◌/◌, update_ne,
  refl,
}

-- The bit of block `b` in the free map: 1 if it is in use.
abbrev pub used : Superblock → Disk → ℕ → ℕ
used sb d b = bit (d (bblock b sb)) (b % bpb)

-- Every block holds bytes, and no block of the free map is itself free.
pub record IsLaidOut (sb : Superblock) (d : Disk) : Type 0 where
  pub bytes : (x : ℕ) → IsBytes (d x)
  pub map_in_use : (b c : ℕ) → b < sb.size → c < sb.size → used sb d b ≡ 0 → b ≢ bblock c sb

-- Block `b` of `d` has been allocated in `d'`: it is zero, and in the free map its bit alone has changed.
pub record Allocated (sb : Superblock) (d d' : Disk) (b : ℕ) : Type 0 where
  pub in_range : b < sb.size
  pub was_free : used sb d b ≡ 0
  pub map : (c : ℕ) → c < sb.size → used sb d' c ≡ (if c == b then 1 else used sb d c)
  pub zero_filled : (i : ℕ) → i < bsize → d' b i ≡ 0
  pub others : (x : ℕ) → x ≢ b → x ≢ bblock b sb → d' x ≡ d x
  pub laid_out : IsLaidOut sb d'

none≢some : {a : ℕ} → (some a ≡ none) → ⊥
none≢some e = cc

pub find_bit-none :
    (k size : ℕ) (m : Memory) (b bi : ℕ)
    → find_bit k size m b bi ≡ none
    → (j : ℕ) → bi ≤ j
    → j < bi + k
    → b + j < size
    → bit m j ≢ 0
unfolding find_bit
find_bit-none zero size m b bi e j l h u = absurd (omega arith)
find_bit-none (suc k) size m b bi e j l h u = elim (ℕ_discrete (bit m bi) 0) [
  | yes z ↦ absurd (none≢some (rw (lt→ltb (b + bi) size (omega arith), eq→== (bit m bi) 0 z) at e))
  | no z ↦ elim (ℕ_discrete j bi) [
    | yes q ↦ rw q z
    | no q ↦
        find_bit-none k size m b (bi + 1)
          (rw (lt→ltb (b + bi) size (omega arith), ne→== (bit m bi) 0 z) at e) j (omega arith)
          (omega arith) u
  ]
]

pub find_bit-some :
    (k size : ℕ) (m : Memory) (b bi c : ℕ)
    → find_bit k size m b bi ≡ some c
    → (bi ≤ c)
      × (c < bi + k)
      × (b + c < size)
      × (bit m c ≡ 0)
      × ((j : ℕ) → bi ≤ j → j < c → bit m j ≢ 0)
unfolding find_bit
find_bit-some zero size m b bi c e = absurd (cc)
find_bit-some (suc k) size m b bi c e = elim (dec_lt (b + bi) size) [
  | no l ↦ absurd (none≢some (sym (rw (le→ltb (b + bi) size (omega arith)) at e)))
  | yes l ↦ elim (ℕ_discrete (bit m bi) 0) [
    | yes z ↦
        let q = some_inj (rw (lt→ltb (b + bi) size l, eq→== (bit m bi) 0 z) at e) in
        (
          omega arith,
          omega arith,
          omega arith,
          subst (λ x. bit m x ≡ 0) q z,
          λ j u v. absurd (omega arith),
        )
    | no z ↦
        let (u, v, w, x, y) =
          find_bit-some k size m b (bi + 1) c
            (rw (lt→ltb (b + bi) size l, ne→== (bit m bi) 0 z) at e) in
        (omega arith, omega arith, w, x, from z y)
  ]
]
  where
    some_inj : {x y : ℕ} → some x ≡ some y → x ≡ y
    some_inj e = cc

    from :
        bit m bi ≢ 0
        → ((j : ℕ) → bi + 1 ≤ j → j < c → bit m j ≢ 0)
        → (j : ℕ) → bi ≤ j
        → j < c
        → bit m j ≢ 0
    from z y j u v = elim (ℕ_discrete j bi) [ yes q ↦ rw q z | no q ↦ y j (omega arith) v ]

bzero-at : (d : Disk) (b i : ℕ) → i < bsize → bzero d b b i ≡ 0
unfolding bzero
bzero-at d b i h = rw (==-self b) ((memset_fills (d b) 0 0 bsize).0 i (omega arith) (omega arith))

bzero-IsBytes : (d : Disk) (b : ℕ) → ((x : ℕ) → IsBytes (d x)) → (x : ℕ) → IsBytes (bzero d b x)
unfolding bzero
bzero-IsBytes d b h x i = elim (ℕ_discrete x b) [
  | no n ↦ rw (ne→== x b n) (h x i)
  | yes e ↦ rw (eq→== x b e) (elim (dec_lt i bsize) [
    | yes l ↦ rw ((memset_fills (d b) 0 0 bsize).0 i (omega arith) (omega arith)) (omega arith)
    | no l ↦ rw ((memset_fills (d b) 0 0 bsize).1 i (inr (omega arith))) (h b i)
  ])
]

pub bzero-out : (d : Disk) (b x : ℕ) → x ≢ b → bzero d b x ≡ d x
unfolding bzero
bzero-out d b x n = rw (ne→== x b n)

pub update-IsBytes :
    (d : Disk) (b : ℕ) (m : Memory)
    → ((x : ℕ) → IsBytes (d x))
    → IsBytes m
    → (x : ℕ) → IsBytes (update d b m x)
update-IsBytes d b m h k x = elim (ℕ_discrete x b) [
  | yes e ↦ rw (eq→== x b e) k
  | no n ↦ rw (ne→== x b n) (h x)
]

-- A changed block of the free map changes the bits of its own blocks only.
pub used-update :
    (sb : Superblock) (d : Disk) (b v : ℕ) (m : Memory)
    → ((j : ℕ) → bit m j ≡ (if j == b % bpb then v else bit (d (bblock b sb)) j))
    → (c : ℕ) → used sb (update d (bblock b sb) m) c ≡ (if c == b then v else used sb d c)
used-update sb d b v m h c = elim (ℕ_discrete (c / bpb) (b / bpb)) [
  | no n ↦
      rw
        (
          ne→== (bblock c sb) (bblock b sb) (λ q. n (omega (arith, q))),
          ne→== c b (λ q. n (ap (λ x. x / bpb) q)),
        )
        refl
  | yes e ↦
      let q : bblock c sb ≡ bblock b sb = ap (λ x. x + sb.bmapstart) e in
      rw (eq→== (bblock c sb) (bblock b sb) q) (h (c % bpb) ∙ at_block e q)
]
  where
    at_block :
        c / bpb ≡ b / bpb
        → bblock c sb ≡ bblock b sb
        → (if c % bpb == b % bpb then v else bit (d (bblock b sb)) (c % bpb))
          ≡ (if c == b then v else used sb d c)
    at_block e q = elim (ℕ_discrete c b) [
      | yes r ↦ rw (eq→== c b r, eq→== (c % bpb) (b % bpb) (ap (λ x. x % bpb) r)) refl
      | no r ↦
          rw (ne→== c b r, ne→== (c % bpb) (b % bpb) (λ s. r (omega (arith, e, s))))
            (ap (λ x. bit (d x) (c % bpb)) (sym q))
    ]

module _ (sb : Superblock) (d : Disk) (s : IsLaidOut sb d) (b : ℕ) (l : b < sb.size)
    (z : used sb d b ≡ 0) where
  abbrev pub marked : Disk
  marked = update d (bblock b sb) (set_bit (d (bblock b sb)) (b % bpb))

  used-marked : (c : ℕ) → used sb marked c ≡ (if c == b then 1 else used sb d c)
  used-marked =
      used-update sb d b 1 (set_bit (d (bblock b sb)) (b % bpb))
        (λ j. bit-set_bit (d (bblock b sb)) (b % bpb) j (s.bytes (bblock b sb)) z)

  used-taken :
      (c : ℕ) → c < sb.size → used sb (bzero marked b) c ≡ (if c == b then 1 else used sb d c)
  used-taken c h =
      ap (λ m. bit m (c % bpb))
        (bzero-out marked b (bblock c sb) (λ q. s.map_in_use b c l h z (sym q)))
      ∙ used-marked c

  pub taken-Allocated : Allocated sb d (bzero marked b) b
  taken-Allocated = record {
    in_range = l;
    was_free = z;
    map = used-taken;
    zero_filled = bzero-at marked b;
    others = λ x n k.
        bzero-out marked b x n
        ∙ update_ne d (bblock b sb) (set_bit (d (bblock b sb)) (b % bpb)) x k;
    laid_out = record {
      bytes = bzero-IsBytes marked b (
          update-IsBytes d (bblock b sb) (set_bit (d (bblock b sb)) (b % bpb)) s.bytes
            (set_bit-IsBytes (d (bblock b sb)) (b % bpb) (s.bytes (bblock b sb)) z));
      map_in_use = λ x c h k e. s.map_in_use x c h k (still_free x h e);
    };
  }
    where
      still_free : (x : ℕ) → x < sb.size → used sb (bzero marked b) x ≡ 0 → used sb d x ≡ 0
      still_free x h e = ground (arith, used-taken x h)
