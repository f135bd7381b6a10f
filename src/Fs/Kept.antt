-- ===== src/Fs/Kept.antt =====
-- What an allocation leaves of the blocks of a file.
use project4final.Fs.Inode.{Inode, ndirect, nindirect}
use project4final.Fs.Alloc.{used, IsLaidOut, Allocated}
use project4final.Fs.Blocks.{Disk, Superblock, bblock}
use project4final.Text.Words.{load_word}
use project4final.Prelude.{
  ℕ, ◌<◌, ◌≢◌, ◌≡◌, arith, Outcome, if◌then◌else◌, ltb, ◌^◌, ap, stop, ◌==◌, ◌∙◌, sym, panic, ◌*◌,
  ◌⊎◌, ◌-◌, ok, ℕ_discrete, eq→==, refl, ◌+◌, ◌≤◌,
}

-- The address of block `n` of the file, 0 if it has none.
abbrev pub block_of : Disk → Inode → ℕ → ℕ
block_of d ip n =
    if ltb n ndirect
    then ip.addrs n
    else if ip.addrs ndirect == 0
    then 0
    else load_word (d (ip.addrs ndirect)) (4 * (n - ndirect))

-- A block that the file system may write: in use, and not of the free map.
abbrev pub IsData : Superblock → Disk → ℕ → Type 0
IsData sb d b = (b < sb.size) × (used sb d b ≢ 0) × ((c : ℕ) → c < sb.size → b ≢ bblock c sb)

-- The disk is laid out, block 0 is in use, and an indirect block is a data block.
pub record IsMapped (sb : Superblock) (d : Disk) (ip : Inode) : Type 0 where
  pub laid_out : IsLaidOut sb d
  pub boot_block : used sb d 0 ≢ 0
  pub small : sb.size < 2 ^ 32
  pub indirect : ip.addrs ndirect ≢ 0 → IsData sb d (ip.addrs ndirect)

module _ (sb : Superblock) (d d' : Disk) (b : ℕ) (a : Allocated sb d d' b) where
  pub kept_used : (c : ℕ) → c < sb.size → used sb d c ≢ 0 → used sb d' c ≢ 0
  kept_used c l h q = ground (arith, a.map c l)

  pub kept_block : (x : ℕ) → IsData sb d x → d' x ≡ d x
  kept_block x h = a.others x (λ q. h.1 (ap (used sb d) q ∙ a.was_free)) (h.2 b a.in_range)

  pub kept-IsData : (x : ℕ) → IsData sb d x → IsData sb d' x
  kept-IsData x h = (h.0, kept_used x h.0 h.1, h.2)

  pub new-IsData : IsLaidOut sb d → IsData sb d' b
  new-IsData s = (
    a.in_range,
    (λ q. ground (arith, a.map b a.in_range)),
    λ c l. s.map_in_use b c a.in_range l a.was_free,
  )

  pub new_ne_zero : used sb d 0 ≢ 0 → b ≢ 0
  new_ne_zero h q = h (ap (used sb d) (sym q) ∙ a.was_free)

-- No block is free.
abbrev pub IsFull : Superblock → Disk → Type 0
IsFull sb d = (c : ℕ) → c < sb.size → used sb d c ≢ 0

-- At most one block is free.
abbrev pub HasOneFree : Superblock → Disk → Type 0
HasOneFree sb d = (b c : ℕ) → b < sb.size → c < sb.size → used sb d b ≡ 0 → used sb d c ≡ 0 → b ≡ c

-- There is no room for block `n` of the file: no block is free, or at most one is, and it takes two, as the file has
-- no indirect block yet.
abbrev pub NoRoom : Superblock → Disk → Inode → ℕ → Type 0
NoRoom sb d ip n = IsFull sb d ⊎ ((ndirect ≤ n) × (ip.addrs ndirect ≡ 0) × HasOneFree sb d)

-- The outcome of a search of block `n`: it panics, `n` having no address and the disk no room for it; or `n` has the
-- address that it gives, every other block of the file has the address that it had, and the file stays mapped.
abbrev pub Maps : Superblock → Disk → Inode → ℕ → Outcome (Disk × Inode × ℕ) → Type 0
Maps sb d ip n o =
    ((o ≡ stop panic) × (block_of d ip n ≡ 0) × NoRoom sb d ip n)
    ⊎ ((d' : Disk) × (ip' : Inode) × (a : ℕ) × (o ≡ ok (d', ip', a))
        × (a ≢ 0)
        × (block_of d' ip' n ≡ a)
        × ((k : ℕ) → k < ndirect + nindirect → k ≢ n → block_of d' ip' k ≡ block_of d ip k)
        × IsMapped sb d' ip')

-- A disk with the same indirect block gives the same addresses.
pub indirect_same :
    (d d' : Disk) (ip : Inode)
    → (ip.addrs ndirect ≢ 0 → d' (ip.addrs ndirect) ≡ d (ip.addrs ndirect))
    → (k : ℕ) → block_of d' ip k ≡ block_of d ip k
indirect_same d d' ip h k = elim (ℕ_discrete (ip.addrs ndirect) 0) [
  | yes z ↦ rw (eq→== (ip.addrs ndirect) 0 z) refl
  | no n ↦
      ap
        (λ m.
          if ltb k ndirect
          then ip.addrs k
          else if ip.addrs ndirect == 0
          then 0
          else load_word m (4 * (k - ndirect)))
        (h n)
]
