-- ===== src/Fs/Blocks.antt =====
-- The blocks of fs.c. A disk gives the bytes of each block, as bread reads them; a block that log_write marks has its
-- new contents from then on. There is one device. A block number is below 2 ^ 31, so an int holds it.
use project4final.Text.Words.{load_word}
use project4final.Text.Memory.{Memory, memset}
use project4final.Prelude.{
  ℕ, ◌/◌, update, Option, Outcome, ◌+◌, ◌^◌, ◌-◌, none, stop, suc, if◌then◌else◌, ◌%◌, ltb,
  out_of_fuel, ◌==◌, some, ok, panic, zero,
}

abbrev pub Disk : Type 0
Disk = ℕ → Memory

-- struct superblock.
pub record Superblock : Type 0 where
  pub size : ℕ
  pub nblocks : ℕ
  pub ninodes : ℕ
  pub nlog : ℕ
  pub logstart : ℕ
  pub inodestart : ℕ
  pub bmapstart : ℕ

abbrev pub bsize : ℕ
bsize = 512

-- BPB, the bits of a block.
abbrev pub bpb : ℕ
bpb = 4096

-- BBLOCK.
abbrev pub bblock : ℕ → Superblock → ℕ
bblock b sb = b / bpb + sb.bmapstart

-- readsb.
unfoldable pub readsb : Disk → Superblock
readsb d = record {
  size = load_word (d 1) 0;
  nblocks = load_word (d 1) 4;
  ninodes = load_word (d 1) 8;
  nlog = load_word (d 1) 12;
  logstart = load_word (d 1) 16;
  inodestart = load_word (d 1) 20;
  bmapstart = load_word (d 1) 24;
}

unfoldable pub bzero : Disk → ℕ → Disk
bzero d bno = update d bno (memset (d bno) 0 0 bsize)

-- `data[bi/8] & m` with `m = 1 << (bi % 8)`, as 0 or 1.
abbrev pub bit : Memory → ℕ → ℕ
bit data₀ bi = data₀ (bi / 8) / 2 ^ (bi % 8) % 2

-- `data[bi/8] |= m` where that bit is clear, and `data[bi/8] &= ~m` where it is set.
unfoldable pub set_bit : Memory → ℕ → Memory
set_bit data₀ bi = update data₀ (bi / 8) (data₀ (bi / 8) + 2 ^ (bi % 8))

unfoldable pub clear_bit : Memory → ℕ → Memory
clear_bit data₀ bi = update data₀ (bi / 8) (data₀ (bi / 8) - 2 ^ (bi % 8))

-- The inner loop of balloc from bit `bi` on, with `k` bits of the block left.
unfoldable pub find_bit : ℕ → ℕ → Memory → ℕ → ℕ → Option ℕ
find_bit zero size data₀ b bi = none
find_bit (suc k) size data₀ b bi =
    let rest : Option ℕ = find_bit k size data₀ b (bi + 1) in
    if ltb (b + bi) size then if bit data₀ bi == 0 then some bi else rest else none

-- What balloc does with the free bit that it has found.
unfoldable pub take_block : Superblock → Disk → ℕ → ℕ → Disk × ℕ
unfolding set_bit bzero
take_block sb d b bi =
    (bzero (update d (bblock b sb) (set_bit (d (bblock b sb)) bi)) (b + bi), b + bi)

-- The outer loop of balloc, in rounds.
unfoldable pub balloc_from : ℕ → Superblock → Disk → ℕ → Outcome (Disk × ℕ)
balloc_from zero sb d b = stop out_of_fuel
balloc_from (suc f) sb d b =
    let next_block : Outcome (Disk × ℕ) = balloc_from f sb d (b + bpb) in
    if ltb b sb.size
    then elim (find_bit bpb sb.size (d (bblock b sb)) b 0) [
      | none ↦ next_block
      | some bi ↦ ok (take_block sb d b bi)
    ]
    else stop panic

unfoldable pub balloc : Superblock → Disk → Outcome (Disk × ℕ)
balloc sb d = balloc_from (sb.size + 2) sb d 0

-- bfree, with the superblock that it reads again.
unfoldable pub bfree : Disk → ℕ → Outcome Disk
bfree d b =
    let block : ℕ = bblock b (readsb d) in
    if bit (d block) (b % bpb) == 0
    then stop panic
    else ok (update d block (clear_bit (d block) (b % bpb)))
