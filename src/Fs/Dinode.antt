-- ===== src/Fs/Dinode.antt =====
-- The inodes on the disk: ialloc, iupdate, and the reading of an inode in ilock.
use project4final.Fs.Inode.{Inode, ndirect}
use project4final.Fs.Blocks.{Disk, Superblock}
use project4final.Text.Words.{load_word, store_word}
use project4final.Text.Memory.{Memory, memset}
use project4final.Prelude.{
  ℕ, ◌+◌, update, ◌/◌, ◌%◌, Outcome, suc, ◌*◌, ◌^◌, stop, ◌-◌, panic, zero, if◌then◌else◌, ◌==◌, ok,
}

-- A short in memory, the lower byte first.
abbrev pub load_half : Memory → ℕ → ℕ
load_half m a = m a + m (a + 1) * 2 ^ 8

unfoldable pub store_half : Memory → ℕ → ℕ → Memory
store_half m a w = update (update m a (w % 256)) (a + 1) (w / 2 ^ 8 % 256)

-- sizeof(struct dinode) and IPB.
abbrev pub dinode_size : ℕ
dinode_size = 64

abbrev pub ipb : ℕ
ipb = 8

-- IBLOCK, and the place of the inode in the block.
abbrev pub iblock : ℕ → Superblock → ℕ
iblock i sb = i / ipb + sb.inodestart

abbrev pub dinode_at : ℕ → ℕ
dinode_at inum = inum % ipb * dinode_size

-- `memmove(dip->addrs, ip->addrs, sizeof(ip->addrs))`, as uints: entry `i` and the `k - 1` behind it.
unfoldable pub store_addrs : ℕ → ℕ → Memory → ℕ → (ℕ → ℕ) → Memory
store_addrs zero i m b addrs = m
store_addrs (suc k) i m b addrs = store_addrs k (i + 1) (store_word m (b + 4 * i) (addrs i)) b addrs

-- What iupdate writes at `b`.
unfoldable pub store_dinode : Memory → ℕ → Inode → Memory
store_dinode m b ip =
    store_addrs (ndirect + 1) 0
      (store_word
        (store_half
          (store_half (store_half (store_half m b ip.type) (b + 2) ip.major) (b + 4) ip.minor)
          (b + 6) ip.nlink)
        (b + 8) ip.size)
      (b + 12) ip.addrs

unfoldable pub load_dinode : Memory → ℕ → Inode
load_dinode m b = record {
  type = load_half m b;
  major = load_half m (b + 2);
  minor = load_half m (b + 4);
  nlink = load_half m (b + 6);
  size = load_word m (b + 8);
  addrs = λ k. load_word m (b + 12 + 4 * k);
}

unfoldable pub iupdate : Superblock → Disk → ℕ → Inode → Disk
unfolding store_dinode
iupdate sb d inum ip =
    update d (iblock inum sb) (store_dinode (d (iblock inum sb)) (dinode_at inum) ip)

-- What ilock reads.
unfoldable pub read_inode : Superblock → Disk → ℕ → Inode
unfolding load_dinode
read_inode sb d inum = load_dinode (d (iblock inum sb)) (dinode_at inum)

-- ialloc from inode `inum` on, with `k` inodes left: the disk, and the number of the inode.
unfoldable pub ialloc_from : ℕ → ℕ → Superblock → Disk → ℕ → Outcome (Disk × ℕ)
unfolding store_half
ialloc_from zero inum sb d type = stop panic
ialloc_from (suc k) inum sb d type =
    let rest : Outcome (Disk × ℕ) = ialloc_from k (inum + 1) sb d type in
    let m : Memory = d (iblock inum sb) in
    if load_half m (dinode_at inum) == 0
    then ok (
      update d (iblock inum sb)
          (store_half (memset m (dinode_at inum) 0 dinode_size) (dinode_at inum) type),
      inum,
    )
    else rest

-- ialloc, up to its call of iget.
unfoldable pub ialloc : Superblock → Disk → ℕ → Outcome (Disk × ℕ)
unfolding ialloc_from
ialloc sb d type = ialloc_from (sb.ninodes - 1) 1 sb d type
