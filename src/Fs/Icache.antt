-- ===== src/Fs/Icache.antt =====
-- The cache of inodes in fs.c. A pointer to an entry is its index. Each operation is one step: iget, idup and iunlock hold
-- icache.lock across it, and ilock and iput give it up while they read or free the inode, which is then marked I_BUSY.
use project4final.Fs.Dinode.{iupdate, read_inode}
use project4final.Fs.Inode.{Inode, itrunc}
use project4final.Fs.Blocks.{Disk, Superblock}
use project4final.Prelude.{
  ℕ, Bool, update, Option, Outcome, ◌+◌, false, stop, none, ◌>>=◌, if◌then◌else◌, panic, ◌==◌, not,
  ok, some, ◌||◌, ◌&&◌, true, ◌^◌, suc, ltb, ◌-◌, ◌%◌, zero,
}

abbrev pub ninode : ℕ
ninode = 50

-- struct inode; `busy` and `valid` are I_BUSY and I_VALID of its flags, and `ref` is an int.
pub record Entry : Type 0 where
  pub dev : ℕ
  pub inum : ℕ
  pub ref : ℕ
  pub busy : Bool
  pub valid : Bool
  pub node : Inode

abbrev pub Icache : Type 0
Icache = ℕ → Entry

-- `ip->ref > 0`, and that the entry is of the inode.
abbrev pub in_use : Entry → Bool
in_use e = not (e.ref == 0) && ltb e.ref (2 ^ 31)

abbrev pub is_of : Entry → ℕ → ℕ → Bool
is_of e dev inum = e.dev == dev && e.inum == inum

abbrev pub set_ref : Icache → ℕ → ℕ → Icache
set_ref c i n = update c i (record (c i) { ref = n })

-- `ip->ref++`.
abbrev pub count_up : Icache → ℕ → Icache
count_up c i = set_ref c i (((c i).ref + 1) % 2 ^ 32)

-- What iget makes of an empty entry.
abbrev pub fresh_entry : Icache → ℕ → ℕ → ℕ → Icache
fresh_entry c i dev inum =
    update c i (record (c i) { dev = dev; inum = inum; ref = 1; busy = false; valid = false })

-- The loop of iget from entry `i` on, `k` of them, and what is behind it.
unfoldable pub iget_from : ℕ → ℕ → Option ℕ → Icache → ℕ → ℕ → Outcome (Icache × ℕ)
iget_from zero i none c dev inum = stop panic
iget_from zero i (some e) c dev inum = ok (fresh_entry c e dev inum, e)
iget_from (suc k) i empty c dev inum =
    let rest : Outcome (Icache × ℕ) = iget_from k (i + 1) empty c dev inum in
    let remembered : Outcome (Icache × ℕ) = iget_from k (i + 1) (some i) c dev inum in
    if in_use (c i) && is_of (c i) dev inum
    then ok (count_up c i, i)
    else if (elim empty [ none ↦ true | some e ↦ false ]) && (c i).ref == 0
    then remembered
    else rest

unfoldable pub iget : Icache → ℕ → ℕ → Outcome (Icache × ℕ)
unfolding iget_from
iget c dev inum = iget_from ninode 0 none c dev inum

unfoldable pub idup : Icache → ℕ → Icache
idup c i = count_up c i

-- ilock of an entry, when it is not busy; while it is, the process sleeps and `none` is the outcome of the run.
unfoldable pub ilock : Superblock → Disk → Icache → ℕ → Outcome (Option Icache)
ilock sb d c i =
    let node = read_inode sb d (c i).inum in
    if not (in_use (c i))
    then stop panic
    else if (c i).busy
    then ok none
    else if (c i).valid
    then ok (some (update c i (record (c i) { busy = true })))
    else if node.type == 0
    then stop panic
    else ok (some (update c i (record (c i) { busy = true; valid = true; node = node })))

unfoldable pub iunlock : Icache → ℕ → Outcome Icache
iunlock c i =
    if not (c i).busy || not (in_use (c i))
    then stop panic
    else ok (update c i (record (c i) { busy = false }))

-- The part of iput that frees an inode with no links: the disk, and the entry with its flags clear.
unfoldable pub free_inode : Superblock → Disk → Entry → Outcome (Disk × Entry)
free_inode sb d e = itrunc d e.node >>= λ r.
    let emptied = iupdate sb r.0 e.inum r.1 in
    let node = record r.1 { type = 0 } in
    ok (iupdate sb emptied e.inum node, record e { busy = false; valid = false; node = node })

-- iput, with no other process at the entry while it is freed.
unfoldable pub iput : Superblock → Disk → Icache → ℕ → Outcome (Disk × Icache)
unfolding free_inode
iput sb d c i =
    if (c i).ref == 1 && (c i).valid && (c i).node.nlink == 0
    then (if (c i).busy
        then stop panic
        else free_inode sb d (c i) >>= λ r. ok (r.0, update c i (record r.1 { ref = 0 })))
    else ok (d, set_ref c i (((c i).ref + 2 ^ 32 - 1) % 2 ^ 32))

unfoldable pub iunlockput : Superblock → Disk → Icache → ℕ → Outcome (Disk × Icache)
iunlockput sb d c i = iunlock c i >>= λ u. iput sb d u i
