-- ===== src/Fs/Dirs.antt =====
-- Directories and path names of fs.c. A name is the characters in front of its NUL, at most DIRSIZ of them.
use project4final.Fs.Paths.{dirsiz, skipelem}
use project4final.Fs.Icache.{Icache, iget, idup, ilock, iunlock, iput, iunlockput}
use project4final.Fs.Dinode.{iupdate}
use project4final.Fs.Inode.{Inode, readi, writei}
use project4final.Fs.Blocks.{Disk, Superblock}
use project4final.Prelude.{
  ℕ, List, Outcome, update, Bool, ◌∷◌, true, ◌+◌, [], ◌%◌, ◌>>=◌, Option, stop, suc, ◌⊎◌, false,
  if◌then◌else◌, drop, ◌/◌, out_of_fuel, not, ◌==◌, some, ◌&&◌, ◌*◌, ◌^◌, ok, panic, zero, ltb, inr,
  length, none, inl,
}

abbrev pub t_dir : ℕ
t_dir = 1

abbrev pub root_dev : ℕ
root_dev = 1

abbrev pub root_ino : ℕ
root_ino = 1

-- sizeof(struct dirent).
abbrev pub dirent_size : ℕ
dirent_size = 16

abbrev pub or_nul : List ℕ → ℕ
or_nul [] = 0
or_nul (x ∷ xs) = x

-- namecmp of a name and the name field of an entry, with `n` characters left: whether strncmp gives 0.
unfoldable pub same_name : ℕ → List ℕ → List ℕ → Bool
same_name zero xs ys = true
same_name (suc n) xs ys =
    let rest : Bool = same_name n (drop 1 xs) (drop 1 ys) in
    if not (or_nul xs == 0) && or_nul xs == or_nul ys then rest else or_nul xs == or_nul ys

-- The inum of the bytes of a struct dirent.
abbrev pub inum_of : List ℕ → ℕ
inum_of bytes = or_nul bytes + or_nul (drop 1 bytes) * 2 ^ 8

-- strncpy of a name to the field, and the bytes of the entry.
unfoldable pub padded : ℕ → List ℕ → List ℕ
padded zero xs = []
padded (suc n) xs = or_nul xs ∷ padded n (drop 1 xs)

unfoldable pub dirent : List ℕ → ℕ → List ℕ
unfolding padded
dirent name inum = (inum % 256) ∷ (inum / 2 ^ 8 % 256) ∷ padded dirsiz name

-- A read of the entry at `off`: a short read is a panic.
unfoldable pub read_dirent : Superblock → Disk → Inode → ℕ → Outcome (Disk × Inode × List ℕ)
read_dirent sb d dp off = readi sb d dp off dirent_size >>= λ r. elim r.2 [
  | none ↦ stop panic
  | some bytes ↦ if length bytes == dirent_size then ok (r.0, r.1, bytes) else stop panic
]

-- The loop of dirlookup, in rounds: the offset and the inum of the entry that matches.
unfoldable pub find_dirent :
    ℕ → Superblock → Disk → Inode → List ℕ → ℕ → Outcome (Disk × Inode × Option (ℕ × ℕ))
find_dirent zero sb d dp name off = stop out_of_fuel
find_dirent (suc f) sb d dp name off =
    let at_entry : Outcome (Disk × Inode × Option (ℕ × ℕ)) = read_dirent sb d dp off >>= λ r.
    let rest : Outcome (Disk × Inode × Option (ℕ × ℕ)) =
      find_dirent f sb r.0 r.1 name (off + dirent_size) in
    if inum_of r.2 == 0
    then rest
    else if same_name dirsiz name (drop 2 r.2)
    then ok (r.0, r.1, some (off, inum_of r.2))
    else rest in
    if ltb off dp.size then at_entry else ok (d, dp, none)

abbrev pub set_node : Icache → ℕ → Inode → Icache
set_node c i node = update c i (record (c i) { node = node })

-- dirlookup in the directory of entry `i`: the entry of the inode that it finds, with its offset.
unfoldable pub dirlookup :
    Superblock → Disk → Icache → ℕ → List ℕ → Outcome (Disk × Icache × Option (ℕ × ℕ))
dirlookup sb d c i name =
    if not ((c i).node.type == t_dir)
    then stop panic
    else find_dirent (suc (c i).node.size) sb d (c i).node name 0 >>= λ r. elim r.2 [
      | none ↦ ok (r.0, set_node c i r.1, none)
      | some (off, inum) ↦
          iget (set_node c i r.1) (c i).dev inum >>= λ g. ok (r.0, g.0, some (g.1, off))
    ]

-- The loop of dirlink for an entry that is not in use, in rounds: its offset, or the end.
unfoldable pub find_empty : ℕ → Superblock → Disk → Inode → ℕ → Outcome (Disk × Inode × ℕ)
find_empty zero sb d dp off = stop out_of_fuel
find_empty (suc f) sb d dp off =
    let at_entry : Outcome (Disk × Inode × ℕ) = read_dirent sb d dp off >>= λ r.
    let rest : Outcome (Disk × Inode × ℕ) = find_empty f sb r.0 r.1 (off + dirent_size) in
    if inum_of r.2 == 0 then ok (r.0, r.1, off) else rest in
    if ltb off dp.size then at_entry else ok (d, dp, off)

-- The part of dirlink behind its call of dirlookup.
unfoldable pub add_dirent : Superblock → Disk → Icache → ℕ → List ℕ → ℕ → Outcome (Disk × Icache)
unfolding dirent
add_dirent sb d c i name inum = find_empty (suc (c i).node.size) sb d (c i).node 0 >>= λ r.
    writei sb r.0 r.1 r.2 (dirent name inum) >>= λ w. elim w.2 [
      | none ↦ stop panic
      | some n ↦
          if n == dirent_size
          then ok ((if w.3 then iupdate sb w.0 (c i).inum w.1 else w.0), set_node c i w.1)
          else stop panic
    ]

-- dirlink: whether it adds the entry; -1 stands for false.
unfoldable pub dirlink :
    Superblock → Disk → Icache → ℕ → List ℕ → ℕ → Outcome (Disk × Icache × Bool)
unfolding add_dirent
dirlink sb d c i name inum = dirlookup sb d c i name >>= λ r. elim r.2 [
  | some (found, off) ↦ iput sb r.0 r.1 found >>= λ p. ok (p.0, p.1, false)
  | none ↦ add_dirent sb r.0 r.1 i name inum >>= λ p. ok (p.0, p.1, true)
]

-- How a run of namex ends: at an inode, with the last name that it has read; at none; or asleep at an inode that is
-- locked, with the name that it has taken off the path and the rest of the path, to go on with.
pub data Named : Type 0 where
  found : ℕ → List ℕ → Named
  missing : Named
  locked : ℕ → List ℕ → List ℕ → Named

-- The body of namex's loop at entry `i`, which it has locked: the entry to go on with, or how it ends.
unfoldable pub name_step :
    Superblock → Disk → Icache → ℕ → Bool → List ℕ → List ℕ → Outcome (Disk × Icache × (ℕ ⊎ Named))
name_step sb d c i nameiparent name path =
    if not ((c i).node.type == t_dir)
    then (iunlockput sb d c i >>= λ r. ok (r.0, r.1, inr missing))
    else if nameiparent && length path == 0
    then (iunlock c i >>= λ u. ok (d, u, inr (found i name)))
    else dirlookup sb d c i name >>= λ r. elim r.2 [
      | none ↦ iunlockput sb r.0 r.1 i >>= λ p. ok (p.0, p.1, inr missing)
      | some (next, off) ↦ iunlockput sb r.0 r.1 i >>= λ p. ok (p.0, p.1, inl next)
    ]

-- The loop of namex at entry `i`, in rounds; `name` is the last name read.
unfoldable pub name_loop :
    ℕ → Superblock → Disk → Icache → ℕ → Bool → List ℕ → List ℕ → Outcome (Disk × Icache × Named)
unfolding name_step
name_loop zero sb d c i nameiparent name path = stop out_of_fuel
name_loop (suc f) sb d c i nameiparent name path = elim (skipelem path) [
  | none ↦
      if nameiparent
      then (iput sb d c i >>= λ p. ok (p.0, p.1, missing))
      else ok (d, c, found i name)
  | some (name', path') ↦ ilock sb d c i >>= elim [
    | none ↦ ok (d, c, locked i name' path')
    | some u ↦ name_step sb d u i nameiparent name' path' >>= λ r. elim r.2 [
      | inl next ↦ name_loop f sb r.0 r.1 next nameiparent name' path'
      | inr e ↦ ok (r.0, r.1, e)
    ]
  ]
]

-- namex, from the root directory or from the current one, whose entry is `cwd`.
unfoldable pub namex :
    Superblock → Disk → Icache → ℕ → List ℕ → Bool → Outcome (Disk × Icache × Named)
unfolding name_loop
namex sb d c cwd path nameiparent =
    (if or_nul path == b'/' then iget c root_dev root_ino else ok (idup c cwd, cwd)) >>= λ s.
    name_loop (length path + 2) sb d s.0 s.1 nameiparent [] path

unfoldable pub namei : Superblock → Disk → Icache → ℕ → List ℕ → Outcome (Disk × Icache × Named)
unfolding namex
namei sb d c cwd path = namex sb d c cwd path false

unfoldable pub nameiparent :
    Superblock → Disk → Icache → ℕ → List ℕ → Outcome (Disk × Icache × Named)
unfolding namex
nameiparent sb d c cwd path = namex sb d c cwd path true
