-- ===== src/Fs/Tests.antt =====
-- A disk of ten blocks, and the theorems at it: block 5 has the free map, in which the blocks 0 to 5 are in use.
use project4final.Text.Compare.{IsBytes}
use project4final.Fs.Cached.{iget_references, Referenced, IsUnique, IsBounded, NoneOf}
use project4final.Fs.Elements.{Elements, all_elements, all_elements_lem}
use project4final.Fs.OnDisk.{read_inode-iupdate, FitsDisk, SameInode}
use project4final.Fs.Mapping.{bmap-Maps}
use project4final.Fs.Kept.{IsMapped, Maps}
use project4final.Fs.FreeMap.{balloc_takes_first_free, bfree_cases}
use project4final.Fs.Alloc.{used, IsLaidOut, Allocated}
use project4final.Fs.Icache.{Icache, ninode, iget}
use project4final.Fs.Dinode.{iupdate, read_inode, iblock}
use project4final.Fs.Inode.{Inode, bmap}
use project4final.Fs.Blocks.{Disk, Superblock, readsb, bblock, balloc, bfree}
use project4final.Prelude.{
  ℕ, ◌≡◌, ◌≢◌, ◌>>=◌, arith, List, if◌then◌else◌, ◌==◌, subst, ok, stop, ◌∷◌, some, refl, panic, [],
  false, ◌<◌, ◌⊎◌,
}

abbrev sb : Superblock
sb = record {
  size = 10;
  nblocks = 4;
  ninodes = 8;
  nlog = 1;
  logstart = 2;
  inodestart = 4;
  bmapstart = 5;
}

abbrev disk : Disk
disk b i =
    if b == 5
    then (if i == 0 then 63 else 0)
    else if b == 1
    then (if i == 0
        then 10
        else if i == 4
        then 4
        else if i == 8
        then 8
        else if i == 12
        then 1
        else if i == 16
        then 2
        else if i == 20
        then 4
        else if i == 24
        then 5
        else 0)
    else 0

readsb-disk : readsb disk ≡ sb
unfolding readsb
readsb-disk = refl

disk-IsBytes : (b : ℕ) → IsBytes (disk b)
disk-IsBytes b i = ground arith

disk-IsLaidOut : IsLaidOut sb disk
disk-IsLaidOut = record {
  bytes = disk-IsBytes;
  map_in_use = λ b c l m z q. absurd (one (at_map b (omega (arith, q, m)) z));
}
  where
    one : used sb disk 5 ≢ 0
    one e = omega (arith, e)

    at_map : (b : ℕ) → b ≡ 5 → used sb disk b ≡ 0 → used sb disk 5 ≡ 0
    at_map b e z = subst (λ x. used sb disk x ≡ 0) e z

balloc-disk : (balloc sb disk >>= λ r. ok r.1) ≡ ok 6
unfolding balloc project4final.Fs.Blocks.balloc_from project4final.Fs.Blocks.find_bit
    project4final.Fs.Blocks.take_block
balloc-disk = refl

balloc_takes_first_free_example :
    ((balloc sb disk ≡ stop panic) × ((c : ℕ) → c < 10 → used sb disk c ≢ 0))
    ⊎ ((d' : Disk) × (b : ℕ) × (balloc sb disk ≡ ok (d', b))
        × Allocated sb disk d' b
        × ((c : ℕ) → c < b → used sb disk c ≢ 0))
balloc_takes_first_free_example = balloc_takes_first_free sb disk disk-IsLaidOut

bfree_cases_example :
    ((used sb disk 3 ≡ 0) × (bfree disk 3 ≡ stop panic))
    ⊎ ((used sb disk 3 ≢ 0)
        × ((d' : Disk) × (bfree disk 3 ≡ ok d')
            × ((c : ℕ) → used sb d' c ≡ (if c == 3 then 0 else used sb disk c))
            × ((x : ℕ) → x ≢ bblock 3 sb → d' x ≡ disk x)
            × ((x : ℕ) → IsBytes (d' x))))
bfree_cases_example = bfree_cases sb disk 3 disk-IsBytes readsb-disk

abbrev inode : Inode
inode = record { type = 2; major = 0; minor = 0; nlink = 1; size = 0; addrs = λ k. 0 }

inode-IsMapped : IsMapped sb disk inode
inode-IsMapped = record {
  laid_out = disk-IsLaidOut;
  boot_block = λ e. omega (arith, e);
  small = omega arith;
  indirect = λ n. absurd (n refl);
}

bmap-Maps_example : Maps sb disk inode 20 (bmap sb disk inode 20)
bmap-Maps_example = bmap-Maps sb disk inode 20 inode-IsMapped (omega arith)

inode-FitsDisk : FitsDisk inode
inode-FitsDisk = record {
  type_short = omega arith;
  major_short = omega arith;
  minor_short = omega arith;
  nlink_short = omega arith;
  size_word = omega arith;
  addrs_word = λ k l. omega arith;
}

read_inode-iupdate_example :
    SameInode (read_inode sb (iupdate sb disk 3 inode) 3) inode
    × ((j : ℕ)
        → j ≢ 3
        → SameInode (read_inode sb (iupdate sb disk 3 inode) j) (read_inode sb disk j))
    × ((x : ℕ) → x ≢ iblock 3 sb → iupdate sb disk 3 inode x ≡ disk x)
read_inode-iupdate_example = read_inode-iupdate sb disk 3 inode inode-FitsDisk

-- "//a/bb"
abbrev path : List ℕ
path = b'/' ∷ b'/' ∷ b'a' ∷ b'/' ∷ b'b' ∷ b'b' ∷ []

all_elements-path : all_elements 9 path ≡ some ((b'a' ∷ []) ∷ (b'b' ∷ b'b' ∷ []) ∷ [])
unfolding all_elements project4final.Fs.Paths.skipelem
all_elements-path = refl

all_elements_lem_example :
    (names : List (List ℕ)) × (all_elements 9 path ≡ some names) × Elements path names
all_elements_lem_example = all_elements_lem 9 path (omega arith)

-- Entry 0 is in use for inode 1 of device 1.
abbrev cache : Icache
cache i = record {
  dev = 1;
  inum = 1;
  ref = if i == 0 then 2 else 0;
  busy = false;
  valid = false;
  node = inode;
}

cache-IsUnique : IsUnique cache
cache-IsUnique i j l m r s e = ground arith

cache-IsBounded : IsBounded cache
cache-IsBounded j l = ground arith

iget_references_example :
    ((iget cache 1 7 ≡ stop panic)
      × ((j : ℕ) → j < ninode → 0 < (cache j).ref)
      × NoneOf cache 1 7 ninode)
    ⊎ ((c' : Icache) × (i : ℕ) × (iget cache 1 7 ≡ ok (c', i))
        × Referenced cache c' i 1 7
        × ((0 < (cache i).ref) ⊎ NoneOf cache 1 7 ninode)
        × IsUnique c')
iget_references_example = iget_references cache 1 7 cache-IsBounded cache-IsUnique
