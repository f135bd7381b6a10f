-- ===== src/Fs/Inode.antt =====
-- The contents of an inode in fs.c. The C functions change the inode that they are given; here they return it.
use project4final.Fs.Blocks.{Disk, Superblock, bsize, balloc, bfree}
use project4final.Text.Words.{load_word, store_word}
use project4final.Text.Memory.{Memory}
use project4final.Prelude.{
  ℕ, update, Outcome, List, if◌then◌else◌, ◌==◌, ◌*◌, ltb, ok, ◌>>=◌, [], ◌∷◌, stop, Option, ◌-◌,
  ◌+◌, out_of_fuel, ◌||◌, Bool, suc, panic, ◌%◌, ◌/◌, length, zero, ◌++◌, ◌^◌, take, none, drop,
  some, false, ◌&&◌, true,
}

abbrev pub ndirect : ℕ
ndirect = 12

-- NINDIRECT, the block numbers in a block.
abbrev pub nindirect : ℕ
nindirect = 128

-- The part of struct inode that is a copy of struct dinode.
pub record Inode : Type 0 where
  pub type : ℕ
  pub major : ℕ
  pub minor : ℕ
  pub nlink : ℕ
  pub size : ℕ
  pub addrs : ℕ → ℕ

abbrev pub set_addr : Inode → ℕ → ℕ → Inode
set_addr ip k a = record ip { addrs = update ip.addrs k a }

-- `if((addr = ip->addrs[k]) == 0) ip->addrs[k] = addr = balloc(ip->dev);`
unfoldable pub addr_or_new : Superblock → Disk → Inode → ℕ → Outcome (Disk × Inode × ℕ)
addr_or_new sb d ip k =
    if ip.addrs k == 0
    then (balloc sb d >>= λ r. ok (r.0, set_addr ip k r.1, r.1))
    else ok (d, ip, ip.addrs k)

-- The entry `i` of the indirect block `addr`.
unfoldable pub entry_or_new : Superblock → Disk → Inode → ℕ → ℕ → Outcome (Disk × Inode × ℕ)
entry_or_new sb d ip addr i =
    if load_word (d addr) (4 * i) == 0
    then (balloc sb d >>= λ r. ok (update r.0 addr (store_word (r.0 addr) (4 * i) r.1), ip, r.1))
    else ok (d, ip, load_word (d addr) (4 * i))

unfoldable pub bmap : Superblock → Disk → Inode → ℕ → Outcome (Disk × Inode × ℕ)
bmap sb d ip bn =
    if ltb bn ndirect
    then addr_or_new sb d ip bn
    else if ltb (bn - ndirect) nindirect
    then (addr_or_new sb d ip ndirect >>= λ r. entry_or_new sb r.0 r.1 r.2 (bn - ndirect))
    else stop panic

-- The first loop of itrunc: the direct blocks from `i` on, `k` of them.
unfoldable pub free_direct : ℕ → ℕ → Disk → Inode → Outcome (Disk × Inode)
free_direct zero i d ip = ok (d, ip)
free_direct (suc k) i d ip =
    let freed : Outcome (Disk × Inode) =
      if ip.addrs i == 0
      then ok (d, ip)
      else bfree d (ip.addrs i) >>= λ e. ok (e, set_addr ip i 0) in
    freed >>= λ r. free_direct k (i + 1) r.0 r.1

-- The second: the blocks that the indirect block, read before, names.
unfoldable pub free_indirect : ℕ → ℕ → Memory → Disk → Outcome Disk
free_indirect zero j a d = ok d
free_indirect (suc k) j a d =
    (if load_word a (4 * j) == 0 then ok d else bfree d (load_word a (4 * j))) >>= λ e.
    free_indirect k (j + 1) a e

-- itrunc, up to its call of iupdate.
unfoldable pub itrunc : Disk → Inode → Outcome (Disk × Inode)
unfolding free_direct free_indirect
itrunc d ip = free_direct ndirect 0 d ip >>= λ r.
    (if r.1.addrs ndirect == 0
      then ok r
      else free_indirect nindirect 0 (r.0 (r.1.addrs ndirect)) r.0 >>= λ e.
          bfree e (r.1.addrs ndirect) >>= λ g. ok (g, set_addr r.1 ndirect 0))
    >>= λ q. ok (q.0, record q.1 { size = 0 })

-- The `n` bytes from `off` on, and a write of bytes there.
unfoldable pub read_bytes : Memory → ℕ → ℕ → List ℕ
read_bytes m off zero = []
read_bytes m off (suc n) = m off ∷ read_bytes m (off + 1) n

unfoldable pub write_bytes : Memory → ℕ → List ℕ → Memory
write_bytes m off [] = m
write_bytes m off (x ∷ xs) = write_bytes (update m off x) (off + 1) xs

-- `m = min(n - tot, BSIZE - off%BSIZE)`.
abbrev pub piece : ℕ → ℕ → ℕ
piece left off = if ltb left (bsize - off % bsize) then left else bsize - off % bsize

-- The loop of readi with `left` bytes to read, in rounds.
unfoldable pub read_loop : ℕ → Superblock → Disk → Inode → ℕ → ℕ → Outcome (Disk × Inode × List ℕ)
unfolding read_bytes
read_loop zero sb d ip off left = stop out_of_fuel
read_loop (suc f) sb d ip off left =
    let rest : Outcome (Disk × Inode × List ℕ) = bmap sb d ip (off / bsize) >>= λ r.
    read_loop f sb r.0 r.1 (off + piece left off) (left - piece left off) >>= λ q.
    ok (q.0, q.1, read_bytes (r.0 r.2) (off % bsize) (piece left off) ++ q.2) in
    if left == 0 then ok (d, ip, []) else rest

-- readi of a file or directory, behind the test for a device: what stands for -1 is `none`.
unfoldable pub readi : Superblock → Disk → Inode → ℕ → ℕ → Outcome (Disk × Inode × Option (List ℕ))
readi sb d ip off n =
    if ltb ip.size off || ltb ((off + n) % 2 ^ 32) off
    then ok (d, ip, none)
    else let n' = if ltb ip.size ((off + n) % 2 ^ 32) then ip.size - off else n in
      read_loop (suc n') sb d ip off n' >>= λ r. ok (r.0, r.1, some r.2)

-- The loop of writei with the bytes `xs` to write, in rounds; it ends with the offset.
unfoldable pub write_loop : ℕ → Superblock → Disk → Inode → ℕ → List ℕ → Outcome (Disk × Inode × ℕ)
unfolding write_bytes
write_loop zero sb d ip off xs = stop out_of_fuel
write_loop (suc f) sb d ip off [] = ok (d, ip, off)
write_loop (suc f) sb d ip off (x ∷ xs) =
    let m : ℕ = piece (length (x ∷ xs)) off in
    bmap sb d ip (off / bsize) >>= λ r.
    write_loop f sb (update r.0 r.2 (write_bytes (r.0 r.2) (off % bsize) (take m (x ∷ xs)))) r.1
      (off + m) (drop m (x ∷ xs))

-- writei of a file or directory, behind the test for a device and up to its call of iupdate, which is made if the last
-- result is true. What stands for -1 is `none`, for n the number.
unfoldable pub writei :
    Superblock → Disk → Inode → ℕ → List ℕ → Outcome (Disk × Inode × Option ℕ × Bool)
writei sb d ip off xs =
    let n : ℕ = length xs in
    if ltb ip.size off
      || ltb ((off + n) % 2 ^ 32) off
      || ltb ((ndirect + nindirect) * bsize) ((off + n) % 2 ^ 32)
    then ok (d, ip, none, false)
    else write_loop (suc n) sb d ip off xs >>= λ r.
        if ltb 0 n && ltb ip.size r.2
        then ok (r.0, record r.1 { size = r.2 }, some n, true)
        else ok (r.0, r.1, some n, false)
