-- ===== src/Fs/Mapping.antt =====
-- About bmap: the blocks of a file as a function of their numbers.
use project4final.Fs.Entries.{entry-Maps, direct-Maps}
use project4final.Fs.Kept.{IsMapped, Maps, block_of, new_ne_zero, kept_used, new-IsData, NoRoom}
use project4final.Fs.Inode.{Inode, ndirect, nindirect, set_addr, addr_or_new, entry_or_new, bmap}
use project4final.Fs.Alloc.{used, Allocated}
use project4final.Fs.FreeMap.{balloc_takes_first_free}
use project4final.Fs.Blocks.{Disk, Superblock, balloc}
use project4final.Prelude.{
  ℕ, ◌<◌, ◌≢◌, ◌≡◌, arith, Outcome, stop, ◌∙◌, sym, panic, ◌*◌, ◌⊎◌, ◌-◌, ok, ◌>>=◌, inl, inr,
  lt→ltb, ne→==, ℕ_discrete, eq→==, refl, ◌+◌, le→ltb, dec_lt, subst, update_self,
}

addr_or_new-old :
    (sb : Superblock) (d : Disk) (ip : Inode) (k : ℕ)
    → ip.addrs k ≢ 0
    → addr_or_new sb d ip k ≡ ok (d, ip, ip.addrs k)
unfolding addr_or_new
addr_or_new-old sb d ip k h = rw (ne→== (ip.addrs k) 0 h) refl

addr_or_new-new :
    (sb : Superblock) (d : Disk) (ip : Inode) (k : ℕ)
    → ip.addrs k ≡ 0
    → addr_or_new sb d ip k ≡ (balloc sb d >>= λ r. ok (r.0, set_addr ip k r.1, r.1))
unfolding addr_or_new
addr_or_new-new sb d ip k h = rw (eq→== (ip.addrs k) 0 h) refl

-- A new indirect block is zero, and so gives no address yet.
indirect-Maps :
    (sb : Superblock) (d : Disk) (ip : Inode) (i : ℕ)
    → IsMapped sb d ip
    → i < nindirect
    → Maps sb d ip
        (ndirect + i)
        (addr_or_new sb d ip ndirect >>= λ r. entry_or_new sb r.0 r.1 r.2 i)
indirect-Maps sb d ip i m l = elim (ℕ_discrete (ip.addrs ndirect) 0) [
  | no n ↦
      subst (λ o. Maps sb d ip (ndirect + i) (o >>= λ r. entry_or_new sb r.0 r.1 r.2 i))
        (sym (addr_or_new-old sb d ip ndirect n)) (entry-Maps sb d ip i m n l)
  | yes z ↦
      subst (λ o. Maps sb d ip (ndirect + i) (o >>= λ r. entry_or_new sb r.0 r.1 r.2 i))
        (sym (addr_or_new-new sb d ip ndirect z))
        (allocated z (balloc_takes_first_free sb d m.laid_out))
]
  where
    same_blocks :
        (d' : Disk) (b : ℕ)
        → ip.addrs ndirect ≡ 0
        → Allocated sb d d' b
        → (k : ℕ) → k < ndirect + nindirect
        → block_of d' (set_addr ip ndirect b) k ≡ block_of d ip k
    same_blocks d' b z a k u = elim (dec_lt k ndirect) [
      | yes v ↦ rw (lt→ltb k ndirect v, ne→== k ndirect (λ q. omega (arith, q))) refl
      | no v ↦
          rw
            (
              le→ltb k ndirect (omega arith),
              eq→== (ip.addrs ndirect) 0 z,
              ne→== b 0 (new_ne_zero sb d d' b a m.boot_block),
              a.zero_filled (4 * (k - ndirect)) (omega arith),
              a.zero_filled (4 * (k - ndirect) + 1) (omega arith),
              a.zero_filled (4 * (k - ndirect) + 2) (omega arith),
              a.zero_filled (4 * (k - ndirect) + 3) (omega arith),
            )
            refl
    ]

    -- If the allocation of the indirect block has left no room, there was room for it alone.
    one_free :
        (d' : Disk) (b : ℕ)
        → ip.addrs ndirect ≡ 0
        → Allocated sb d d' b
        → NoRoom sb d' (set_addr ip ndirect b) (ndirect + i)
        → NoRoom sb d ip (ndirect + i)
    one_free d' b z a (inr (u, q, h)) =
        absurd (new_ne_zero sb d d' b a m.boot_block (sym (update_self ip.addrs ndirect b) ∙ q))
    one_free d' b z a (inl f) =
        inr (omega arith, z, λ x y l k p q. is_new x l p ∙ sym (is_new y k q))
      where
        is_new : (x : ℕ) → x < sb.size → used sb d x ≡ 0 → x ≡ b
        is_new x l p = elim (ℕ_discrete x b) [
          | yes e ↦ e
          | no n ↦ absurd (f x l (a.map x l ∙ rw (ne→== x b n) p))
        ]

    composed :
        (d' : Disk) (b : ℕ)
        → ip.addrs ndirect ≡ 0
        → Allocated sb d d' b
        → ((k : ℕ)
            → k < ndirect + nindirect
            → block_of d' (set_addr ip ndirect b) k ≡ block_of d ip k)
        → (o : Outcome (Disk × Inode × ℕ)) → Maps sb d' (set_addr ip ndirect b) (ndirect + i) o
        → Maps sb d ip (ndirect + i) o
    composed d' b z a s o (inl (e, h, q)) =
        inl (e, sym (s (ndirect + i) (omega arith)) ∙ h, one_free d' b z a q)
    composed d' b z a₀ s o (inr (e, ip', a, g, h, j, k, t)) =
        inr (e, ip', a, g, h, j, (λ x u q. k x u q ∙ s x u), t)

    no_entry : ip.addrs ndirect ≡ 0 → block_of d ip (ndirect + i) ≡ 0
    no_entry z = rw (le→ltb (ndirect + i) ndirect (omega arith), eq→== (ip.addrs ndirect) 0 z) refl

    allocated :
        ip.addrs ndirect ≡ 0
        → ((balloc sb d ≡ stop panic) × ((c : ℕ) → c < sb.size → used sb d c ≢ 0))
          ⊎ ((d' : Disk) × (b : ℕ) × (balloc sb d ≡ ok (d', b))
              × Allocated sb d d' b
              × ((c : ℕ) → c < b → used sb d c ≢ 0))
        → let first : Outcome (Disk × Inode × ℕ) =
            balloc sb d >>= λ r. ok (r.0, set_addr ip ndirect r.1, r.1) in
          Maps sb d ip (ndirect + i) (first >>= λ r. entry_or_new sb r.0 r.1 r.2 i)
    allocated z (inl (e, f)) = inl (rw e refl, no_entry z, inl f)
    allocated z (inr (d', b, e, a, f)) = rw e (
        composed d' b z a (same_blocks d' b z a) (entry_or_new sb d' (set_addr ip ndirect b) b i) (
          subst
            (λ x.
              Maps sb d' (set_addr ip ndirect b) (ndirect + i)
                (entry_or_new sb d' (set_addr ip ndirect b) x i))
            (update_self ip.addrs ndirect b)
            (entry-Maps sb d' (set_addr ip ndirect b) i
              (record {
                laid_out = a.laid_out;
                boot_block = kept_used sb d d' b a 0 (omega (arith, a.in_range)) m.boot_block;
                small = m.small;
                indirect = λ h. new-IsData sb d d' b a m.laid_out;
              })
              (new_ne_zero sb d d' b a m.boot_block) l)))

bmap-direct :
    (sb : Superblock) (d : Disk) (ip : Inode) (n : ℕ)
    → n < ndirect
    → bmap sb d ip n ≡ addr_or_new sb d ip n
unfolding bmap
bmap-direct sb d ip n l = rw (lt→ltb n ndirect l) refl

bmap-indirect :
    (sb : Superblock) (d : Disk) (ip : Inode) (i : ℕ)
    → i < nindirect
    → bmap sb d ip (ndirect + i)
      ≡ (addr_or_new sb d ip ndirect >>= λ r. entry_or_new sb r.0 r.1 r.2 i)
unfolding bmap
bmap-indirect sb d ip i l =
    rw (le→ltb (ndirect + i) ndirect (omega arith), minus i, lt→ltb i nindirect l) refl
  where
    minus : (i : ℕ) → ndirect + i - ndirect ≡ i
    minus i = omega arith

-- bmap of a block below MAXFILE panics only if the block has no address and there is no room for it: no block of the
-- disk is free, or at most one is and the file has no indirect block yet. Else it returns an address that is not 0,
-- which the block has from then on; every other block of the file keeps its address, or has none as before.
pub bmap-Maps :
    (sb : Superblock) (d : Disk) (ip : Inode) (n : ℕ)
    → IsMapped sb d ip
    → n < ndirect + nindirect
    → Maps sb d ip n (bmap sb d ip n)
bmap-Maps sb d ip n m l = elim (dec_lt n ndirect) [
  | yes v ↦ subst (Maps sb d ip n) (sym (bmap-direct sb d ip n v)) (direct-Maps sb d ip n m v)
  | no v ↦
      subst (λ k. Maps sb d ip k (bmap sb d ip k)) (behind v)
        (subst (Maps sb d ip (ndirect + (n - ndirect)))
          (sym (bmap-indirect sb d ip (n - ndirect) (omega arith)))
          (indirect-Maps sb d ip (n - ndirect) m (omega arith)))
]
  where
    behind : ¬ (n < ndirect) → ndirect + (n - ndirect) ≡ n
    behind v = omega arith
