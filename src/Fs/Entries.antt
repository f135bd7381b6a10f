-- ===== src/Fs/Entries.antt =====
-- The addresses of direct blocks and the entries of the indirect block, for bmap.
use project4final.Fs.Kept.{
  IsMapped, Maps, IsData, block_of, indirect_same, kept_block, new_ne_zero, kept_used, kept-IsData,
}
use project4final.Text.Compare.{IsBytes}
use project4final.Text.Memory.{Memory}
use project4final.Fs.Inode.{Inode, ndirect, nindirect, set_addr, addr_or_new, entry_or_new}
use project4final.Fs.Alloc.{used, Allocated, update-IsBytes}
use project4final.Fs.FreeMap.{balloc_takes_first_free}
use project4final.Fs.Blocks.{Disk, Superblock, bblock, balloc, bit, bpb}
use project4final.Text.Words.{load_word, store_word, load_word-store_word, load_word-apart}
use project4final.Prelude.{
  ℕ, ◌<◌, ◌≢◌, ◌≡◌, arith, ap, stop, ◌∙◌, sym, panic, ◌*◌, ◌⊎◌, ◌-◌, ok, ◌>>=◌, inl, inr, lt→ltb,
  ==-self, ne→==, ℕ_discrete, eq→==, refl, ◌+◌, update, le→ltb, ◌%◌, dec_lt, update_ne,
}

pub direct-Maps :
    (sb : Superblock) (d : Disk) (ip : Inode) (n : ℕ)
    → IsMapped sb d ip
    → n < ndirect
    → Maps sb d ip n (addr_or_new sb d ip n)
unfolding addr_or_new
direct-Maps sb d ip n m l = elim (ℕ_discrete (ip.addrs n) 0) [
  | no h ↦
      rw (ne→== (ip.addrs n) 0 h)
        (inr (d, ip, ip.addrs n, refl, h, rw (lt→ltb n ndirect l) refl, (λ k u q. refl), m))
  | yes z ↦ rw (eq→== (ip.addrs n) 0 z) (allocated z (balloc_takes_first_free sb d m.laid_out))
]
  where
    allocated :
        ip.addrs n ≡ 0
        → ((balloc sb d ≡ stop panic) × ((c : ℕ) → c < sb.size → used sb d c ≢ 0))
          ⊎ ((d' : Disk) × (b : ℕ) × (balloc sb d ≡ ok (d', b))
              × Allocated sb d d' b
              × ((c : ℕ) → c < b → used sb d c ≢ 0))
        → Maps sb d ip n (balloc sb d >>= λ r. ok (r.0, set_addr ip n r.1, r.1))
    allocated z (inl (e, f)) = inl (rw e refl, rw (lt→ltb n ndirect l) z, inl f)
    allocated z (inr (d', b, e, a, f)) = inr (
      d',
      set_addr ip n b,
      b,
      rw e refl,
      new_ne_zero sb d d' b a m.boot_block,
      rw (lt→ltb n ndirect l, ==-self n) refl,
      (λ k u q. other_block k q),
      record {
        laid_out = a.laid_out;
        boot_block = kept_used sb d d' b a 0 (omega (arith, a.in_range)) m.boot_block;
        small = m.small;
        indirect = λ h. rw (ne→== ndirect n (λ q. omega (arith, q))) (
            kept-IsData sb d d' b a (ip.addrs ndirect)
              (m.indirect (rw (ne→== ndirect n (λ q. omega (arith, q))) at h)));
      },
    )
      where
        other_block : (k : ℕ) → k ≢ n → block_of d' (set_addr ip n b) k ≡ block_of d ip k
        other_block k q =
            rw (ne→== k n q, ne→== ndirect n (λ q. omega (arith, q)))
              (indirect_same d d' ip (λ h. kept_block sb d d' b a (ip.addrs ndirect) (m.indirect h))
                k)

store_word-IsBytes : (m : Memory) (a w : ℕ) → IsBytes m → IsBytes (store_word m a w)
unfolding store_word
store_word-IsBytes m a w h x = ground (arith, h x)

-- A word written in a data block leaves the file mapped.
stored-IsMapped :
    (sb : Superblock) (d : Disk) (ip : Inode) (x i b : ℕ)
    → IsMapped sb d ip
    → IsData sb d x
    → IsMapped sb (update d x (store_word (d x) i b)) ip
stored-IsMapped sb d ip x i b m h = record {
  laid_out = record {
    bytes =
        update-IsBytes d x (store_word (d x) i b) m.laid_out.bytes
          (store_word-IsBytes (d x) i b (m.laid_out.bytes x));
    map_in_use = λ c e u v z. m.laid_out.map_in_use c e u v (sym (same_used c u) ∙ z);
  };
  boot_block = λ z. m.boot_block (sym (same_used 0 (omega (arith, h.0))) ∙ z);
  small = m.small;
  indirect = λ k.
      let (u, v, w) = m.indirect k in (u, (λ z. v (sym (same_used (ip.addrs ndirect) u) ∙ z)), w);
}
  where
    same_used : (c : ℕ) → c < sb.size → used sb (update d x (store_word (d x) i b)) c ≡ used sb d c
    same_used c l =
        ap (λ m. bit m (c % bpb))
          (update_ne d x (store_word (d x) i b) (bblock c sb) (λ q. h.2 c l (sym q)))

pub entry-Maps :
    (sb : Superblock) (d : Disk) (ip : Inode) (i : ℕ)
    → IsMapped sb d ip
    → ip.addrs ndirect ≢ 0
    → i < nindirect
    → Maps sb d ip (ndirect + i) (entry_or_new sb d ip (ip.addrs ndirect) i)
unfolding entry_or_new
entry-Maps sb d ip i m h l = elim (ℕ_discrete (load_word (d (ip.addrs ndirect)) (4 * i)) 0) [
  | no n ↦ rw (ne→== (load_word (d (ip.addrs ndirect)) (4 * i)) 0 n) (
      inr
        (d, ip, load_word (d (ip.addrs ndirect)) (4 * i), refl, n, at_entry d, (λ k u q. refl), m))
  | yes z ↦
      rw (eq→== (load_word (d (ip.addrs ndirect)) (4 * i)) 0 z)
        (allocated z (balloc_takes_first_free sb d m.laid_out))
]
  where
    at_entry : (d : Disk) → block_of d ip (ndirect + i) ≡ load_word (d (ip.addrs ndirect)) (4 * i)
    at_entry d =
        rw (le→ltb (ndirect + i) ndirect (omega arith), ne→== (ip.addrs ndirect) 0 h)
          (ap (load_word (d (ip.addrs ndirect))) (omega arith))

    allocated :
        load_word (d (ip.addrs ndirect)) (4 * i) ≡ 0
        → ((balloc sb d ≡ stop panic) × ((c : ℕ) → c < sb.size → used sb d c ≢ 0))
          ⊎ ((d' : Disk) × (b : ℕ) × (balloc sb d ≡ ok (d', b))
              × Allocated sb d d' b
              × ((c : ℕ) → c < b → used sb d c ≢ 0))
        → Maps sb d ip (ndirect + i) (
            balloc sb d >>= λ r. ok (
              update r.0 (ip.addrs ndirect) (store_word (r.0 (ip.addrs ndirect)) (4 * i) r.1),
              ip,
              r.1,
            ))
    allocated z (inl (e, f)) = inl (rw e refl, at_entry d ∙ z, inl f)
    allocated z (inr (d', b, e, a, f)) = inr (
      e',
      ip,
      b,
      rw e refl,
      new_ne_zero sb d d' b a m.boot_block,
      at_entry e'
          ∙ rw (==-self (ip.addrs ndirect)) (
              load_word-store_word (d' (ip.addrs ndirect)) (4 * i) b
                (omega (arith, a.in_range, m.small))),
      other_block,
      stored-IsMapped sb d' ip (ip.addrs ndirect) (4 * i) b
          (record {
            laid_out = a.laid_out;
            boot_block = kept_used sb d d' b a 0 (omega (arith, a.in_range)) m.boot_block;
            small = m.small;
            indirect = λ h. kept-IsData sb d d' b a (ip.addrs ndirect) (m.indirect h);
          })
          (kept-IsData sb d d' b a (ip.addrs ndirect) (m.indirect h)),
    )
      where
        e' : Disk
        e' = update d' (ip.addrs ndirect) (store_word (d' (ip.addrs ndirect)) (4 * i) b)

        other_block :
            (k : ℕ) → k < ndirect + nindirect → k ≢ ndirect + i → block_of e' ip k ≡ block_of d ip k
        other_block k u q = elim (dec_lt k ndirect) [
          | yes v ↦ rw (lt→ltb k ndirect v) refl
          | no v ↦
              rw
                (
                  le→ltb k ndirect (omega arith),
                  ne→== (ip.addrs ndirect) 0 h,
                  ==-self (ip.addrs ndirect),
                )
                (load_word-apart (d' (ip.addrs ndirect)) (4 * i) (4 * (k - ndirect)) b (omega arith)
                  ∙ ap (λ m. load_word m (4 * (k - ndirect)))
                      (kept_block sb d d' b a (ip.addrs ndirect) (m.indirect h)))
        ]
