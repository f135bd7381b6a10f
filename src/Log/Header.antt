-- ===== src/Log/Header.antt =====
-- The header that write_head puts on the disk is the one that read_head reads.
use project4final.Log.Device.{
  Block, Device, disk-bwrite_dead, disk-bwrite_self, disk-bwrite_ne, mem-bwrite_ne, power-bwrite,
}
use project4final.Log.Commit.{fill_entries, entries, decode, encode, write_head}
use project4final.Prelude.{
  suc, ℕ, [], ◌∷◌, List, ◌≤◌, length, ◌≡◌, update, ap₂, arith, ◌∙◌, update_ne, update_self, ap,
  refl, ◌<◌, ◌≢◌, ◌-◌,
}

fill_entries-below :
    (i : ℕ) (bs : List ℕ) (hb : Block) (k : ℕ) → k ≤ i → fill_entries i bs hb k ≡ hb k
unfolding fill_entries
fill_entries-below i [] hb k h = refl
fill_entries-below i (b ∷ bs) hb k h =
    fill_entries-below (suc i) bs (update hb (suc i) b) k (omega arith)
    ∙ update_ne hb (suc i) b k (λ e. omega arith)

entries-fill_entries :
    (i : ℕ) (bs : List ℕ) (hb : Block) → entries (length bs) i (fill_entries i bs hb) ≡ bs
unfolding entries fill_entries
entries-fill_entries i [] hb = refl
entries-fill_entries i (b ∷ bs) hb =
    ap₂ ◌∷◌
      (fill_entries-below (suc i) bs (update hb (suc i) b) (suc i) (omega arith)
        ∙ update_self hb (suc i) b)
      (entries-fill_entries (suc i) bs (update hb (suc i) b))

-- read_head after write_head gives back the header, whatever the block held before.
pub decode-encode : (lh : List ℕ) (hb : Block) → decode (encode lh hb) ≡ lh
unfolding decode encode
decode-encode lh hb =
    let n : fill_entries 0 lh (update hb 0 (length lh)) 0 ≡ length lh =
      fill_entries-below 0 lh (update hb 0 (length lh)) 0 (omega arith)
      ∙ update_self hb 0 (length lh) in
    ap (λ k. entries k 0 (fill_entries 0 lh (update hb 0 (length lh)))) n
    ∙ entries-fill_entries 0 lh (update hb 0 (length lh))

-- What write_head changes.
module _ (start : ℕ) (lh : List ℕ) (s : Device) where
  pub header-written : 0 < s.power → decode ((write_head start lh s).disk start) ≡ lh
  unfolding write_head
  header-written p =
      ap decode (disk-bwrite_self s start (encode lh (s.mem start)) p)
      ∙ decode-encode lh (s.mem start)

  pub disk-write_head : (x : ℕ) → x ≢ start → (write_head start lh s).disk x ≡ s.disk x
  unfolding write_head
  disk-write_head x h = disk-bwrite_ne s start (encode lh (s.mem start)) x h

  pub mem-write_head : (x : ℕ) → x ≢ start → (write_head start lh s).mem x ≡ s.mem x
  unfolding write_head
  mem-write_head x h = mem-bwrite_ne s start (encode lh (s.mem start)) x h

  pub write_head-dead : s.power ≡ 0 → (write_head start lh s).disk ≡ s.disk
  unfolding write_head
  write_head-dead p = disk-bwrite_dead s start (encode lh (s.mem start)) p

  pub power-write_head : (write_head start lh s).power ≡ s.power - 1
  unfolding write_head
  power-write_head = power-bwrite s start (encode lh (s.mem start))
