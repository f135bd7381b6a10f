-- ===== src/Log/Device.antt =====
-- The disk behind the buffer cache, as log.c uses it. bread gives the newest contents of a block, which the cache
-- keeps (`mem`); bwrite puts the block on the disk, as one sector. The machine may lose power: `power` is the number
-- of writes that still reach the disk.
use project4final.Prelude.{
  zero, suc, ℕ, ◌-◌, update, ◌≡◌, ◌≢◌, ◌<◌, update_self, update_ne, arith, ap, refl,
}

-- The ints of a block.
abbrev pub Block : Type 0
Block = ℕ → ℕ

pub record Device : Type 0 where
  pub disk : ℕ → Block
  pub mem : ℕ → Block
  pub power : ℕ

-- bread.
abbrev pub bread : Device → ℕ → Block
bread s b = s.mem b

write_disk : ℕ → (ℕ → Block) → ℕ → Block → ℕ → Block
write_disk zero disk b d = disk
write_disk (suc k) disk b d = update disk b d

-- bwrite of a buffer that has been filled with `d`.
unfoldable pub bwrite : Device → ℕ → Block → Device
unfolding write_disk
bwrite s b d = record {
  disk = write_disk s.power s.disk b d;
  mem = update s.mem b d;
  power = s.power - 1;
}

-- After a crash the cache is empty: every block is read from the disk.
unfoldable pub reboot : (ℕ → Block) → ℕ → Device
reboot disk power = record { disk = disk; mem = disk; power = power }

module _ (s : Device) (b : ℕ) (d : Block) where
  pub mem-bwrite_self : (bwrite s b d).mem b ≡ d
  unfolding bwrite
  mem-bwrite_self = update_self s.mem b d

  pub mem-bwrite_ne : (x : ℕ) → x ≢ b → (bwrite s b d).mem x ≡ s.mem x
  unfolding bwrite
  mem-bwrite_ne x h = update_ne s.mem b d x h

  pub disk-bwrite_ne : (x : ℕ) → x ≢ b → (bwrite s b d).disk x ≡ s.disk x
  unfolding bwrite write_disk
  disk-bwrite_ne x h = go s.power
    where
      go : (k : ℕ) → write_disk k s.disk b d x ≡ s.disk x
      go zero = refl
      go (suc k) = update_ne s.disk b d x h

  pub disk-bwrite_self : 0 < s.power → (bwrite s b d).disk b ≡ d
  unfolding bwrite write_disk
  disk-bwrite_self h = go s.power h
    where
      go : (k : ℕ) → 0 < k → write_disk k s.disk b d b ≡ d
      go zero l = absurd (omega arith)
      go (suc k) l = update_self s.disk b d

  pub disk-bwrite_dead : s.power ≡ 0 → (bwrite s b d).disk ≡ s.disk
  unfolding bwrite write_disk
  disk-bwrite_dead h = ap (λ k. write_disk k s.disk b d) h

  pub power-bwrite : (bwrite s b d).power ≡ s.power - 1
  unfolding bwrite
  power-bwrite = refl
