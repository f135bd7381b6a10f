-- ===== src/Log/Commit.antt =====
-- The functions of log.c that move blocks. The in-memory header is the list of its block numbers.
use project4final.Log.Device.{Block, Device, bwrite, bread}
use project4final.Prelude.{zero, suc, ℕ, [], ◌∷◌, ◌+◌, List, update, length}

-- The header block on disk: n, then the block numbers; the ints behind them stay.
unfoldable pub fill_entries : ℕ → List ℕ → Block → Block
fill_entries i [] hb = hb
fill_entries i (b ∷ bs) hb = fill_entries (suc i) bs (update hb (suc i) b)

unfoldable pub encode : List ℕ → Block → Block
unfolding fill_entries
encode lh hb = fill_entries 0 lh (update hb 0 (length lh))

unfoldable pub entries : ℕ → ℕ → Block → List ℕ
entries zero i hb = []
entries (suc n) i hb = hb (suc i) ∷ entries n (suc i) hb

unfoldable pub decode : Block → List ℕ
unfolding entries
decode hb = entries (hb 0) 0 hb

module _ (start : ℕ) where
  -- write_log, from position `tail` on.
  unfoldable pub write_log : ℕ → List ℕ → Device → Device
  write_log tail [] s = s
  write_log tail (b ∷ bs) s = write_log (suc tail) bs (bwrite s (start + tail + 1) (bread s b))

  -- install_trans, from position `tail` on.
  unfoldable pub install_trans : ℕ → List ℕ → Device → Device
  install_trans tail [] s = s
  install_trans tail (b ∷ bs) s =
      install_trans (suc tail) bs (bwrite s b (bread s (start + tail + 1)))

  unfoldable pub write_head : List ℕ → Device → Device
  write_head lh s = bwrite s start (encode lh (bread s start))

  unfoldable pub read_head : Device → List ℕ
  read_head s = decode (bread s start)

  -- commit. The header in memory is empty afterwards.
  unfoldable pub commit : List ℕ → Device → Device
  commit [] s = s
  commit (b ∷ bs) s =
      let lh = b ∷ bs in write_head [] (install_trans 0 lh (write_head lh (write_log 0 lh s)))

  -- recover_from_log.
  unfoldable pub recover_from_log : Device → Device
  recover_from_log s = write_head [] (install_trans 0 (read_head s) s)
