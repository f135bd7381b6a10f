-- ===== src/Log/Tests.antt =====
-- A small log, and the theorems at it: the log starts at block 2 and has four blocks, and a commit writes blocks 10 and
-- 11.
use project4final.Log.Full.{fresh_log}
use project4final.Log.Recovery.{recoveries, commit_atomic, recovery_completes}
use project4final.Log.Space.{HasSpace, log_write_cases, log_write_cases}
use project4final.Log.Ops.{LogState, log_write, log_size, Spends, Steps, begin_op, begins, sum}
use project4final.Log.Crash.{IsClean, after_commit, Recovers}
use project4final.Log.Commit.{decode, commit, recover_from_log}
use project4final.Log.Device.{Block, Device, reboot}
use project4final.Prelude.{
  ℕ, [], ◌∷◌, ◌+◌, refl, ◌≡◌, arith, if◌then◌else◌, ◌==◌, ◌≤◌, ok, ◌<◌, length, In, Distinct, ◌-◌,
  ◌⊎◌, stop, panic,
}

abbrev old_disk : ℕ → Block
old_disk b i = if b == 2 then 0 else b

abbrev new_mem : ℕ → Block
new_mem b i = if b == 2 then 0 else b + 100

abbrev device : ℕ → Device
device k = record { disk = old_disk; mem = new_mem; power = k }

old_clear : decode (old_disk 2) ≡ []
unfolding decode
old_clear = refl

commit_atomic_example :
    let d = (commit 2 (10 ∷ 11 ∷ []) (device 4)).disk in
    let new = after_commit (10 ∷ 11 ∷ []) new_mem old_disk in
    (4 ≤ 2 → IsClean 2 3 d old_disk) × (2 < 4 → Recovers 2 3 d new) × (5 < 4 → IsClean 2 3 d new)
commit_atomic_example =
    commit_atomic 2 3 (device 4) (10 ∷ 11 ∷ []) (omega arith) (omega arith) old_clear

-- Power for four writes: the two log blocks, the header and one home block. Recovery is interrupted after one write.
recovery_completes_example :
    IsClean 2 3
      (recover_from_log 2
        (reboot (recoveries 2 3 (1 ∷ []) (commit 2 (10 ∷ 11 ∷ []) (device 4)).disk) 5)).disk
      (after_commit (10 ∷ 11 ∷ []) new_mem old_disk)
recovery_completes_example =
    recovery_completes 2 3 (1 ∷ []) (commit 2 (10 ∷ 11 ∷ []) (device 4)).disk
      (after_commit (10 ∷ 11 ∷ []) new_mem old_disk) 5 (commit_atomic_example.1 (omega arith))
      (omega arith)

-- A fresh log, and an operation that begins on it.
fresh_log-HasSpace : HasSpace (fresh_log, [])
fresh_log-HasSpace = record {
  room = omega arith;
  counted = refl;
  fair = tt;
  distinct = tt;
  whole = refl;
  alone = λ z. refl;
}

abbrev one_begun : LogState
one_begun = record fresh_log { outstanding = 1 }

begun : Steps (fresh_log, []) (one_begun, 10 ∷ [])
unfolding begin_op
begun = Steps.next Steps.here (begins fresh_log one_begun [] refl)

log_write_cases_example :
    ((length one_begun.lh < log_size - 1)
      × ((l : LogState) × (log_write one_begun 12 ≡ ok l)
          × (length l.lh ≤ log_size - 1)
          × In 12 l.lh
          × Distinct l.lh))
    ⊎ ((length one_begun.lh ≡ log_size - 1)
        × (sum (10 ∷ []) ≡ 1)
        × (log_write one_begun 12 ≡ stop panic))
log_write_cases_example =
    log_write_cases {s = (fresh_log, [])} {t = (one_begun, 10 ∷ [])} (9 ∷ []) 12 fresh_log-HasSpace
      begun (Spends.this 9 [])
