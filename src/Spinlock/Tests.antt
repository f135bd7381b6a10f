-- ===== src/Spinlock/Tests.antt =====
-- Two processors at one lock, and nested calls of pushcli.
use project4final.Spinlock.Holders.{has_mark, has_lock}
use project4final.Spinlock.Exclusion.{mutual_exclusion, acquire_release_checked}
use project4final.Spinlock.Cli.{Cpu, open_calls, Call, run, push, cli_matched, pop}
use project4final.Prelude.{
  ℕ, Bool, List, ◌≡◌, false, suc, true, ok, ◌∷◌, refl, arith, zero, ◌≢◌, [],
}
use project4final.Spinlock.Lock.{
  Machine, start, acquire_step, Reach, moved, here, call_acquire, acquire_panicked, spinning, next,
  calls_acquire, acquires, release_panicked, holding,
}

abbrev Reached : Type 0
Reached = (s : Machine) × Reach s

abbrev calls : ℕ → Reached → Reached
calls i r = (moved r.0 i (r.0.lock, call_acquire (r.0.place i)), next r.1 (calls_acquire i))

abbrev acquiring : ℕ → ℕ → Reached → Reached
acquiring zero i r = r
acquiring (suc k) i r =
    acquiring k i (moved r.0 i (acquire_step r.0.lock i (r.0.place i)), next r.1 (acquires i))

-- Processor 0 is inside, and processor 1 spins.
unfoldable contended : Reached
contended = acquiring 3 1 (calls 1 (acquiring 4 0 (calls 0 (start, here))))

mutual_exclusion_example : ◌≡◌ {A = ℕ} 0 0
unfolding contended acquire_step
mutual_exclusion_example = mutual_exclusion {s = contended.0} 0 0 contended.1 refl refl

acquire_release_checked_example :
    ((held : Bool) → contended.0.place 1 ≡ acquire_panicked held → held ≡ true)
    × ((held : Bool) → contended.0.place 1 ≡ release_panicked held → held ≡ false)
    × (holding contended.0.lock 1 ≡ has_mark (contended.0.place 1))
    × (contended.0.place 1 ≡ spinning
        → contended.0.lock.locked ≢ 0
        → (j : ℕ) × (j ≢ 1) × (has_lock (contended.0.place j) ≡ true))
acquire_release_checked_example = acquire_release_checked {s = contended.0} 1 contended.1

one_spins : (contended.0.place 1 ≡ spinning) × (holding contended.0.lock 0 ≡ true)
unfolding contended acquire_step
one_spins = (refl, refl)

abbrev nested : List Call
nested = push ∷ push ∷ pop ∷ pop ∷ push ∷ []

abbrev interruptible : Cpu
interruptible = record { ncli = 0; intena = false; interrupts = true }

cli_matched_example :
    (c' : Cpu) × (run nested interruptible ≡ ok c') × (c'.ncli ≡ 1) × (c'.interrupts ≡ false)
unfolding open_calls
cli_matched_example = cli_matched nested 1 interruptible refl (omega arith) refl
