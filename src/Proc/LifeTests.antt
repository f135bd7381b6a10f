-- ===== src/Proc/LifeTests.antt =====
-- The small table with a child that has ended, and the theorems on fork, exit, wait and getProcInfo at it.
use project4final.Proc.Infos.{get_proc_info_faults}
use project4final.Proc.Exit.{exit_ends, passed_on}
use project4final.Proc.Exit.{set_parent-SameLists}
use project4final.Proc.Wait.{wait_cases, TakesOff, FindsNone}
use project4final.Proc.Fork.{fork_cases, IsChild}
use project4final.Proc.Frame.{SameLists-Represents}
use project4final.Proc.Tests.{sample, sample_view, sample-Represents}
use project4final.Proc.Life.{
  set_parent, chan_of, fork, exit, wait, get_proc_info, same_entry, reaped,
}
use project4final.Proc.View.{View, state_of, Represents, enqueue}
use project4final.Proc.Sched.{asleep}
use project4final.Proc.Table.{Ptable, nproc, running, zombie, sleeping, runnable}
use project4final.Prelude.{
  ℕ, some, ◌≡◌, ◌+◌, [], ◌⊎◌, false, ok, stop, refl, minus_one, ◌<◌, null_pointer, List, true,
  arith, ◌∷◌, ◌≢◌,
}

-- Entry 9, which has ended, is a child of entry 8, which runs.
family : Ptable
family = set_parent sample 9 (some 8)

family-Represents : Represents family sample_view
unfolding family
family-Represents =
    SameLists-Represents sample (set_parent sample 9 (some 8)) sample_view
      (set_parent-SameLists sample 9 (some 8)) sample-Represents

family-running : state_of family 8 ≡ running
unfolding family set_parent
family-running = refl

fork_cases_example :
    (sample_view.free ≡ []
      → (kstack pgdir : ℕ) → fork family 8 kstack pgdir ≡ ok (family, minus_one))
    × ((np : ℕ) (rest : List ℕ)
        → sample_view.free ≡ np ∷ rest
        → ((pgdir : ℕ)
            → (u : Ptable) × (fork family 8 0 pgdir ≡ ok (u, minus_one)) × Represents u sample_view)
          × ((kstack : ℕ)
              → kstack ≢ 0
              → (u : Ptable) × (fork family 8 kstack 0 ≡ ok (u, minus_one))
                × Represents u sample_view)
          × ((kstack pgdir : ℕ)
              → kstack ≢ 0
              → pgdir ≢ 0
              → (u : Ptable) × (fork family 8 kstack pgdir ≡ ok (u, family.nextpid))
                × Represents u (enqueue (record sample_view { free = rest }) 1 np)
                × IsChild family u 8 np pgdir kstack))
fork_cases_example = fork_cases family sample_view 8 family-Represents family-running

wait_cases_example :
    TakesOff family sample_view 8 (wait (λ p. p + 1) family 8)
    ⊎ FindsNone (λ p. p + 1) family sample_view 8 (wait (λ p. p + 1) family 8)
wait_cases_example = wait_cases (λ p. p + 1) family sample_view 8 family-Represents family-running

wait-family : (wait (λ p. p + 1) family 8).1 ≡ reaped 99
unfolding family set_parent wait
wait-family = refl

not_init : same_entry family.initproc 8 ≡ false
unfolding family set_parent
not_init = refl

exit_ends_example :
    (u : Ptable) × (w : View) × (exit (λ p. p + 1) family 8 ≡ ok u)
    × Represents u w
    × (state_of u 8 ≡ zombie)
    × ((x : ℕ)
        → x < nproc
        → asleep family (chan_of (λ p. p + 1) (family.proc 8).parent) x ≡ true
        → state_of u x ≡ runnable)
    × ((x : ℕ) → x < nproc → (u.proc x).parent ≡ passed_on family 8 x)
    × ((x : ℕ)
        → x < nproc
        → x ≢ 8
        → (state_of u x ≡ state_of family x)
          ⊎ ((state_of family x ≡ sleeping) × (state_of u x ≡ runnable)))
exit_ends_example =
    exit_ends (λ p. p + 1) family sample_view 8 family-Represents (omega arith) family-running
      not_init

get_proc_info_faults_example : get_proc_info sample 10 ≡ stop null_pointer
get_proc_info_faults_example = get_proc_info_faults sample 10 3 (omega arith) (λ e. cc) refl
