-- ===== src/Proc/Tests.antt =====
-- A small table, and the theorems at it.
use project4final.Proc.Turn.{aged, clock-Represents, schedule_runs_front}
use project4final.Proc.Aging.{reset_priority_merges}
use project4final.Proc.Add.{make_runnable_enqueues}
use project4final.Proc.Rounds.{sleep_then_wakeup, round_robin}
use project4final.Proc.Kill.{kill_cases, kill_zero_marks_next_process}
use project4final.Proc.Alloc.{Taken, allocproc_cases}
use project4final.Proc.Enqueue.{Woken, core, bare}
use project4final.Proc.ReadyLists.{reset_priority, setpriority}
use project4final.Proc.Wakeup.{sleepers, enqueue_all, wakeup1_wakes}
use project4final.Proc.Sched.{
  make_runnable, wakeup1, allocproc, kill, sleep, yield, asleep, schedule,
}
use project4final.Proc.Setpriority.{IsFirst, setpriority_stays_queued}
use project4final.Proc.View.{
  View, Represents, Holds, IsQueued, enqueue, dequeue, merge, state_of, priority_of,
}
use project4final.Proc.Table.{
  ProcState, Proc, Ptable, levels, unused, runnable, sleeping, running, zombie, nproc, embryo,
}
use project4final.Prelude.{
  zero, suc, [], ◌∷◌, none, some, ok, refl, ◌≡◌, ◌≢◌, ◌<◌, ℕ, Option, if◌then◌else◌, ◌==◌, arith,
  update,
}

abbrev pub entry : ProcState → ℕ → ℕ → ℕ → Option ℕ → Proc
entry s pid priority chan next = record {
  sz = 0;
  pgdir = 0;
  kstack = 4096;
  state = s;
  pid = pid;
  uid = 0;
  gid = 0;
  priority = priority;
  parent = none;
  chan = chan;
  killed = 0;
  next = next;
}

-- Entries 3 and 5 wait on the list 1, entry 7 sleeps on the channel 9, entry 2 is unused, entry 8 runs, and
-- the others are zombies.
abbrev pub sample_proc : ℕ → Proc
sample_proc x =
    if x == 2
    then entry unused 0 1 0 none
    else if x == 3
    then entry runnable 13 1 0 (some 5)
    else if x == 5
    then entry runnable 15 1 0 none
    else if x == 7
    then entry sleeping 17 0 9 none
    else if x == 8
    then entry running 18 2 0 none
    else entry zombie 99 1 0 none

abbrev pub sample : Ptable
sample = record {
  proc = sample_proc;
  ready = λ i. if i == 1 then some 3 else none;
  free = some 2;
  time_to_reset = 0;
  nextpid = 20;
  initproc = none;
}

abbrev pub sample_view : View
sample_view = record { ready = λ i. if i == 1 then 3 ∷ 5 ∷ [] else []; free = 2 ∷ [] }

pub sample-Represents : Represents sample sample_view
sample-Represents = record {
  ready = level;
  free = record {
    chain = (refl, refl);
    distinct = (tt, tt);
    sound = ((omega arith, refl), tt);
    complete = λ x q. ground arith;
  };
  in_range = λ x l. ground arith;
}
  where
    level :
        (i : ℕ)
        → i < levels
        → Holds sample (IsQueued sample i) (sample.ready i) (sample_view.ready i)
    level zero l = record {
      chain = refl;
      distinct = tt;
      sound = tt;
      complete = λ x q. ground arith;
    }
    level (suc zero) l = record {
      chain = (refl, (refl, refl));
      distinct = (((λ e. omega arith), tt), (tt, tt));
      sound = ((omega arith, refl, refl), ((omega arith, refl, refl), tt));
      complete = λ x q. ground arith;
    }
    level (suc (suc zero)) l = record {
      chain = refl;
      distinct = tt;
      sound = tt;
      complete = λ x q. ground arith;
    }
    level (suc (suc (suc i))) l = absurd (omega arith)

-- Entry 0 is unused, on top of the free list.
abbrev spare : Ptable
spare = record {
  proc = λ x. if x == 0 then entry unused 0 1 0 none else entry zombie 99 1 0 none;
  ready = λ i. none;
  free = some 0;
  time_to_reset = 0;
  nextpid = 20;
  initproc = none;
}

abbrev spare_view : View
spare_view = record { ready = λ i. []; free = 0 ∷ [] }

spare-Represents : Represents spare spare_view
spare-Represents = record {
  ready = λ i l. record { chain = refl; distinct = tt; sound = tt; complete = λ x q. ground arith };
  free = record {
    chain = (refl, refl);
    distinct = (tt, tt);
    sound = ((omega arith, refl), tt);
    complete = λ x q. ground arith;
  };
  in_range = λ x l. ground arith;
}

-- Levels better than 1 are empty.
none_better : (j : ℕ) → j < 1 → sample_view.ready j ≡ []
none_better zero l = refl
none_better (suc j) l = absurd (omega arith)

make_runnable_enqueues_example :
    (u : Ptable) × (make_runnable sample 7 ≡ ok u)
    × Represents u (enqueue sample_view 0 7)
    × Woken sample u 7
make_runnable_enqueues_example =
    make_runnable_enqueues sample sample_view 7 sample-Represents (omega arith) (λ e. cc) (λ e. cc)

wakeup1_wakes_example :
    (u : Ptable) × (wakeup1 sample 9 ≡ ok u)
    × Represents u (enqueue_all (priority_of sample) (sleepers nproc 0 9 sample) sample_view)
    × ((x : ℕ)
        → x < nproc
        → state_of u x ≡ (if asleep sample 9 x then runnable else state_of sample x))
    × ((x : ℕ) → core (u.proc x) ≡ core (sample.proc x))
wakeup1_wakes_example = wakeup1_wakes 9 sample sample_view sample-Represents

sleepers-sample : sleepers nproc 0 9 sample ≡ 7 ∷ []
unfolding sleepers
sleepers-sample = refl

-- A turn of the scheduler that ages the queues: the clock of the sample is at 0.
aged_front : (aged sample sample_view).ready 1 ≡ 3 ∷ 5 ∷ []
unfolding merge
aged_front = refl

none_better_aged : (j : ℕ) → j < 1 → (aged sample sample_view).ready j ≡ []
unfolding merge
none_better_aged zero l = refl
none_better_aged (suc j) l = absurd (omega arith)

schedule_runs_front_example :
    (w : Ptable) × (schedule sample ≡ ok (w, 3))
    × Represents w (dequeue (aged sample sample_view) 1 (5 ∷ []))
    × (state_of w 3 ≡ running)
    × ((x : ℕ) → x ≢ 3 → state_of w x ≡ state_of sample x)
    × ((x : ℕ) → x < nproc → priority_of w x ≡ 1)
    × ((x : ℕ) → bare (w.proc x) ≡ bare (sample.proc x))
    × (w.time_to_reset ≡ 100)
schedule_runs_front_example =
    schedule_runs_front sample sample_view 1 3 (5 ∷ []) sample-Represents (omega arith) aged_front
      none_better_aged

-- The sample with a clock that is not at 0: a turn that leaves the queues.
abbrev ticking : Ptable
ticking = record sample { time_to_reset = 7 }

ticking-Represents : Represents ticking sample_view
ticking-Represents = clock-Represents sample sample_view 7 sample-Represents

thirteen_ticking : IsFirst ticking 13 3
thirteen_ticking = (omega arith, refl, λ x l. λ e. ground arith)

round_robin_example :
    (u w : Ptable) × (schedule ticking ≡ ok (u, 3))
    × (yield u 3 ≡ ok w)
    × Represents w (record sample_view { ready = update sample_view.ready 1 (5 ∷ 3 ∷ []) })
round_robin_example =
    round_robin ticking sample_view 1 3 (5 ∷ []) ticking-Represents (omega arith) refl none_better

reset_priority_merges_example :
    (u : Ptable) × (reset_priority sample ≡ ok u)
    × Represents u (merge sample_view)
    × ((x : ℕ) → x < nproc → priority_of u x ≡ 1)
    × ((x : ℕ) → state_of u x ≡ state_of sample x)
reset_priority_merges_example = reset_priority_merges sample sample_view sample-Represents

allocproc_cases_example :
    (u : Ptable) × (allocproc sample 4096 ≡ (u, some 2))
    × Represents u (record sample_view { free = [] })
    × Taken sample u 2 4096
allocproc_cases_example =
    ((allocproc_cases sample sample_view sample-Represents).1 2 [] refl).0 4096 (λ e. omega arith)

kill_cases_example :
    (u : Ptable) × (kill sample 17 ≡ ok (u, 0))
    × Represents u (enqueue sample_view 0 7)
    × ((u.proc 7).killed ≡ 1)
    × (state_of u 7 ≡ runnable)
kill_cases_example =
    ((kill_cases sample sample_view 17 sample-Represents).1 7 (omega arith) refl
        (λ x l. λ e. ground arith)).0
      refl

kill_zero_marks_next_process_example :
    (u w : Ptable) × (kill spare 0 ≡ ok (u, 0))
    × (allocproc u 4096 ≡ (w, some 0))
    × (state_of w 0 ≡ embryo)
    × ((w.proc 0).killed ≡ 1)
kill_zero_marks_next_process_example =
    kill_zero_marks_next_process spare spare_view [] 4096 spare-Represents refl refl
      (λ e. omega arith)

setpriority_stays_queued_example :
    (u : Ptable) × (schedule (setpriority ticking 13 2).0 ≡ ok (u, 3))
    × (state_of u 3 ≡ running)
    × (u.ready 1 ≡ some 3)
setpriority_stays_queued_example =
    setpriority_stays_queued ticking sample_view 13 3 1 2 (5 ∷ []) ticking-Represents
      thirteen_ticking (omega arith) (omega arith) refl none_better (omega arith) refl

sleep_then_wakeup_example :
    Represents (sleep sample 8 9) sample_view
    × ((u : Ptable) × (w : View) × (wakeup1 (sleep sample 8 9) 9 ≡ ok u)
        × Represents u w
        × (state_of u 8 ≡ runnable))
sleep_then_wakeup_example =
    sleep_then_wakeup sample sample_view 8 9 sample-Represents (omega arith) refl
