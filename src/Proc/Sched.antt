-- ===== src/Proc/Sched.antt =====
-- The operations of proc.c on the table, each as one step with nothing in between. ptable.lock is held across each but
-- allocproc, which gives it up before it allocates the stack and puts the entry back without it.
use project4final.Prelude.{
  ℕ, zero, suc, ◌+◌, ◌-◌, ◌%◌, ◌^◌, Option, none, some, ◌==◌, ◌&&◌, if◌then◌else◌, Outcome, ok,
  stop, null_pointer, ◌>>=◌, minus_one, Bool,
}
use project4final.Proc.Table.{
  Ptable, unused, embryo, sleeping, runnable, running, same_state, nproc, max_time_to_reset,
  set_proc, set_state,
}
use project4final.Proc.ReadyLists.{
  add_free_list, remove_free_list, add_ready_list, remove_ready_list, get_ready, reset_priority,
}

-- `p->state = RUNNABLE; AddReadyList(p);`, whose result the code drops.
unfoldable pub make_runnable : Ptable → ℕ → Outcome Ptable
make_runnable t p = add_ready_list (set_state t p runnable) p >>= λ r. ok (r.0)

-- The test of wakeup1.
abbrev pub asleep : Ptable → ℕ → ℕ → Bool
asleep t chan p = same_state (t.proc p).state sleeping && (t.proc p).chan == chan

-- wakeup1: the entries from `p` on, `k` of them.
unfoldable pub wakeup1_from : ℕ → ℕ → ℕ → Ptable → Outcome Ptable
wakeup1_from zero p chan t = ok t
wakeup1_from (suc k) p chan t =
    (if asleep t chan p then make_runnable t p else ok t) >>= λ u. wakeup1_from k (suc p) chan u

unfoldable pub wakeup1 : Ptable → ℕ → Outcome Ptable
unfolding wakeup1_from
wakeup1 t chan = wakeup1_from nproc 0 chan t

-- `p->killed = 1`.
unfoldable pub set_killed : Ptable → ℕ → Ptable
unfolding set_proc
set_killed t p = set_proc t p (record (t.proc p) { killed = 1 })

-- The body of kill's loop at an entry that has the pid.
unfoldable pub mark_killed : Ptable → ℕ → Outcome Ptable
mark_killed t p =
    if same_state (t.proc p).state sleeping
    then make_runnable (set_killed t p) p
    else ok (set_killed t p)

unfoldable pub kill_from : ℕ → ℕ → ℕ → Ptable → Outcome (Ptable × ℕ)
kill_from zero p pid t = ok (t, minus_one)
kill_from (suc k) p pid t =
    let rest : Outcome (Ptable × ℕ) = kill_from k (suc p) pid t in
    if (t.proc p).pid == pid then mark_killed t p >>= (λ u. ok (u, 0)) else rest

unfoldable pub kill : Ptable → ℕ → Outcome (Ptable × ℕ)
unfolding kill_from
kill t pid = kill_from nproc 0 pid t

-- yield, up to its call of sched.
unfoldable pub yield : Ptable → ℕ → Outcome Ptable
yield t proc = make_runnable t proc

-- sleep, from `proc->chan = chan` up to its call of sched, and what it does once it is woken.
unfoldable pub sleep : Ptable → ℕ → ℕ → Ptable
unfolding set_proc
sleep t proc chan = set_proc t proc (record (t.proc proc) { chan = chan; state = sleeping })

unfoldable pub tidy_up : Ptable → ℕ → Ptable
unfolding set_proc
tidy_up t proc = set_proc t proc (record (t.proc proc) { chan = 0 })

-- `p->state = EMBRYO; p->pid = nextpid++;` and `p->kstack = k`.
unfoldable pub take_entry : Ptable → ℕ → Ptable
unfolding set_proc
take_entry t p = record (set_proc t p (record (t.proc p) { state = embryo; pid = t.nextpid })) {
  nextpid = (t.nextpid + 1) % 2 ^ 32;
}

unfoldable pub set_kstack : Ptable → ℕ → ℕ → Ptable
unfolding set_proc
set_kstack t p k = set_proc t p (record (t.proc p) { kstack = k })

-- allocproc behind its call of RemoveFreeList. `kstack` is what kalloc returns, 0 if there is no page.
-- The trap frame and the context that it lays out on the stack are not part of the table.
unfoldable pub alloc_found : Ptable × Option ℕ → ℕ → Ptable × Option ℕ
alloc_found (t, none) kstack = (t, none)
alloc_found (t, some p) kstack =
    let t₂ = set_kstack (take_entry t p) p kstack in
    if kstack == 0 then ((add_free_list (set_state t₂ p unused) (some p)).0, none) else (t₂, some p)

unfoldable pub allocproc : Ptable → ℕ → Ptable × Option ℕ
unfolding alloc_found
allocproc t kstack = alloc_found (remove_free_list t) kstack

-- The body of the scheduler's inner loop before the switch: the aging of priorities, then the choice.
unfoldable pub age : Ptable → Outcome Ptable
age t =
    if t.time_to_reset == 0
    then reset_priority t >>= (λ u. ok (record u { time_to_reset = max_time_to_reset }))
    else ok (record t { time_to_reset = t.time_to_reset - 1 })

-- `p = GetReady()`; `p->state` through a null pointer would fault.
unfoldable pub dispatch : Ptable → Outcome (Ptable × ℕ)
dispatch t = elim (get_ready t) [
  | none ↦ stop null_pointer
  | some p ↦ remove_ready_list (set_state t p running) p >>= λ r. ok (r.0, p)
]

unfoldable pub schedule : Ptable → Outcome (Ptable × ℕ)
unfolding age dispatch
schedule t = age t >>= dispatch
