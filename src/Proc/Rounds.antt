-- ===== src/Proc/Rounds.antt =====
-- What the process that runs does to the table: yield and sleep.
use project4final.Proc.Turn.{aged, age_lem, schedule-dispatch}
use project4final.Proc.Wakeup.{wakeup1_wakes, enqueue_all, sleepers}
use project4final.Proc.Add.{make_runnable_enqueues}
use project4final.Proc.Frame.{SameLists-Represents, SameLists}
use project4final.Proc.Dispatch.{dispatch_runs_front}
use project4final.Proc.View.{
  View, Represents, state_of, Holds, IsQueued, dequeue, enqueue, priority_of,
}
use project4final.Proc.Table.{Ptable, levels, running, nproc, Proc, runnable}
use project4final.Proc.Sched.{yield, sleep, asleep, wakeup1, schedule}
use project4final.Prelude.{
  [], ◌∷◌, ok, refl, ◌∙◌, ap, ◌≡◌, ◌<◌, ℕ, List, update, ◌++◌, true, subst, arith, fun_ext,
}

requeued :
    (v : View) (i p : ℕ) (rest : List ℕ) (k : ℕ)
    → k ≡ i
    → enqueue (dequeue v i rest) k p ≡ record v { ready = update v.ready i (rest ++ (p ∷ [])) }
unfolding enqueue dequeue
requeued v i p rest k e =
    rw e (ap (λ (f : ℕ → List ℕ). record v { ready = f }) (fun_ext λ j. ground arith))

-- A turn of the scheduler, with the aging that it begins with, and a yield of the chosen process are one round: from
-- the queues as the aging leaves them, the head of the best one that is not empty runs and goes to the end of the
-- same queue, and the other queues and the free list are as they were.
pub round_robin :
    (t : Ptable) (v : View) (i p : ℕ) (rest : List ℕ)
    → Represents t v
    → i < levels
    → (aged t v).ready i ≡ p ∷ rest
    → ((j : ℕ) → j < i → (aged t v).ready j ≡ [])
    → (u w : Ptable) × (schedule t ≡ ok (u, p))
      × (yield u p ≡ ok w)
      × Represents w (record (aged t v) { ready = update (aged t v).ready i (rest ++ (p ∷ [])) })
unfolding yield
round_robin t v i p rest r lt front before =
    let (t', a, r', _) = age_lem t v r in
    let (u, d, r'', s, o, c, _) = dispatch_runs_front t' (aged t v) i p rest r' lt front before in
    let q = (subst (Holds t' (IsQueued t' i) (t'.ready i)) front (r'.ready i lt)).sound.0 in
    let (w, y, k, _) =
      make_runnable_enqueues u (dequeue (aged t v) i rest) p r'' q.0 (λ e. cc (e, s))
        (λ e. cc (e, s)) in
    (
      u,
      w,
      schedule-dispatch t t' a ∙ d,
      y,
      subst (Represents w)
          (requeued (aged t v) i p rest (priority_of u p)
            (ap (λ (z : Proc). z.priority) (c p) ∙ q.2))
          k,
    )

pub sleep-SameLists :
    (t : Ptable) (p chan : ℕ) → state_of t p ≡ running → SameLists t (sleep t p chan)
unfolding sleep
sleep-SameLists t p chan s = record {
  next_same = λ x. ground arith;
  ready_same = λ i. refl;
  free_same = refl;
  runnable_same = λ x. ((λ h. ground arith), (λ h. ground arith));
  unused_same = λ x. ((λ h. ground arith), (λ h. ground arith));
  priority_same = λ x. ground arith;
}

sleep-asleep : (t : Ptable) (p chan : ℕ) → asleep (sleep t p chan) chan p ≡ true
unfolding sleep
sleep-asleep t p chan = ground arith

-- A process that runs goes to sleep on a channel: the queues and the free list are as they were. A wakeup1 of
-- the same channel then makes it RUNNABLE, and every table on the way is well formed.
pub sleep_then_wakeup :
    (t : Ptable) (v : View) (p chan : ℕ)
    → Represents t v
    → p < nproc
    → state_of t p ≡ running
    → Represents (sleep t p chan) v
      × ((u : Ptable) × (w : View) × (wakeup1 (sleep t p chan) chan ≡ ok u)
          × Represents u w
          × (state_of u p ≡ runnable))
sleep_then_wakeup t v p chan r small s =
    let t' = sleep t p chan in
    let r' = SameLists-Represents t t' v (sleep-SameLists t p chan s) r in
    let (u, e, r'', states, c) = wakeup1_wakes chan t' v r' in
    (
      r',
      (
        u,
        enqueue_all (priority_of t') (sleepers nproc 0 chan t') v,
        e,
        r'',
        states p small ∙ rw (sleep-asleep t p chan) refl,
      ),
    )
