-- ===== src/Proc/Turn.antt =====
-- A turn of the scheduler: the aging of the priorities, and then the choice.
use project4final.Proc.Dispatch.{dispatch_runs_front}
use project4final.Proc.Enqueue.{bare}
use project4final.Proc.Aging.{reset_priority_merges, bare-reset_priority}
use project4final.Proc.Frame.{SameLists-Represents}
use project4final.Prelude.{
  ℕ, ◌≡◌, ok, List, if◌then◌else◌, ◌==◌, ◌<◌, ℕ_discrete, ap, refl, ◌-◌, eq→==, ◌>>=◌, ◌∷◌, [],
  ne→==, ◌≢◌, ◌∙◌,
}
use project4final.Proc.View.{View, Represents, state_of, merge, priority_of, dequeue}
use project4final.Proc.Sched.{age, schedule, dispatch}
use project4final.Proc.Table.{Ptable, max_time_to_reset, nproc, levels, running, Proc}

-- The queues once a turn has aged them.
abbrev pub aged : Ptable → View → View
aged t v = if t.time_to_reset == 0 then merge v else v

-- What the aging leaves of the clock, and of a priority.
abbrev pub clock_after : Ptable → ℕ
clock_after t = if t.time_to_reset == 0 then max_time_to_reset else t.time_to_reset - 1

abbrev pub priority_after : Ptable → ℕ → ℕ
priority_after t x = if t.time_to_reset == 0 then 1 else priority_of t x

-- The clock is not one of the fields that a view looks at.
pub clock-Represents :
    (t : Ptable) (v : View) (k : ℕ) → Represents t v → Represents (record t { time_to_reset = k }) v
clock-Represents t v k r =
    SameLists-Represents t (record t { time_to_reset = k }) v
      (record {
        next_same = λ x. refl;
        ready_same = λ i. refl;
        free_same = refl;
        runnable_same = λ x. ((λ h. h), λ h. h);
        unused_same = λ x. ((λ h. h), λ h. h);
        priority_same = λ x. refl;
      })
      r

-- The table that the aging leaves.
pub record Aged (t t' : Ptable) : Type 0 where
  pub clock : t'.time_to_reset ≡ clock_after t
  pub state_same : (x : ℕ) → state_of t' x ≡ state_of t x
  pub priority_is : (x : ℕ) → x < nproc → priority_of t' x ≡ priority_after t x
  pub bare_same : (x : ℕ) → bare (t'.proc x) ≡ bare (t.proc x)

pub age_lem :
    (t : Ptable) (v : View)
    → Represents t v
    → (t' : Ptable) × (age t ≡ ok t') × Represents t' (aged t v) × Aged t t'
unfolding age
age_lem t v r = elim (ℕ_discrete t.time_to_reset 0) [
  | yes z ↦
      let (u, e, r', one, same) = reset_priority_merges t v r in
      rw (eq→== t.time_to_reset 0 z, e)
        (
          record u { time_to_reset = max_time_to_reset },
          refl,
          clock-Represents u (merge v) max_time_to_reset r',
          record {
            clock = rw (eq→== t.time_to_reset 0 z) refl;
            state_same = same;
            priority_is = λ x l. rw (eq→== t.time_to_reset 0 z) (one x l);
            bare_same = bare-reset_priority t v r u e;
          },
        )
  | no n ↦ rw (ne→== t.time_to_reset 0 n) (
    record t { time_to_reset = t.time_to_reset - 1 },
    refl,
    clock-Represents t v (t.time_to_reset - 1) r,
    record {
      clock = rw (ne→== t.time_to_reset 0 n) refl;
      state_same = λ x. refl;
      priority_is = λ x l. rw (ne→== t.time_to_reset 0 n) refl;
      bare_same = λ x. refl;
    },
  )
]

pub schedule-dispatch : (t t' : Ptable) → age t ≡ ok t' → schedule t ≡ dispatch t'
unfolding schedule
schedule-dispatch t t' e = ap (λ o. o >>= dispatch) e

-- One turn of the scheduler on a well-formed table. It first ages the queues: with the clock at 0 they become one, by
-- ResetPriority, every priority is 1 and the clock starts again; else the clock goes down by one and the queues stay.
-- Then, with p at the front of the best of these queues that is not empty, it ends with no fault, chooses p, makes it
-- RUNNING and takes it off its queue; the other queues, the free list, the other states and the other fields are as
-- they were.
pub schedule_runs_front :
    (t : Ptable) (v : View) (i p : ℕ) (rest : List ℕ)
    → Represents t v
    → i < levels
    → (aged t v).ready i ≡ p ∷ rest
    → ((j : ℕ) → j < i → (aged t v).ready j ≡ [])
    → (w : Ptable) × (schedule t ≡ ok (w, p))
      × Represents w (dequeue (aged t v) i rest)
      × (state_of w p ≡ running)
      × ((x : ℕ) → x ≢ p → state_of w x ≡ state_of t x)
      × ((x : ℕ) → x < nproc → priority_of w x ≡ priority_after t x)
      × ((x : ℕ) → bare (w.proc x) ≡ bare (t.proc x))
      × (w.time_to_reset ≡ clock_after t)
schedule_runs_front t v i p rest r lt front before =
    let (t', a, r', g) = age_lem t v r in
    let (w, d, r'', s, o, c, k) = dispatch_runs_front t' (aged t v) i p rest r' lt front before in
    (
      w,
      schedule-dispatch t t' a ∙ d,
      r'',
      s,
      (λ x n. o x n ∙ g.state_same x),
      (λ x l. ap (λ (z : Proc). z.priority) (c x) ∙ g.priority_is x l),
      (λ x. ap (λ (z : Proc). record z { priority = 0 }) (c x) ∙ g.bare_same x),
      k ∙ g.clock,
    )
