-- ===== src/Proc/Setpriority.antt =====
-- setpriority writes the field and leaves the lists alone.
use project4final.Proc.Enqueue.{Holds-frame}
use project4final.Proc.Fields.{
  next_of-set_priority, state_of-set_priority, priority_of-set_priority_self,
  priority_of-set_priority_ne, state_of-set_state_self,
}
use project4final.Proc.Dispatch.{get_ready_lem, dispatch_missing, dispatch_out_of_range}
use project4final.Proc.Chain.{Chain}
use project4final.Proc.Sched.{dispatch, schedule, age}
use project4final.Proc.View.{View, Represents, state_of, IsQueued, IsFree, Holds}
use project4final.Proc.Table.{
  Ptable, nproc, set_priority, levels, runnable, running, next_of, set_state,
}
use project4final.Proc.ReadyLists.{setpriority_from, setpriority, get_ready}
use project4final.Prelude.{
  zero, suc, [], ◌∷◌, some, ok, refl, sym, ◌∙◌, ap, ◌≡◌, ◌≢◌, ◌<◌, ℕ, ◌+◌, ◌≤◌, ne→==, arith, List,
  ℕ_discrete, ==-self, All, All-mono, Option, subst, stop, out_of_bounds, ◌-◌,
}

setpriority_from_none :
    (k p pid n : ℕ) (t : Ptable)
    → ((x : ℕ) → x < p + k → (t.proc x).pid ≢ pid)
    → setpriority_from k p pid n t ≡ t
unfolding setpriority_from
setpriority_from_none zero p pid n t h = refl
setpriority_from_none (suc k) p pid n t h =
    rw (ne→== (t.proc p).pid pid (h p (omega arith)))
      (setpriority_from_none k (suc p) pid n t (λ x l. h x (omega arith)))

setpriority_from_first :
    (k p q pid n : ℕ) (t : Ptable)
    → p ≤ q
    → q < p + k
    → (t.proc q).pid ≡ pid
    → ((x : ℕ) → x < q → (t.proc x).pid ≢ pid)
    → setpriority_from k p pid n t ≡ set_priority t q n
unfolding setpriority_from
setpriority_from_first zero p q pid n t l b e h = absurd (omega arith)
setpriority_from_first (suc k) p q pid n t l b e h = elim (ℕ_discrete p q) [
  | yes s ↦ rw (s, e, ==-self pid)
  | no m ↦
      rw (ne→== (t.proc p).pid pid (h p (omega arith)))
        (setpriority_from_first k (suc p) q pid n t (omega arith) (omega arith) e h)
]

-- The entry `q` is the first with the pid.
abbrev pub IsFirst : Ptable → ℕ → ℕ → Type 0
IsFirst t pid q = (q < nproc) × ((t.proc q).pid ≡ pid) × ((x : ℕ) → x < q → (t.proc x).pid ≢ pid)

setpriority_first :
    (t : Ptable) (pid q n : ℕ) → IsFirst t pid q → setpriority t pid n ≡ (set_priority t q n, 0)
unfolding setpriority
setpriority_first t pid q n f =
    ap (λ (u : Ptable). (u, 0))
      (setpriority_from_first nproc 0 q pid n t (omega arith) (omega (arith, f.0)) f.1 f.2)

module _ (t : Ptable) (v : View) (r : Represents t v) (q n : ℕ) (off : state_of t q ≢ runnable)
    (lt : n < levels) where
  ne_queued : (u : Ptable) (x i : ℕ) → state_of u x ≡ state_of t x → IsQueued u i x → x ≢ q
  ne_queued u x i s k e = off (ap (state_of t) (sym e) ∙ sym s ∙ k.1)

  retargeted-Represents : Represents (set_priority t q n) v
  retargeted-Represents = record {
    ready = λ i l.
        unfold set_priority in
        (Holds-frame t u (IsQueued t i) (IsQueued u i) (t.ready i) (v.ready i)
          (links (IsQueued t i) (v.ready i) (r.ready i l).sound)
          (λ x _ k. (
            k.0,
            state_of-set_priority t q n x ∙ k.1,
            priority_of-set_priority_ne t q n x (ne_queued t x i refl k) ∙ k.2,
          ))
          (λ x k. (
            k.0,
            sym (state_of-set_priority t q n x) ∙ k.1,
            sym (
                  priority_of-set_priority_ne t q n x
                    (ne_queued u x i (state_of-set_priority t q n x) k))
                ∙ k.2,
          ))
          (r.ready i l));
    free =
        unfold set_priority in
        (Holds-frame t u (IsFree t) (IsFree u) t.free v.free (links (IsFree t) v.free r.free.sound)
          (λ x _ k. (k.0, state_of-set_priority t q n x ∙ k.1))
          (λ x k. (k.0, sym (state_of-set_priority t q n x) ∙ k.1)) r.free);
    in_range = λ x l. elim (ℕ_discrete x q) [
      | yes e ↦ rw (e, priority_of-set_priority_self t q n) lt
      | no e ↦ rw (priority_of-set_priority_ne t q n x e) (r.in_range x l)
    ];
  }
    where
      u : Ptable
      u = set_priority t q n

      links : (P : ℕ → Type 0) (xs : List ℕ) → All P xs → All (λ x. next_of u x ≡ next_of t x) xs
      links P xs a =
          All-mono (λ x _. ap (λ (f : ℕ → Option ℕ). f x) (next_of-set_priority t q n)) xs a

-- setpriority always returns 0. It changes nothing if no entry has the pid, and only the priority of the
-- first entry that has it otherwise. For an entry that is not RUNNABLE, with a priority of 0, 1 or 2, the
-- table stays well formed with the same queues.
pub setpriority_cases :
    (t : Ptable) (v : View) (pid n : ℕ)
    → Represents t v
    → (((x : ℕ) → x < nproc → (t.proc x).pid ≢ pid) → setpriority t pid n ≡ (t, 0))
      × ((q : ℕ)
          → IsFirst t pid q
          → (setpriority t pid n ≡ (set_priority t q n, 0))
            × (state_of t q ≢ runnable → n < levels → Represents (set_priority t q n) v))
unfolding setpriority
setpriority_cases t v pid n r = (
  (λ h.
      ap (λ (u : Ptable). (u, 0))
        (setpriority_from_none nproc 0 pid n t (λ x l. h x (omega arith)))),
  λ q f. (
    unfold setpriority in setpriority_first t pid q n f,
    λ off lt. retargeted-Represents t v r q n off lt,
  ),
)

queue-Chain :
    (t : Ptable) (v : View) (j : ℕ) (xs : List ℕ)
    → Represents t v
    → j < levels
    → v.ready j ≡ xs
    → Chain (next_of t) (t.ready j) xs
queue-Chain t v j xs r l e = (subst (Holds t (IsQueued t j) (t.ready j)) e (r.ready j l)).chain

-- The table in which setpriority has changed `p`, once a turn of the scheduler has counted the clock down.
abbrev counted_down : Ptable → ℕ → ℕ → Ptable
counted_down t p n = record (set_priority t p n) { time_to_reset = t.time_to_reset - 1 }

schedule-counted_down :
    (t : Ptable) (p n : ℕ)
    → t.time_to_reset ≢ 0
    → schedule (set_priority t p n) ≡ dispatch (counted_down t p n)
unfolding schedule age set_priority
schedule-counted_down t p n h = rw (ne→== t.time_to_reset 0 h) refl

-- The scheduler finds `p` where it was, whatever its priority has become.
still_chosen :
    (t : Ptable) (v : View) (p i n : ℕ) (rest : List ℕ)
    → Represents t v
    → i < levels
    → v.ready i ≡ p ∷ rest
    → ((j : ℕ) → j < i → v.ready j ≡ [])
    → get_ready (counted_down t p n) ≡ some p
still_chosen t v p i n rest r lt front before =
    get_ready_lem (counted_down t p n) i p lt
      (λ j l. unfold set_priority in queue-Chain t v j [] r (omega arith) (before j l))
      (unfold set_priority in (queue-Chain t v i (p ∷ rest) r lt front).0)

-- A process at the front of the best queue that is not empty, queue `i`, is given another level `n`, whose queue is
-- empty, and the next turn of the scheduler does not reset the priorities, its clock not being at 0. setpriority does
-- not move the process, so that turn still chooses it, and RemoveReadyList looks for it in list `n`: the process is
-- RUNNING and still at the head of list `i`.
pub setpriority_stays_queued :
    (t : Ptable) (v : View) (pid p i n : ℕ) (rest : List ℕ)
    → Represents t v
    → IsFirst t pid p
    → t.time_to_reset ≢ 0
    → i < levels
    → v.ready i ≡ p ∷ rest
    → ((j : ℕ) → j < i → v.ready j ≡ [])
    → n < levels
    → v.ready n ≡ []
    → (u : Ptable) × (schedule (setpriority t pid n).0 ≡ ok (u, p))
      × (state_of u p ≡ running)
      × (u.ready i ≡ some p)
setpriority_stays_queued t v pid p i n rest r f clock lt front before small empty =
    let s = counted_down t p n in
    (
      set_state s p running,
      ap (λ (q : Ptable × ℕ). schedule q.0) (setpriority_first t pid p n f)
          ∙ schedule-counted_down t p n clock
          ∙ dispatch_missing s p n (still_chosen t v p i n rest r lt front before)
              (priority_of-set_priority_self t p n) small
              (unfold set_priority in queue-Chain t v n [] r small empty),
      state_of-set_state_self s p running,
      unfold set_state set_priority in (queue-Chain t v i (p ∷ rest) r lt front).0,
    )

-- A process at the front of the best queue that is not empty is given a priority that is no level, and the clock of
-- the scheduler is not at 0: its next turn indexes pReadyList outside its bounds.
pub setpriority_out_of_range :
    (t : Ptable) (v : View) (pid p i n : ℕ) (rest : List ℕ)
    → Represents t v
    → IsFirst t pid p
    → t.time_to_reset ≢ 0
    → i < levels
    → v.ready i ≡ p ∷ rest
    → ((j : ℕ) → j < i → v.ready j ≡ [])
    → levels ≤ n
    → schedule (setpriority t pid n).0 ≡ stop out_of_bounds
setpriority_out_of_range t v pid p i n rest r f clock lt front before big =
    ap (λ (q : Ptable × ℕ). schedule q.0) (setpriority_first t pid p n f)
    ∙ schedule-counted_down t p n clock
    ∙ dispatch_out_of_range (counted_down t p n) p (still_chosen t v p i n rest r lt front before)
        (rw (priority_of-set_priority_self t p n) big)
