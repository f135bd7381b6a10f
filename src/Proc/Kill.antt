-- ===== src/Proc/Kill.antt =====
-- kill marks the first entry with the pid and wakes it if it sleeps. sleep and yield change the state of
-- the process that runs.
use project4final.Proc.Alloc.{allocproc_cases}
use project4final.Proc.Add.{make_runnable_enqueues}
use project4final.Proc.View.{state_of, priority_of, View, Represents, enqueue, Holds, IsFree}
use project4final.Proc.Frame.{SameLists, SameLists-Represents}
use project4final.Proc.Sched.{kill_from, kill, mark_killed, allocproc, set_killed}
use project4final.Proc.Table.{Ptable, nproc, sleeping, embryo, unused, runnable, Proc}
use project4final.Prelude.{
  zero, suc, ◌∷◌, some, ok, refl, ◌∙◌, ap, ◌≡◌, ◌≢◌, ◌<◌, ℕ, arith, ◌+◌, ◌≤◌, minus_one, List,
  ne→==, ◌>>=◌, ℕ_discrete, ==-self, subst, Outcome,
}

kill_from_none :
    (k p pid : ℕ) (t : Ptable)
    → ((x : ℕ) → x < p + k → (t.proc x).pid ≢ pid)
    → kill_from k p pid t ≡ ok (t, minus_one)
unfolding kill_from
kill_from_none zero p pid t h = refl
kill_from_none (suc k) p pid t h =
    rw (ne→== (t.proc p).pid pid (h p (omega arith)))
      (kill_from_none k (suc p) pid t (λ x l. h x (omega arith)))

kill_from_first :
    (k p q pid : ℕ) (t : Ptable)
    → p ≤ q
    → q < p + k
    → (t.proc q).pid ≡ pid
    → ((x : ℕ) → x < q → (t.proc x).pid ≢ pid)
    → kill_from k p pid t ≡ (mark_killed t q >>= λ u. ok (u, 0))
unfolding kill_from
kill_from_first zero p q pid t l b e h = absurd (omega arith)
kill_from_first (suc k) p q pid t l b e h = elim (ℕ_discrete p q) [
  | yes s ↦ rw (s, e, ==-self pid)
  | no n ↦
      rw (ne→== (t.proc p).pid pid (h p (omega arith)))
        (kill_from_first k (suc p) q pid t (omega arith) (omega arith) e h)
]

marked-SameLists : (t : Ptable) (p : ℕ) → SameLists t (set_killed t p)
unfolding set_killed
marked-SameLists t p = record {
  next_same = λ x. ground arith;
  ready_same = λ i. refl;
  free_same = refl;
  runnable_same = λ x. ((λ h. ground arith), (λ h. ground arith));
  unused_same = λ x. ((λ h. ground arith), (λ h. ground arith));
  priority_same = λ x. ground arith;
}

marked-state : (t : Ptable) (p x : ℕ) → state_of (set_killed t p) x ≡ state_of t x
unfolding set_killed
marked-state t p x = ground arith

marked-killed : (t : Ptable) (p : ℕ) → ((set_killed t p).proc p).killed ≡ 1
unfolding set_killed
marked-killed t p = ground arith

marked-other : (t : Ptable) (p x : ℕ) → x ≢ p → (set_killed t p).proc x ≡ t.proc x
unfolding set_killed
marked-other t p x h = ground arith

marked-priority : (t : Ptable) (p x : ℕ) → priority_of (set_killed t p) x ≡ priority_of t x
marked-priority t p = (marked-SameLists t p).priority_same

module _ (t : Ptable) (v : View) (r : Represents t v) (p : ℕ) (small : p < nproc) where
  mark_sleeping :
      state_of t p ≡ sleeping
      → (u : Ptable) × (mark_killed t p ≡ ok u)
        × Represents u (enqueue v (priority_of t p) p)
        × ((u.proc p).killed ≡ 1)
        × (state_of u p ≡ runnable)
  unfolding mark_killed
  mark_sleeping s =
      let m = set_killed t p in
      let (u, e, r', w) =
        make_runnable_enqueues m v p (SameLists-Represents t m v (marked-SameLists t p) r) small
          (λ h. cc (h, marked-state t p p, s)) (λ h. cc (h, marked-state t p p, s)) in
      (
        u,
        rw (s, mark_killed) e,
        subst (λ k. Represents u (enqueue v k p)) (marked-priority t p p) r',
        ap (λ (q : Proc). q.killed) (w.core_same p) ∙ marked-killed t p,
        w.state_self,
      )

  mark_awake :
      state_of t p ≢ sleeping
      → (u : Ptable) × (mark_killed t p ≡ ok u)
        × Represents u v
        × ((u.proc p).killed ≡ 1)
        × (state_of u p ≡ state_of t p)
  unfolding mark_killed
  mark_awake s = (
    set_killed t p,
    ground arith,
    SameLists-Represents t (set_killed t p) v (marked-SameLists t p) r,
    marked-killed t p,
    marked-state t p p,
  )

-- kill on a well-formed table, on each of its branches. If no entry has the pid it returns -1 and changes
-- nothing. Else it returns 0 with the first such entry marked as killed: if that entry sleeps, it joins the
-- queue of its priority as RUNNABLE, and if not, the queues, the free list and its state are as before.
pub kill_cases :
    (t : Ptable) (v : View) (pid : ℕ)
    → Represents t v
    → (((x : ℕ) → x < nproc → (t.proc x).pid ≢ pid) → kill t pid ≡ ok (t, minus_one))
      × ((p : ℕ)
          → p < nproc
          → (t.proc p).pid ≡ pid
          → ((x : ℕ) → x < p → (t.proc x).pid ≢ pid)
          → (state_of t p ≡ sleeping
              → (u : Ptable) × (kill t pid ≡ ok (u, 0))
                × Represents u (enqueue v (priority_of t p) p)
                × ((u.proc p).killed ≡ 1)
                × (state_of u p ≡ runnable))
            × (state_of t p ≢ sleeping
                → (u : Ptable) × (kill t pid ≡ ok (u, 0))
                  × Represents u v
                  × ((u.proc p).killed ≡ 1)
                  × (state_of u p ≡ state_of t p)))
unfolding kill
kill_cases t v pid r = (
  (λ h. kill_from_none nproc 0 pid t (λ x l. h x (omega arith))),
  λ p l e first.
      let found : kill t pid ≡ (mark_killed t p >>= λ u. ok (u, 0)) =
        kill_from_first nproc 0 p pid t (omega arith) (omega arith) e first in
      (
        (λ s.
            let (u, q, r', k, z) = mark_sleeping t v r p l s in
            (u, found ∙ ap (λ (m : Outcome Ptable). m >>= λ w. ok (w, 0)) q, r', k, z)),
        (λ s.
            let (u, q, r', k, z) = mark_awake t v r p l s in
            (u, found ∙ ap (λ (m : Outcome Ptable). m >>= λ w. ok (w, 0)) q, r', k, z)),
      ),
)

-- The entry 0 is unused, with pid 0, on top of the free list. kill(0) returns 0, and the process that the
-- next allocproc makes of that entry is killed before it first runs: allocproc does not clear the mark.
pub kill_zero_marks_next_process :
    (t : Ptable) (v : View) (rest : List ℕ) (k : ℕ)
    → Represents t v
    → v.free ≡ 0 ∷ rest
    → (t.proc 0).pid ≡ 0
    → k ≢ 0
    → (u w : Ptable) × (kill t 0 ≡ ok (u, 0))
      × (allocproc u k ≡ (w, some 0))
      × (state_of w 0 ≡ embryo)
      × ((w.proc 0).killed ≡ 1)
kill_zero_marks_next_process t v rest k r top e n =
    let s : state_of t 0 ≡ unused = (subst (Holds t (IsFree t) t.free) top r.free).sound.0.1 in
    let (u, q, r', m, _) =
      ((kill_cases t v 0 r).1 0 (omega arith) e (λ x l. absurd (omega arith))).1 (λ z. cc (s, z)) in
    let (w, a, _, z) = ((allocproc_cases u v r').1 0 rest top).0 k n in
    (u, w, q, a, z.state_self, z.killed_same ∙ m)
