-- ===== src/Proc/Dispatch.antt =====
-- The scheduler's choice: GetReady, p->state = RUNNING and RemoveReadyList take the head of the best
-- queue off it.
use project4final.Proc.Chain.{Chain-frame}
use project4final.Proc.Fields.{priority_of-set_state, next_of-set_state}
use project4final.Proc.Enqueue.{core, Holds-frame}
use project4final.Proc.View.{
  priority_of, state_of, View, Represents, Holds, IsQueued, dequeue, IsFree,
}
use project4final.Proc.Sched.{dispatch}
use project4final.Proc.Table.{
  Ptable, levels, set_ready, next_of, set_state, Proc, running, ProcState, runnable, unused,
}
use project4final.Proc.ReadyLists.{get_ready, remove_ready_list, get_ready_from}
use project4final.Prelude.{
  zero, suc, [], ◌∷◌, none, some, inl, inr, ok, refl, sym, ◌∙◌, ap, ◌≡◌, ◌≢◌, ◌<◌, ℕ, arith,
  fun_ext, Option, List, subst, Fresh, Bool-cases, All, All-mono, ◌==◌, In, minus_one, Outcome, ◌≤◌,
  stop, ◌>>=◌, out_of_bounds,
}

pub get_ready_lem :
    (t : Ptable) (i p : ℕ)
    → i < levels
    → ((j : ℕ) → j < i → t.ready j ≡ none)
    → t.ready i ≡ some p
    → get_ready t ≡ some p
unfolding get_ready
get_ready_lem t zero p lt before e = rw (e, get_ready_from)
get_ready_lem t (suc zero) p lt before e = ground (arith, before 0)
get_ready_lem t (suc (suc zero)) p lt before e = ground (arith, before 0, before 1)
get_ready_lem t (suc (suc (suc i))) p lt before e = absurd (omega arith)

pub remove_head :
    (t : Ptable) (i p : ℕ)
    → priority_of t p ≡ i
    → i < levels
    → t.ready i ≡ some p
    → remove_ready_list t p ≡ ok (set_ready t i (next_of t p), 0)
unfolding remove_ready_list
remove_head t i p k lt e = ground arith

remove_none :
    (t : Ptable) (p n : ℕ)
    → priority_of t p ≡ n
    → n < levels
    → t.ready n ≡ none
    → remove_ready_list t p ≡ ok (t, minus_one)
unfolding remove_ready_list
remove_none t p n k lt e = ground arith

remove_out_of_range :
    (t : Ptable) (p : ℕ) → levels ≤ priority_of t p → remove_ready_list t p ≡ stop out_of_bounds
unfolding remove_ready_list
remove_out_of_range t p h = ground arith

-- The table once `p`, the head of the queue `i`, has been chosen.
chosen : Ptable → ℕ → ℕ → Ptable
chosen t i p = set_ready (set_state t p running) i (next_of t p)

dispatch_lem :
    (t : Ptable) (i p : ℕ)
    → i < levels
    → ((j : ℕ) → j < i → t.ready j ≡ none)
    → t.ready i ≡ some p
    → priority_of t p ≡ i
    → dispatch t ≡ ok (chosen t i p, p)
unfolding dispatch chosen
dispatch_lem t i p lt before e k =
    rw (get_ready_lem t i p lt before e, dispatch)
      (rw
        (remove_head (set_state t p running) i p (priority_of-set_state t p running p ∙ k) lt
          (unfold set_state in e))
        (ap (λ q. ok (set_ready (set_state t p running) i q, p))
          (ap (λ (f : ℕ → Option ℕ). f p) (next_of-set_state t p running))))

module _ (t : Ptable) (i p : ℕ) where
  chosen-next : next_of (chosen t i p) ≡ next_of t
  unfolding chosen set_ready set_state
  chosen-next = fun_ext λ x. ground arith

  chosen-ready_other : (j : ℕ) → j ≢ i → (chosen t i p).ready j ≡ t.ready j
  unfolding chosen set_ready set_state
  chosen-ready_other j h = ground arith

  chosen-ready_self : (chosen t i p).ready i ≡ next_of t p
  unfolding chosen set_ready set_state
  chosen-ready_self = ground arith

  chosen-free : (chosen t i p).free ≡ t.free
  unfolding chosen set_ready set_state
  chosen-free = refl

  chosen-state_self : state_of (chosen t i p) p ≡ running
  unfolding chosen set_ready set_state
  chosen-state_self = ground arith

  chosen-state_other : (x : ℕ) → x ≢ p → state_of (chosen t i p) x ≡ state_of t x
  unfolding chosen set_ready set_state
  chosen-state_other x h = ground arith

  chosen-core : (x : ℕ) → core ((chosen t i p).proc x) ≡ core (t.proc x)
  unfolding chosen set_ready set_state
  chosen-core x = ground arith

  chosen-clock : (chosen t i p).time_to_reset ≡ t.time_to_reset
  unfolding chosen set_ready set_state
  chosen-clock = refl

  chosen-priority : (x : ℕ) → priority_of (chosen t i p) x ≡ priority_of t x
  chosen-priority x = ap (λ (q : Proc). q.priority) (chosen-core x)

-- The queues of the table that results.
module _ (t : Ptable) (v : View) (i p : ℕ) (rest : List ℕ) (r : Represents t v) (lt : i < levels)
    (front : v.ready i ≡ p ∷ rest) where
  u : Ptable
  u = chosen t i p

  whole : Holds t (IsQueued t i) (t.ready i) (p ∷ rest)
  whole = subst (Holds t (IsQueued t i) (t.ready i)) front (r.ready i lt)

  front_IsQueued : IsQueued t i p
  front_IsQueued = whole.sound.0

  not_front : (P : ProcState) → P ≢ running → (x : ℕ) → state_of u x ≡ P → x ≢ p
  unfolding u
  not_front P n x e q = n (sym e ∙ ap (state_of u) q ∙ chosen-state_self t i p)

  chosen_rest : Holds u (IsQueued u i) (u.ready i) rest
  unfolding u
  chosen_rest = record {
    chain = rw (chosen-ready_self t i p) (
        Chain-frame (next_of t) (next_of u) (next_of t p) rest
          (All-mono (λ x _. ap (λ (f : ℕ → Option ℕ). f x) (chosen-next t i p)) rest
            whole.distinct.0)
          whole.chain.1);
    distinct = whole.distinct.1;
    sound = keep rest whole.distinct.0 whole.sound.1;
    complete = λ x q. later x (not_front runnable (λ e. cc) x q.1) (
        whole.complete x (
          q.0,
          sym (chosen-state_other t i p x (not_front runnable (λ e. cc) x q.1)) ∙ q.1,
          sym (chosen-priority t i p x) ∙ q.2,
        ));
  }
    where
      keep : (xs : List ℕ) → Fresh p xs → All (IsQueued t i) xs → All (IsQueued u i) xs
      keep [] f a = tt
      keep (x ∷ xs) f a = (
        (a.0.0, chosen-state_other t i p x f.0 ∙ a.0.1, chosen-priority t i p x ∙ a.0.2),
        keep xs f.1 a.1,
      )

      later : (x : ℕ) → x ≢ p → In x (p ∷ rest) → In x rest
      later x n (inl e) = absurd (n e)
      later x n (inr h) = h

  chosen_keeps :
      (P Q : ℕ → Type 0) (q : Option ℕ) (xs : List ℕ)
      → ((x : ℕ) → P x → Q x)
      → ((x : ℕ) → Q x → P x)
      → Holds t P q xs
      → Holds u Q q xs
  unfolding u
  chosen_keeps P Q q xs f g h =
      Holds-frame t u P Q q xs
        (All-mono (λ x _. ap (λ (n : ℕ → Option ℕ). n x) (chosen-next t i p)) xs h.sound)
        (λ x _. f x) g h

  chosen_other : (j : ℕ) → j < levels → j ≢ i → Holds u (IsQueued u j) (u.ready j) (v.ready j)
  unfolding u
  chosen_other j l ne = rw (chosen-ready_other t i p j ne) (
      chosen_keeps (IsQueued t j) (IsQueued u j) (t.ready j) (v.ready j)
        (λ x q. (
          q.0,
          chosen-state_other t i p x (λ e. ne (sym q.2 ∙ ap (priority_of t) e ∙ front_IsQueued.2))
              ∙ q.1,
          chosen-priority t i p x ∙ q.2,
        ))
        (λ x q. (
          q.0,
          sym (chosen-state_other t i p x (not_front runnable (λ e. cc) x q.1)) ∙ q.1,
          sym (chosen-priority t i p x) ∙ q.2,
        ))
        (r.ready j l))

  chosen_free : Holds u (IsFree u) u.free v.free
  unfolding u
  chosen_free = simp (chosen-free t i p) (
      chosen_keeps (IsFree t) (IsFree u) t.free v.free
        (λ x q. (
          q.0,
          chosen-state_other t i p x (λ e. cc (q.1, front_IsQueued.1, ap (state_of t) e)) ∙ q.1,
        ))
        (λ x q. (q.0, sym (chosen-state_other t i p x (not_front unused (λ e. cc) x q.1)) ∙ q.1))
        r.free)

  chosen-Represents : Represents u (dequeue v i rest)
  unfolding dequeue u
  chosen-Represents = record {
    ready = λ j l. elim (Bool-cases (j == i)) [
      | inl y ↦
          rw y (subst (λ k. Holds u (IsQueued u k) (u.ready k) rest) (ground arith) chosen_rest)
      | inr n ↦ rw n (chosen_other j l (ground arith))
    ];
    free = chosen_free;
    in_range = λ x l. rw (chosen-priority t i p x) (r.in_range x l);
  }

  -- On a well-formed table, with `p` at the front of the best queue that is not empty, the scheduler's choice
  -- ends with no fault, chooses `p`, takes it off its queue and makes it RUNNING. Nothing else changes: not the
  -- other queues, not the state of another entry, not another field, not the clock.
  pub dispatch_runs_front :
      ((j : ℕ) → j < i → v.ready j ≡ [])
      → (w : Ptable) × (dispatch t ≡ ok (w, p))
        × Represents w (dequeue v i rest)
        × (state_of w p ≡ running)
        × ((x : ℕ) → x ≢ p → state_of w x ≡ state_of t x)
        × ((x : ℕ) → core (w.proc x) ≡ core (t.proc x))
        × (w.time_to_reset ≡ t.time_to_reset)
  unfolding u
  dispatch_runs_front empty = (
    chosen t i p,
    dispatch_lem t i p lt before whole.chain.0 front_IsQueued.2,
    chosen-Represents,
    chosen-state_self t i p,
    chosen-state_other t i p,
    chosen-core t i p,
    chosen-clock t i p,
  )
    where
      before : (j : ℕ) → j < i → t.ready j ≡ none
      before j l =
          (subst (Holds t (IsQueued t j) (t.ready j)) (empty j l) (r.ready j (omega arith))).chain

-- Where the list of the chosen entry's own priority is empty, RemoveReadyList gives up, and the entry is not
-- taken off the list that it was found on.
pub dispatch_missing :
    (t : Ptable) (p n : ℕ)
    → get_ready t ≡ some p
    → priority_of t p ≡ n
    → n < levels
    → t.ready n ≡ none
    → dispatch t ≡ ok (set_state t p running, p)
unfolding dispatch
dispatch_missing t p n g k lt e =
    rw (g, dispatch)
      (ap (λ (m : Outcome (Ptable × ℕ)). m >>= λ r. ok (r.0, p))
        (remove_none (set_state t p running) p n (priority_of-set_state t p running p ∙ k) lt
          (unfold set_state in e)))

-- A priority that is not a level makes AddReadyList and RemoveReadyList index pReadyList out of its bounds.
pub dispatch_out_of_range :
    (t : Ptable) (p : ℕ)
    → get_ready t ≡ some p
    → levels ≤ priority_of t p
    → dispatch t ≡ stop out_of_bounds
unfolding dispatch
dispatch_out_of_range t p g k =
    rw (g, dispatch)
      (ap (λ (m : Outcome (Ptable × ℕ)). m >>= λ r. ok (r.0, p))
        (remove_out_of_range (set_state t p running) p
          (rw (priority_of-set_state t p running p) k)))
