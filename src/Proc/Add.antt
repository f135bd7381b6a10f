-- ===== src/Proc/Add.antt =====
-- The two branches of AddReadyList: an empty list, and the walk to the end of another.
use project4final.Proc.Fields.{next_of-set_state, state_of-set_state_self, priority_of-set_state}
use project4final.Prelude.{
  ℕ, ◌≡◌, refl, ◌≢◌, ◌<◌, ◌≤◌, List, [], ◌∷◌, ◌++◌, Option, none, some, arith, update, All-mono, ok,
  length, length-le_of_Distinct, fun_ext, ap, sym, ◌∙◌, Fresh, subst, update_ne, update_self,
}
use project4final.Proc.Table.{
  Ptable, runnable, nproc, levels, next_of, set_next, set_ready, set_state, unused,
}
use project4final.Proc.Chain.{Chain, last, last-All, Chain-join, walk_to_last_lem, Chain-update}
use project4final.Proc.View.{state_of, priority_of, IsQueued, Holds, View, Represents, enqueue}
use project4final.Proc.ReadyLists.{append_after, add_ready_list, walk_fuel, walk_to_last}
use project4final.Proc.Sched.{make_runnable}
use project4final.Proc.Enqueue.{Enqueued, Enqueued-Represents, Woken}

-- A ready list is never longer than the table, so the rounds of a walk are enough.
pub Holds-length :
    (t : Ptable) (i : ℕ) (p : Option ℕ) (xs : List ℕ)
    → Holds t (IsQueued t i) p xs
    → length xs ≤ nproc
Holds-length t i p xs h =
    length-le_of_Distinct nproc xs h.distinct (All-mono (λ x q. q.0) xs h.sound)

-- The table after each branch.
into_empty : Ptable → ℕ → Ptable
into_empty t a = set_next (set_ready (set_state t a runnable) (priority_of t a) (some a)) a none

behind : Ptable → ℕ → ℕ → Ptable
behind t a l = append_after (set_state t a runnable) a l

module _ (t : Ptable) (a : ℕ) where
  into_empty-Enqueued : Enqueued t (into_empty t a) a []
  unfolding into_empty set_next set_ready set_state
  into_empty-Enqueued = record {
    free_same = refl;
    ready_other = λ j h. ground arith;
    chain = (ground arith, ground arith);
    state_self = ground arith;
    state_other = λ x h. ground arith;
    priority_same = λ x. ground arith;
    core_same = λ x. ground arith;
    next_other = λ x h o. ground arith;
  }

  make_runnable_empty :
      priority_of t a < levels
      → t.ready (priority_of t a) ≡ none
      → make_runnable t a ≡ ok (into_empty t a)
  unfolding make_runnable into_empty add_ready_list set_state
  make_runnable_empty lt e = ground arith

  module _ (l : ℕ) (ne : l ≢ a) where
    next_of-behind : next_of (behind t a l) ≡ update (update (next_of t) a none) l (some a)
    unfolding behind append_after set_state set_next
    next_of-behind = fun_ext λ x. ground arith

    behind-Enqueued :
        (xs : List ℕ)
        → state_of t l ≡ runnable
        → priority_of t l ≡ priority_of t a
        → Chain (next_of (behind t a l)) (t.ready (priority_of t a)) (xs ++ (a ∷ []))
        → Enqueued t (behind t a l) a xs
    unfolding behind append_after set_state set_next
    behind-Enqueued xs s p c = record {
      free_same = refl;
      ready_other = λ j h. refl;
      chain = c;
      state_self = ground arith;
      state_other = λ x h. ground arith;
      priority_same = λ x. ground arith;
      core_same = λ x. ground arith;
      next_other = λ x h o. ground arith;
    }

  add_ready_list_walk :
      (x l : ℕ)
      → state_of t a ≡ runnable
      → priority_of t a < levels
      → t.ready (priority_of t a) ≡ some x
      → walk_to_last walk_fuel (next_of t) x ≡ ok l
      → add_ready_list t a ≡ ok (append_after t a l, 0)
  unfolding add_ready_list
  add_ready_list_walk x l s p h w = ground arith

-- The walk in the list that begins with `x` ends at its last entry.
make_runnable-behind :
    (t : Ptable) (a x : ℕ) (xs : List ℕ)
    → length xs < walk_fuel
    → priority_of t a < levels
    → Chain (next_of t) (t.ready (priority_of t a)) (x ∷ xs)
    → make_runnable t a ≡ ok (behind t a (last x xs))
unfolding make_runnable behind
make_runnable-behind t a x xs h lt c = rw (
    add_ready_list_walk (set_state t a runnable) a x (last x xs)
      (state_of-set_state_self t a runnable) (rw (priority_of-set_state t a runnable a) lt)
      (rw (priority_of-set_state t a runnable a) (unfold set_state in c.0))
      (rw (next_of-set_state t a runnable) (walk_to_last_lem walk_fuel (next_of t) x xs h c.1)))

-- Putting an entry that is neither runnable nor unused on its ready list.
module _ (t : Ptable) (v : View) (a : ℕ) (r : Represents t v) (small : a < nproc)
    (idle : state_of t a ≢ runnable) (used : state_of t a ≢ unused) where
  split :
      (xs : List ℕ)
      → Holds t (IsQueued t (priority_of t a)) (t.ready (priority_of t a)) xs
      → (u : Ptable) × (make_runnable t a ≡ ok u) × Enqueued t u a xs
  split [] h = (
    into_empty t a,
    make_runnable_empty t a (r.in_range a small) h.chain,
    into_empty-Enqueued t a,
  )
  split (x ∷ xs) h = (
    behind t a l,
    make_runnable-behind t a x xs (omega (arith, Holds-length t _ _ (x ∷ xs) h))
        (r.in_range a small) h.chain,
    behind-Enqueued t a l ne (x ∷ xs) tail.1 tail.2 (
        rw h.chain.0 (
          subst (λ nx. Chain nx (some x) (x ∷ xs ++ (a ∷ []))) (sym (next_of-behind t a l ne))
            joined)),
  )
    where
      l : ℕ
      l = last x xs

      tail : IsQueued t (priority_of t a) l
      tail = last-All (IsQueued t (priority_of t a)) x xs h.sound.0 h.sound.1

      ne : l ≢ a
      ne p = idle (ap (state_of t) (sym p) ∙ tail.1)

      fresh : Fresh a (x ∷ xs)
      fresh = All-mono (λ z q. λ p. idle (ap (state_of t) (sym p) ∙ q.1)) (x ∷ xs) h.sound

      joined : Chain (update (update (next_of t) a none) l (some a)) (some x) (x ∷ xs ++ (a ∷ []))
      joined =
          Chain-join (update (next_of t) a none) x xs (a ∷ []) (some a) h.distinct
            (Chain-update (next_of t) (some x) (x ∷ xs) a none fresh (refl, h.chain.1))
            (
              refl,
              update_ne (update (next_of t) a none) l (some a) a (λ p. ne (sym p))
                  ∙ update_self (next_of t) a none,
            )

  -- `p->state = RUNNABLE; AddReadyList(p)` on an entry that is neither runnable nor unused ends, with no
  -- fault. The entry stands at the end of the queue of its priority, the other queues and the free
  -- list are as they were, and of the other fields nothing but links has changed.
  pub make_runnable_enqueues :
      (u : Ptable) × (make_runnable t a ≡ ok u)
      × Represents u (enqueue v (priority_of t a) a)
      × Woken t u a
  make_runnable_enqueues =
      let (u, eq, e) =
        split (v.ready (priority_of t a)) (r.ready (priority_of t a) (r.in_range a small)) in
      (
        u,
        eq,
        Enqueued-Represents t u v a r small idle used e,
        record { state_self = e.state_self; state_other = e.state_other; core_same = e.core_same },
      )
