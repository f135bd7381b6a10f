-- ===== src/Proc/Reset.antt =====
-- ResetPriority makes every priority 1 and puts the lists 0 and 2 behind the list 1.
use project4final.Proc.Enqueue.{bare}
use project4final.Proc.Fields.{
  next_of-set_priority, state_of-set_priority, priority_of-set_priority_self,
  priority_of-set_priority_ne, next_of-set_next, state_of-set_next, priority_of-set_next,
}
use project4final.Proc.Chain.{Chain, last, ne_last, Chain-join, Chain-update, walk_to_last_lem}
use project4final.Proc.View.{state_of, priority_of}
use project4final.Proc.ReadyLists.{priorities_to_one, move_to_middle, walk_fuel}
use project4final.Proc.Table.{Ptable, next_of, set_priority, set_ready, set_next, nproc}
use mathlib.Core.List.{append-nil}
use project4final.Prelude.{
  zero, suc, [], ◌∷◌, none, some, ok, refl, sym, ◌∙◌, ap, ◌≡◌, ◌≢◌, ◌<◌, ℕ, arith, List, Distinct,
  ◌≤◌, ◌+◌, ◌++◌, ℕ_discrete, Fresh, All, update, All-mono, subst, Option, update_ne, length,
}

bare-set_priority : (t : Ptable) (p k x : ℕ) → bare ((set_priority t p k).proc x) ≡ bare (t.proc x)
unfolding set_priority
bare-set_priority t p k x = ground arith

bare-set_next :
    (t : Ptable) (p : ℕ) (n : Option ℕ) (x : ℕ) → bare ((set_next t p n).proc x) ≡ bare (t.proc x)
unfolding set_next
bare-set_next t p n x = ground arith

-- What the loop over the table leaves, and what it writes.
pub record Leveled (t u : Ptable) (p k : ℕ) : Type 0 where
  pub next_same : next_of u ≡ next_of t
  pub ready_same : u.ready ≡ t.ready
  pub free_same : u.free ≡ t.free
  pub state_same : (x : ℕ) → state_of u x ≡ state_of t x
  pub priority_in : (x : ℕ) → p ≤ x → x < p + k → priority_of u x ≡ 1
  pub priority_out : (x : ℕ) → x < p → priority_of u x ≡ priority_of t x
  pub bare_same : (x : ℕ) → bare (u.proc x) ≡ bare (t.proc x)

pub priorities_to_one_lem : (k p : ℕ) (t : Ptable) → Leveled t (priorities_to_one k p t) p k
unfolding priorities_to_one
priorities_to_one_lem zero p t = record {
  next_same = refl;
  ready_same = refl;
  free_same = refl;
  state_same = λ x. refl;
  priority_in = λ x h l. absurd (omega arith);
  priority_out = λ x h. refl;
  bare_same = λ x. refl;
}
priorities_to_one_lem (suc k) p t =
    let t' = set_priority t p 1 in
    let l = priorities_to_one_lem k (suc p) t' in
    record {
      next_same = l.next_same ∙ next_of-set_priority t p 1;
      ready_same = l.ready_same;
      free_same = l.free_same;
      state_same = λ x. l.state_same x ∙ state_of-set_priority t p 1 x;
      priority_in = λ x h b. elim (ℕ_discrete x p) [
        | yes e ↦
            l.priority_out x (omega arith)
            ∙ ap (priority_of t') e
            ∙ priority_of-set_priority_self t p 1
        | no n ↦ l.priority_in x (omega arith) (omega arith)
      ];
      priority_out = λ x h.
          l.priority_out x (omega arith) ∙ priority_of-set_priority_ne t p 1 x (λ e. omega arith);
      bare_same = λ x. l.bare_same x ∙ bare-set_priority t p 1 x;
    }

-- What one of the two parts of ResetPriority does: list `i`, with the entries `front`, goes behind
-- list 1, with the entries `back`.
pub record Moved (t u : Ptable) (i : ℕ) (middle moved : List ℕ) : Type 0 where
  pub chain : Chain (next_of u) (u.ready 1) (middle ++ moved)
  pub emptied : u.ready i ≡ none
  pub ready_other : (j : ℕ) → j ≢ 1 → j ≢ i → u.ready j ≡ t.ready j
  pub next_other : (x : ℕ) → Fresh x middle → next_of u x ≡ next_of t x
  pub free_same : u.free ≡ t.free
  pub state_same : (x : ℕ) → state_of u x ≡ state_of t x
  pub priority_same : (x : ℕ) → priority_of u x ≡ priority_of t x
  pub bare_same : (x : ℕ) → bare (u.proc x) ≡ bare (t.proc x)

module _ (t : Ptable) (i : ℕ) (ne : i ≢ 1) where
  take_over : ℕ → Ptable
  take_over y = set_ready (set_ready t 1 (some y)) i none

  link_behind : ℕ → ℕ → Ptable
  link_behind l y = set_ready (set_next t l (some y)) i none

  take_over-Moved :
      (y : ℕ) (ys : List ℕ)
      → Chain (next_of t) (t.ready i) (y ∷ ys)
      → Moved t (take_over y) i [] (y ∷ ys)
  unfolding take_over set_ready
  take_over-Moved y ys c = record {
    chain = (ground arith, c.1);
    emptied = ground arith;
    ready_other = λ j h k. ground arith;
    next_other = λ x f. refl;
    free_same = refl;
    state_same = λ x. refl;
    priority_same = λ x. refl;
    bare_same = λ x. refl;
  }

  next_of-link_behind : (l y : ℕ) → next_of (link_behind l y) ≡ update (next_of t) l (some y)
  unfolding link_behind set_ready
  next_of-link_behind l y = next_of-set_next t l (some y)

  ready_one : (l y : ℕ) → (link_behind l y).ready 1 ≡ t.ready 1
  unfolding link_behind set_ready set_next
  ready_one l y = ground arith

  link_behind-Moved :
      (x : ℕ) (xs : List ℕ) (y : ℕ) (ys : List ℕ)
      → Distinct (x ∷ xs)
      → All (λ z. Fresh z (x ∷ xs)) (y ∷ ys)
      → Chain (next_of t) (t.ready 1) (x ∷ xs)
      → Chain (next_of t) (t.ready i) (y ∷ ys)
      → Moved t (link_behind (last x xs) y) i (x ∷ xs) (y ∷ ys)
  unfolding link_behind set_ready set_next
  link_behind-Moved x xs y ys d f c k = record {
    chain =
        subst (λ q. Chain (next_of (link_behind l y)) q (x ∷ xs ++ (y ∷ ys)))
          (sym (ready_one l y ∙ c.0))
          (subst (λ nx. Chain nx (some x) (x ∷ xs ++ (y ∷ ys))) (sym (next_of-link_behind l y))
            joined);
    emptied = ground arith;
    ready_other = λ j h e. ground arith;
    next_other = λ z g.
        subst (λ (nx : ℕ → Option ℕ). nx z ≡ next_of t z) (sym (next_of-link_behind l y))
          (update_ne (next_of t) l (some y) z (apart z g));
    free_same = refl;
    state_same = λ z. state_of-set_next t l (some y) z;
    priority_same = λ z. priority_of-set_next t l (some y) z;
    bare_same = λ z. bare-set_next t l (some y) z;
  }
    where
      l : ℕ
      l = last x xs

      apart : (z : ℕ) → Fresh z (x ∷ xs) → z ≢ l
      apart z g e = ne_last x xs z g.0 g.1 (sym e)

      joined : Chain (update (next_of t) l (some y)) (some x) (x ∷ xs ++ (y ∷ ys))
      joined =
          Chain-join (next_of t) x xs (y ∷ ys) (some y) d (refl, c.1)
            (Chain-update (next_of t) (some y) (y ∷ ys) l (some y)
              (All-mono (λ z g. apart z g) (y ∷ ys) f) (refl, k.1))

  pub move_to_middle_lem :
      (middle moved : List ℕ)
      → length middle ≤ nproc
      → Distinct middle
      → All (λ z. Fresh z middle) moved
      → Chain (next_of t) (t.ready 1) middle
      → Chain (next_of t) (t.ready i) moved
      → (u : Ptable) × (move_to_middle t i ≡ ok u) × Moved t u i middle moved
  unfolding move_to_middle
  move_to_middle_lem middle [] h d f c k = (
    t,
    rw (k, move_to_middle),
    record {
      chain = rw append-nil c;
      emptied = k;
      ready_other = λ j a b. refl;
      next_other = λ x g. refl;
      free_same = refl;
      state_same = λ x. refl;
      priority_same = λ x. refl;
      bare_same = λ x. refl;
    },
  )
  move_to_middle_lem [] (y ∷ ys) h d f c k =
      (take_over y, unfold take_over in rw (k.0, move_to_middle, c), take_over-Moved y ys k)
  move_to_middle_lem (x ∷ xs) (y ∷ ys) h d f c k = (
    link_behind (last x xs) y,
    unfold link_behind in
        rw
          (k.0, move_to_middle, c.0, walk_to_last_lem walk_fuel (next_of t) x xs (omega arith) c.1),
    link_behind-Moved x xs y ys d f c k,
  )
