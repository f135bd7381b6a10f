-- ===== src/Proc/Enqueue.antt =====
-- AddReadyList adds an entry at the end of the queue of its priority.
use project4final.Prelude.{
  ℕ, ◌≡◌, refl, sym, ◌∙◌, ap, ◌≢◌, ◌⊎◌, inl, inr, ◌<◌, List, [], ◌∷◌, ◌++◌, Option, arith, All,
  All-mono, All-append, In, In-append_left, In-append_right, Fresh, Distinct-append, Bool-cases,
  ◌==◌, subst, none,
}
use project4final.Proc.Table.{Ptable, runnable, unused, nproc, levels, next_of, Proc}
use project4final.Proc.Chain.{Chain, Chain-frame}
use project4final.Proc.View.{
  View, state_of, priority_of, IsQueued, IsFree, Holds, Represents, enqueue,
}

-- A list whose entries are the same in two tables is held by both, for a predicate that gives the
-- same entries.
pub Holds-frame :
    (t u : Ptable) (P Q : ℕ → Type 0) (p : Option ℕ) (xs : List ℕ)
    → All (λ x. next_of u x ≡ next_of t x) xs
    → ((x : ℕ) → In x xs → P x → Q x)
    → ((x : ℕ) → Q x → P x)
    → Holds t P p xs
    → Holds u Q p xs
Holds-frame t u P Q p xs same fwd back h = record {
  chain = Chain-frame (next_of t) (next_of u) p xs same h.chain;
  distinct = h.distinct;
  sound = All-In xs fwd h.sound;
  complete = λ x q. h.complete x (back x q);
}
  where
    All-In : (ys : List ℕ) → ((x : ℕ) → In x ys → P x → Q x) → All P ys → All Q ys
    All-In [] f a = tt
    All-In (y ∷ ys) f a = (f y (inl refl) a.0, All-In ys (λ x i. f x (inr i)) a.1)

-- An entry without its state and its link.
abbrev pub core : Proc → Proc
core p = record p { state = unused; next = none }

-- And those that no change of priority writes either.
abbrev pub bare : Proc → Proc
bare p = record (core p) { priority = 0 }

-- The entry `a` is runnable, and no state, identity, channel or priority of another has changed.
pub record Woken (t u : Ptable) (a : ℕ) : Type 0 where
  pub state_self : state_of u a ≡ runnable
  pub state_other : (x : ℕ) → x ≢ a → state_of u x ≡ state_of t x
  pub core_same : (x : ℕ) → core (u.proc x) ≡ core (t.proc x)

-- What putting `a` on its ready list makes of the table `t`.
pub record Enqueued (t u : Ptable) (a : ℕ) (xs : List ℕ) : Type 0 where
  pub free_same : u.free ≡ t.free
  pub ready_other : (j : ℕ) → j ≢ priority_of t a → u.ready j ≡ t.ready j
  pub chain : Chain (next_of u) (u.ready (priority_of t a)) (xs ++ (a ∷ []))
  pub state_self : state_of u a ≡ runnable
  pub state_other : (x : ℕ) → x ≢ a → state_of u x ≡ state_of t x
  pub priority_same : (x : ℕ) → priority_of u x ≡ priority_of t x
  pub core_same : (x : ℕ) → core (u.proc x) ≡ core (t.proc x)
  pub next_other :
      (x : ℕ)
      → x ≢ a
      → (state_of t x ≢ runnable) ⊎ (priority_of t x ≢ priority_of t a)
      → next_of u x ≡ next_of t x

module _ (t u : Ptable) (v : View) (a : ℕ) (r : Represents t v) (small : a < nproc)
    (idle : state_of t a ≢ runnable) (used : state_of t a ≢ unused)
    (e : Enqueued t u a (v.ready (priority_of t a))) where
  enqueued_here :
      Holds u
        (IsQueued u (priority_of t a))
        (u.ready (priority_of t a))
        (v.ready (priority_of t a) ++ (a ∷ []))
  enqueued_here = record {
    chain = e.chain;
    distinct = Distinct-append xs (a ∷ []) h.distinct (tt, tt) (fresh, tt);
    sound =
        All-append (IsQueued u k) xs (a ∷ [])
          (All-mono
            (λ x q. (
              q.0,
              e.state_other x (λ p. idle (ap (state_of t) (sym p) ∙ q.1)) ∙ q.1,
              e.priority_same x ∙ q.2,
            ))
            xs h.sound)
          ((small, e.state_self, e.priority_same a), tt);
    complete = λ x q. elim (Bool-cases (x == a)) [
      | inl y ↦ In-append_right x xs (a ∷ []) (inl (ground arith))
      | inr n ↦
          let ne : x ≢ a = ground arith in
          In-append_left x xs (a ∷ [])
            (h.complete x (q.0, sym (e.state_other x ne) ∙ q.1, sym (e.priority_same x) ∙ q.2))
    ];
  }
    where
      k : ℕ
      k = priority_of t a

      xs : List ℕ
      xs = v.ready k

      h : Holds t (IsQueued t k) (t.ready k) xs
      h = r.ready k (r.in_range a small)

      fresh : Fresh a xs
      fresh = All-mono (λ x q. λ p. idle (ap (state_of t) (sym p) ∙ q.1)) xs h.sound

  -- Entries that do not belong to the queue of `a` keep their link.
  same_elsewhere :
      (P : ℕ → Type 0) (xs : List ℕ)
      → ((x : ℕ)
          → P x
          → (x ≢ a) × ((state_of t x ≢ runnable) ⊎ (priority_of t x ≢ priority_of t a)))
      → All P xs
      → All (λ x. next_of u x ≡ next_of t x) xs
  same_elsewhere P xs f h = All-mono (λ x p. e.next_other x (f x p).0 (f x p).1) xs h

  enqueued_other :
      (j : ℕ) → j < levels → j ≢ priority_of t a → Holds u (IsQueued u j) (u.ready j) (v.ready j)
  enqueued_other j lt ne = rw (e.ready_other j ne) (
      Holds-frame t u (IsQueued t j) (IsQueued u j) (t.ready j) (v.ready j)
        (same_elsewhere (IsQueued t j) (v.ready j) (λ x q. (apart x q, inr (λ p. ne (sym q.2 ∙ p))))
          h.sound)
        (λ x _ q. (q.0, e.state_other x (apart x q) ∙ q.1, e.priority_same x ∙ q.2))
        (λ x q. (q.0, sym (e.state_other x (apart' x q)) ∙ q.1, sym (e.priority_same x) ∙ q.2)) h)
    where
      h : Holds t (IsQueued t j) (t.ready j) (v.ready j)
      h = r.ready j lt

      apart : (x : ℕ) → IsQueued t j x → x ≢ a
      apart x q p = ne (sym q.2 ∙ ap (priority_of t) p)

      apart' : (x : ℕ) → IsQueued u j x → x ≢ a
      apart' x q p = ne (sym q.2 ∙ e.priority_same x ∙ ap (priority_of t) p)

  enqueued_free : Holds u (IsFree u) u.free v.free
  enqueued_free = simp e.free_same (
      Holds-frame t u (IsFree t) (IsFree u) t.free v.free
        (same_elsewhere (IsFree t) v.free (λ x q. (apart x q, inl (λ p. not_both (sym q.1 ∙ p))))
          h.sound)
        (λ x _ q. (q.0, e.state_other x (apart x q) ∙ q.1))
        (λ x q. (q.0, sym (e.state_other x (apart' x q)) ∙ q.1)) h)
    where
      h : Holds t (IsFree t) t.free v.free
      h = r.free

      not_both : unused ≡ runnable → ⊥
      not_both p = cc

      apart : (x : ℕ) → IsFree t x → x ≢ a
      apart x q p = used (ap (state_of t) (sym p) ∙ q.1)

      apart' : (x : ℕ) → IsFree u x → x ≢ a
      apart' x q p = not_both (sym q.1 ∙ ap (state_of u) p ∙ e.state_self)

  pub Enqueued-Represents : Represents u (enqueue v (priority_of t a) a)
  unfolding enqueue
  Enqueued-Represents = record {
    ready = λ j lt. elim (Bool-cases (j == priority_of t a)) [
      | inl y ↦ rw y (
          subst (λ i. Holds u (IsQueued u i) (u.ready i) (v.ready (priority_of t a) ++ (a ∷ [])))
            (ground arith) enqueued_here)
      | inr n ↦ rw n (enqueued_other j lt (ground arith))
    ];
    free = enqueued_free;
    in_range = λ x lt. rw (e.priority_same x) (r.in_range x lt);
  }
