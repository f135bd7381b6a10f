-- ===== src/Proc/Aging.antt =====
-- ResetPriority on a well-formed table: the three queues become one.
use project4final.Proc.Enqueue.{Holds-frame, bare}
use project4final.Proc.Add.{Holds-length}
use project4final.Proc.Chain.{Chain, Chain-frame}
use project4final.Proc.Reset.{Leveled, Moved, move_to_middle_lem, priorities_to_one_lem}
use project4final.Proc.ReadyLists.{priorities_to_one, move_to_middle, reset_priority}
use project4final.Proc.View.{
  View, IsQueued, Represents, Holds, priority_of, state_of, IsFree, merge,
}
use project4final.Proc.Table.{Ptable, nproc, levels, next_of}
use project4final.Prelude.{
  zero, suc, [], ◌∷◌, none, ok, refl, sym, ◌∙◌, ap, ◌≡◌, ◌≢◌, ◌<◌, ℕ, List, All, Fresh, All-mono,
  arith, Distinct, ◌++◌, Fresh-append, Distinct-append, subst, length-le_of_Distinct, In,
  All-append, Option, In-append_left, In-append_right,
}

-- Entries of different queues are different.
queues_apart :
    (t : Ptable) (i j : ℕ) (xs ys : List ℕ)
    → i ≢ j
    → All (IsQueued t i) xs
    → All (IsQueued t j) ys
    → All (λ y. Fresh y xs) ys
queues_apart t i j xs ys ne a b =
    All-mono (λ y q. All-mono (λ x p. λ e. ne (sym p.2 ∙ ap (priority_of t) e ∙ q.2)) xs a) ys b

All-Fresh-append :
    (xs ys zs : List ℕ)
    → All (λ z. Fresh z xs) zs
    → All (λ z. Fresh z ys) zs
    → All (λ z. Fresh z (xs ++ ys)) zs
All-Fresh-append xs ys [] a b = tt
All-Fresh-append xs ys (z ∷ zs) a b =
    (Fresh-append z xs ys a.0 b.0, All-Fresh-append xs ys zs a.1 b.1)

module _ (t : Ptable) (v : View) (r : Represents t v) where
  t₁ : Ptable
  t₁ = priorities_to_one nproc 0 t

  leveled : Leveled t t₁ 0 nproc
  unfolding t₁
  leveled = priorities_to_one_lem nproc 0 t

  h₀ : Holds t (IsQueued t 0) (t.ready 0) (v.ready 0)
  h₀ = r.ready 0 (omega arith)

  h₁ : Holds t (IsQueued t 1) (t.ready 1) (v.ready 1)
  h₁ = r.ready 1 (omega arith)

  h₂ : Holds t (IsQueued t 2) (t.ready 2) (v.ready 2)
  h₂ = r.ready 2 (omega arith)

  -- A chain of `t` is a chain of `t₁`.
  to_leveled :
      (i : ℕ) (xs : List ℕ) → Chain (next_of t) (t.ready i) xs → Chain (next_of t₁) (t₁.ready i) xs
  to_leveled i xs c =
      subst (λ (f : ℕ → Option ℕ). Chain (next_of t₁) (f i) xs) (sym leveled.ready_same)
        (subst (λ nx. Chain nx (t.ready i) xs) (sym leveled.next_same) c)

  apart₀ : All (λ y. Fresh y (v.ready 1)) (v.ready 0)
  apart₀ = queues_apart t 1 0 (v.ready 1) (v.ready 0) (λ e. omega arith) h₁.sound h₀.sound

  apart₂ : All (λ y. Fresh y (v.ready 1 ++ v.ready 0)) (v.ready 2)
  apart₂ =
      All-Fresh-append (v.ready 1) (v.ready 0) (v.ready 2)
        (queues_apart t 1 2 (v.ready 1) (v.ready 2) (λ e. omega arith) h₁.sound h₂.sound)
        (queues_apart t 0 2 (v.ready 0) (v.ready 2) (λ e. omega arith) h₀.sound h₂.sound)

  distinct₁ : Distinct (v.ready 1 ++ v.ready 0)
  distinct₁ = Distinct-append (v.ready 1) (v.ready 0) h₁.distinct h₀.distinct apart₀

  below : (i : ℕ) (xs : List ℕ) → All (IsQueued t i) xs → All (λ x. x < nproc) xs
  below i xs a = All-mono (λ x q. q.0) xs a

  first_move : (u : Ptable) × (move_to_middle t₁ 0 ≡ ok u) × Moved t₁ u 0 (v.ready 1) (v.ready 0)
  first_move =
      move_to_middle_lem t₁ 0 (λ e. omega arith) (v.ready 1) (v.ready 0) (Holds-length t 1 _ _ h₁)
        h₁.distinct apart₀ (to_leveled 1 (v.ready 1) h₁.chain) (to_leveled 0 (v.ready 0) h₀.chain)

  module _ (t₂ : Ptable) (m : Moved t₁ t₂ 0 (v.ready 1) (v.ready 0)) where
    chain₂ : Chain (next_of t₂) (t₂.ready 2) (v.ready 2)
    chain₂ = rw (m.ready_other 2 (λ e. omega arith) (λ e. omega arith)) (
        Chain-frame (next_of t₁) (next_of t₂) (t₁.ready 2) (v.ready 2)
          (All-mono (λ x f. m.next_other x f) (v.ready 2)
            (queues_apart t 1 2 (v.ready 1) (v.ready 2) (λ e. omega arith) h₁.sound h₂.sound))
          (to_leveled 2 (v.ready 2) h₂.chain))

    second_move :
        (u : Ptable) × (move_to_middle t₂ 2 ≡ ok u)
        × Moved t₂ u 2 (v.ready 1 ++ v.ready 0) (v.ready 2)
    second_move =
        move_to_middle_lem t₂ 2 (λ e. omega arith) (v.ready 1 ++ v.ready 0) (v.ready 2)
          (length-le_of_Distinct nproc (v.ready 1 ++ v.ready 0) distinct₁ (
            All-append (λ x. x < nproc) (v.ready 1) (v.ready 0) (below 1 _ h₁.sound)
              (below 0 _ h₀.sound)))
          distinct₁ apart₂ m.chain chain₂

    module _ (u : Ptable) (n : Moved t₂ u 2 (v.ready 1 ++ v.ready 0) (v.ready 2)) where
      state_kept : (x : ℕ) → state_of u x ≡ state_of t x
      state_kept x = n.state_same x ∙ m.state_same x ∙ leveled.state_same x

      priority_one : (x : ℕ) → x < nproc → priority_of u x ≡ 1
      priority_one x l =
          n.priority_same x ∙ m.priority_same x ∙ leveled.priority_in x (omega arith) (omega arith)

      IsQueued-now : (i : ℕ) (xs : List ℕ) → All (IsQueued t i) xs → All (IsQueued u 1) xs
      IsQueued-now i xs a = All-mono (λ x q. (q.0, state_kept x ∙ q.1, priority_one x q.0)) xs a

      find :
          (x k : ℕ)
          → priority_of t x ≡ k
          → k < levels
          → IsQueued t k x
          → In x ((v.ready 1 ++ v.ready 0) ++ v.ready 2)
      find x zero e l q =
          In-append_left x (v.ready 1 ++ v.ready 0) (v.ready 2)
            (In-append_right x (v.ready 1) (v.ready 0) (h₀.complete x q))
      find x (suc zero) e l q =
          In-append_left x (v.ready 1 ++ v.ready 0) (v.ready 2)
            (In-append_left x (v.ready 1) (v.ready 0) (h₁.complete x q))
      find x (suc (suc zero)) e l q =
          In-append_right x (v.ready 1 ++ v.ready 0) (v.ready 2) (h₂.complete x q)
      find x (suc (suc (suc k))) e l q = absurd (omega arith)

      merged : Holds u (IsQueued u 1) (u.ready 1) ((v.ready 1 ++ v.ready 0) ++ v.ready 2)
      merged = record {
        chain = n.chain;
        distinct =
            Distinct-append (v.ready 1 ++ v.ready 0) (v.ready 2) distinct₁ h₂.distinct apart₂;
        sound =
            All-append (IsQueued u 1) (v.ready 1 ++ v.ready 0) (v.ready 2)
              (All-append (IsQueued u 1) (v.ready 1) (v.ready 0) (IsQueued-now 1 _ h₁.sound)
                (IsQueued-now 0 _ h₀.sound))
              (IsQueued-now 2 _ h₂.sound);
        complete = λ x q.
            find x (priority_of t x) refl (r.in_range x q.0) (q.0, sym (state_kept x) ∙ q.1, refl);
      }

      emptied : (i : ℕ) → i ≢ 1 → u.ready i ≡ none → Holds u (IsQueued u i) (u.ready i) []
      emptied i ne e = record {
        chain = e;
        distinct = tt;
        sound = tt;
        complete = λ x q. absurd (ne (sym q.2 ∙ priority_one x q.0));
      }

      free_links : (x : ℕ) → IsFree t x → next_of u x ≡ next_of t x
      free_links x q =
          n.next_other x
            (Fresh-append x (v.ready 1) (v.ready 0) (off 1 _ h₁.sound) (off 0 _ h₀.sound))
          ∙ m.next_other x (off 1 _ h₁.sound)
          ∙ ap (λ (f : ℕ → Option ℕ). f x) leveled.next_same
        where
          off : (i : ℕ) (xs : List ℕ) → All (IsQueued t i) xs → Fresh x xs
          off i xs a = All-mono (λ y p. λ e. cc (p.1, q.1, ap (state_of t) e)) xs a

      free_kept : Holds u (IsFree u) u.free v.free
      free_kept =
          simp (n.free_same, m.free_same, leveled.free_same)
            (Holds-frame t u (IsFree t) (IsFree u) t.free v.free
              (All-mono free_links v.free r.free.sound) (λ x _ q. (q.0, state_kept x ∙ q.1))
              (λ x q. (q.0, sym (state_kept x) ∙ q.1)) r.free)

      reset-Represents : Represents u (merge v)
      unfolding merge
      reset-Represents = record {
        ready = level;
        free = free_kept;
        in_range = λ x l. rw (priority_one x l) (omega arith);
      }
        where
          level : (i : ℕ) → i < levels → Holds u (IsQueued u i) (u.ready i) ((merge v).ready i)
          level zero l =
              emptied 0 (λ e. omega arith)
                (n.ready_other 0 (λ e. omega arith) (λ e. omega arith) ∙ m.emptied)
          level (suc zero) l = merged
          level (suc (suc zero)) l = emptied 2 (λ e. omega arith) n.emptied
          level (suc (suc (suc i))) l = absurd (omega arith)

  -- ResetPriority on a well-formed table ends with no fault. Every priority becomes 1; the queue of level 1
  -- is what it was, then the queue of level 0, then that of level 2, and those two are empty; the states
  -- and the free list are as they were.
  pub reset_priority_merges :
      (u : Ptable) × (reset_priority t ≡ ok u)
      × Represents u (merge v)
      × ((x : ℕ) → x < nproc → priority_of u x ≡ 1)
      × ((x : ℕ) → state_of u x ≡ state_of t x)
  unfolding reset_priority t₁
  reset_priority_merges =
      let (t₂, e, m) = first_move in
      let (u, e', n) = second_move t₂ m in
      (u, rw e e', reset-Represents t₂ m u n, priority_one t₂ m u n, state_kept t₂ m u n)

  -- What ResetPriority leaves of an entry: all but its priority and its link.
  pub bare-reset_priority :
      (u : Ptable) → reset_priority t ≡ ok u → (x : ℕ) → bare (u.proc x) ≡ bare (t.proc x)
  unfolding reset_priority t₁
  bare-reset_priority u d x =
      let (t₂, e, m) = first_move in
      let (w, e', n) = second_move t₂ m in
      let same : w ≡ u = ok_inj (sym (rw e e') ∙ d) in
      ap (λ (z : Ptable). bare (z.proc x)) (sym same)
      ∙ n.bare_same x
      ∙ m.bare_same x
      ∙ leveled.bare_same x
    where
      ok_inj : {a b : Ptable} → ok a ≡ ok b → a ≡ b
      ok_inj e = cc
