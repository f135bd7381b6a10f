-- ===== src/Proc/Links.antt =====
-- Tables that stand for related views: the links are the same, or an entry has been put on the free list.
use project4final.Proc.Fields.{add_free_list-some}
use project4final.Proc.ReadyLists.{add_free_list}
use project4final.Proc.Chain.{Chain-frame, Chain}
use project4final.Proc.Enqueue.{Holds-frame}
use project4final.Proc.View.{View, state_of, priority_of, IsQueued, IsFree, Represents}
use project4final.Proc.Table.{
  Ptable, next_of, runnable, unused, nproc, levels, ProcState, set_next, Proc, set_proc,
}
use project4final.Prelude.{
  ℕ, ◌≡◌, List, ◌<◌, ◌↔◌, All, ◌≢◌, All-mono, some, subst, ◌∷◌, ◌∙◌, sym, In, ap, ℕ_discrete, inl,
  inr, arith, refl,
}

-- The lists and the sets of runnable and of unused entries are the same, and so are the priorities of the runnable.
pub record SameQueues (t u : Ptable) : Type 0 where
  pub next_same : (x : ℕ) → next_of u x ≡ next_of t x
  pub ready_same : (i : ℕ) → u.ready i ≡ t.ready i
  pub free_same : u.free ≡ t.free
  pub runnable_same : (x : ℕ) → (state_of u x ≡ runnable) ↔ (state_of t x ≡ runnable)
  pub unused_same : (x : ℕ) → (state_of u x ≡ unused) ↔ (state_of t x ≡ unused)
  pub priority_same : (x : ℕ) → state_of t x ≡ runnable → priority_of u x ≡ priority_of t x
  pub in_range : (x : ℕ) → x < nproc → priority_of t x < levels → priority_of u x < levels

pub SameQueues-Represents :
    (t u : Ptable) (v : View) → SameQueues t u → Represents t v → Represents u v
SameQueues-Represents t u v s r = record {
  ready = λ i l. rw (s.ready_same i) (
      Holds-frame t u (IsQueued t i) (IsQueued u i) (t.ready i) (v.ready i)
        (links (IsQueued t i) (v.ready i) (r.ready i l).sound)
        (λ x _ q. (q.0, (s.runnable_same x).1 q.1, s.priority_same x q.1 ∙ q.2))
        (λ x q. (
          q.0,
          (s.runnable_same x).0 q.1,
          sym (s.priority_same x ((s.runnable_same x).0 q.1)) ∙ q.2,
        ))
        (r.ready i l));
  free = simp s.free_same (
      Holds-frame t u (IsFree t) (IsFree u) t.free v.free (links (IsFree t) v.free r.free.sound)
        (λ x _ q. (q.0, (s.unused_same x).1 q.1)) (λ x q. (q.0, (s.unused_same x).0 q.1)) r.free);
  in_range = λ x l. s.in_range x l (r.in_range x l);
}
  where
    links : (P : ℕ → Type 0) (xs : List ℕ) → All P xs → All (λ x. next_of u x ≡ next_of t x) xs
    links P xs a = All-mono (λ x _. s.next_same x) xs a

-- Entry `p`, which was neither runnable nor unused, has been put on top of the free list.
pub record Pushed (t u : Ptable) (p : ℕ) : Type 0 where
  pub next_self : next_of u p ≡ t.free
  pub next_other : (x : ℕ) → x ≢ p → next_of u x ≡ next_of t x
  pub ready_same : (i : ℕ) → u.ready i ≡ t.ready i
  pub free_self : u.free ≡ some p
  pub state_self : state_of u p ≡ unused
  pub state_other : (x : ℕ) → x ≢ p → state_of u x ≡ state_of t x
  pub priority_same : (x : ℕ) → priority_of u x ≡ priority_of t x

module _ (t u : Ptable) (v : View) (p : ℕ) (r : Represents t v) (small : p < nproc)
    (idle : state_of t p ≢ runnable) (used : state_of t p ≢ unused) (w : Pushed t u p) where
  apart : (P : ℕ → Type 0) → (P p → ⊥) → (x : ℕ) → P x → x ≢ p
  apart P n x h e = n (subst P e h)

  not_self : (s : ProcState) → s ≢ unused → (x : ℕ) → state_of u x ≡ s → x ≢ p
  not_self s n x e q = n (sym e ∙ ap (state_of u) q ∙ w.state_self)

  kept_links :
      (P : ℕ → Type 0)
      → (P p → ⊥)
      → (xs : List ℕ) → All P xs
      → All (λ x. next_of u x ≡ next_of t x) xs
  kept_links P n xs a = All-mono (λ x h. w.next_other x (apart P n x h)) xs a

  pub Pushed-Represents : Represents u (record v { free = p ∷ v.free })
  Pushed-Represents = record {
    ready = λ i l. rw (w.ready_same i) (
        Holds-frame t u (IsQueued t i) (IsQueued u i) (t.ready i) (v.ready i)
          (kept_links (IsQueued t i) (λ q. idle q.1) (v.ready i) (r.ready i l).sound)
          (λ x _ q. (
            q.0,
            w.state_other x (apart (IsQueued t i) (λ q. idle q.1) x q) ∙ q.1,
            w.priority_same x ∙ q.2,
          ))
          (λ x q. (
            q.0,
            sym (w.state_other x (not_self runnable (λ e. cc) x q.1)) ∙ q.1,
            sym (w.priority_same x) ∙ q.2,
          ))
          (r.ready i l));
    free = record {
      chain = (
        w.free_self,
        subst (λ q. Chain (next_of u) q v.free) (sym w.next_self)
            (Chain-frame (next_of t) (next_of u) t.free v.free
              (kept_links (IsFree t) (λ q. used q.1) v.free r.free.sound) r.free.chain),
      );
      distinct = (
        All-mono (λ x h. apart (IsFree t) (λ q. used q.1) x h) v.free r.free.sound,
        r.free.distinct,
      );
      sound = (
        (small, w.state_self),
        All-mono (λ x h. (h.0, w.state_other x (apart (IsFree t) (λ q. used q.1) x h) ∙ h.1)) v.free
            r.free.sound,
      );
      complete = in_free;
    };
    in_range = λ x l. rw (w.priority_same x) (r.in_range x l);
  }
    where
      in_free : (x : ℕ) → IsFree u x → In x (p ∷ v.free)
      in_free x q = elim (ℕ_discrete x p) [
        | yes e ↦ inl e
        | no n ↦ inr (r.free.complete x (q.0, sym (w.state_other x n) ∙ q.1))
      ]

written :
    (t : Ptable) (p : ℕ) (q : Proc)
    → q.state ≡ unused
    → q.priority ≡ priority_of t p
    → Pushed t (set_next (record (set_proc t p q) { free = some p }) p (set_proc t p q).free) p
unfolding set_next set_proc
written t p q s h = record {
  next_self = ground arith;
  next_other = λ x n. ground arith;
  ready_same = λ i. refl;
  free_self = refl;
  state_self = ground arith;
  state_other = λ x n. ground arith;
  priority_same = λ x. ground arith;
}

-- AddFreeList of an entry that has just become unused.
pub add_free_list-Pushed :
    (t : Ptable) (p : ℕ) (q : Proc)
    → q.state ≡ unused
    → q.priority ≡ priority_of t p
    → Pushed t (add_free_list (set_proc t p q) (some p)).0 p
add_free_list-Pushed t p q s h =
    subst (λ w. Pushed t w p)
      (sym (ap (λ (r : Ptable × ℕ). r.0) (add_free_list-some (set_proc t p q) p)))
      (written t p q s h)
