-- ===== src/Proc/Frame.antt =====
-- A table that has the same lists, and the same runnable and unused entries, stands for the same view.
use project4final.Proc.Enqueue.{Holds-frame}
use project4final.Proc.View.{View, state_of, Represents, priority_of, IsQueued, IsFree}
use project4final.Proc.Table.{Ptable, next_of, runnable, unused}
use project4final.Prelude.{sym, ◌∙◌, ◌≡◌, ℕ, List, All, ◌↔◌, All-mono}

pub record SameLists (t u : Ptable) : Type 0 where
  pub next_same : (x : ℕ) → next_of u x ≡ next_of t x
  pub ready_same : (i : ℕ) → u.ready i ≡ t.ready i
  pub free_same : u.free ≡ t.free
  pub runnable_same : (x : ℕ) → (state_of u x ≡ runnable) ↔ (state_of t x ≡ runnable)
  pub unused_same : (x : ℕ) → (state_of u x ≡ unused) ↔ (state_of t x ≡ unused)
  pub priority_same : (x : ℕ) → priority_of u x ≡ priority_of t x

pub SameLists-Represents :
    (t u : Ptable) (v : View) → SameLists t u → Represents t v → Represents u v
SameLists-Represents t u v s r = record {
  ready = λ i l. rw (s.ready_same i) (
      Holds-frame t u (IsQueued t i) (IsQueued u i) (t.ready i) (v.ready i)
        (links (IsQueued t i) (v.ready i) (r.ready i l).sound)
        (λ x _ q. (q.0, (s.runnable_same x).1 q.1, s.priority_same x ∙ q.2))
        (λ x q. (q.0, (s.runnable_same x).0 q.1, sym (s.priority_same x) ∙ q.2)) (r.ready i l));
  free = simp s.free_same (
      Holds-frame t u (IsFree t) (IsFree u) t.free v.free (links (IsFree t) v.free r.free.sound)
        (λ x _ q. (q.0, (s.unused_same x).1 q.1)) (λ x q. (q.0, (s.unused_same x).0 q.1)) r.free);
  in_range = λ x l. rw (s.priority_same x) (r.in_range x l);
}
  where
    links : (P : ℕ → Type 0) (xs : List ℕ) → All P xs → All (λ x. next_of u x ≡ next_of t x) xs
    links P xs a = All-mono (λ x _. s.next_same x) xs a
