-- ===== src/Proc/View.antt =====
-- What the linked lists of ptable stand for: three queues of runnable entries and a stack of unused
-- ones, as lists of indices.
use project4final.Prelude.{ℕ, ◌≡◌, ◌<◌, List, [], ◌∷◌, ◌++◌, All, In, Distinct, update, Option}
use project4final.Proc.Table.{Ptable, ProcState, runnable, unused, nproc, levels, next_of}
use project4final.Proc.Chain.{Chain}

pub record View : Type 0 where
  pub ready : ℕ → List ℕ
  pub free : List ℕ

abbrev pub state_of : Ptable → ℕ → ProcState
state_of t x = (t.proc x).state

abbrev pub priority_of : Ptable → ℕ → ℕ
priority_of t x = (t.proc x).priority

-- An entry that belongs on the ready list of level `i`.
abbrev pub IsQueued : Ptable → ℕ → ℕ → Type 0
IsQueued t i x = (x < nproc) × (state_of t x ≡ runnable) × (priority_of t x ≡ i)

abbrev pub IsFree : Ptable → ℕ → Type 0
IsFree t x = (x < nproc) × (state_of t x ≡ unused)

-- A list that starts at `p`, has the members `xs` with none twice, and holds exactly the entries `P`.
pub record Holds (t : Ptable) (P : ℕ → Type 0) (p : Option ℕ) (xs : List ℕ) : Type 0 where
  pub chain : Chain (next_of t) p xs
  pub distinct : Distinct xs
  pub sound : All P xs
  pub complete : (x : ℕ) → P x → In x xs

-- The table is well formed and stands for the view: each ready list holds the runnable entries of its
-- priority, the free list holds the unused entries, and every priority is 0, 1 or 2.
pub record Represents (t : Ptable) (v : View) : Type 0 where
  pub ready : (i : ℕ) → i < levels → Holds t (IsQueued t i) (t.ready i) (v.ready i)
  pub free : Holds t (IsFree t) t.free v.free
  pub in_range : (x : ℕ) → x < nproc → priority_of t x < levels

-- The operations on views.
unfoldable pub enqueue : View → ℕ → ℕ → View
enqueue v i a = record v { ready = update v.ready i (v.ready i ++ (a ∷ [])) }

unfoldable pub dequeue : View → ℕ → List ℕ → View
dequeue v i rest = record v { ready = update v.ready i rest }

unfoldable pub merge : View → View
merge v = record v {
  ready = update (update (update v.ready 1 ((v.ready 1 ++ v.ready 0) ++ v.ready 2)) 0 []) 2 [];
}
