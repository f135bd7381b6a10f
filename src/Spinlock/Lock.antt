-- ===== src/Spinlock/Lock.antt =====
-- initlock, acquire, release and holding of spinlock.c as the steps that several processors interleave: each read of a
-- field of the lock, each write of one, and each xchg is a step. pushcli and popcli are in Cli; the name of the lock
-- and the call stack that it records for debugging are left out.
use project4final.Prelude.{
  ℕ, none, Option, Bool, false, not, true, update, some, if◌then◌else◌, ◌==◌, ◌&&◌,
}

-- struct spinlock: `locked`, and the processor in `cpu`.
pub record Lock : Type 0 where
  pub locked : ℕ
  pub cpu : Option ℕ

abbrev pub initlock : Lock
initlock = record { locked = 0; cpu = none }

abbrev pub same_cpu : Option ℕ → ℕ → Bool
same_cpu none i = false
same_cpu (some j) i = j == i

-- holding on processor `i`: `locked` as it was read, and `cpu`.
abbrev pub holds_read : ℕ → Option ℕ → ℕ → Bool
holds_read locked cpu i = not (locked == 0) && same_cpu cpu i

abbrev pub holding : Lock → ℕ → Bool
holding lk i = holds_read lk.locked lk.cpu i

-- Where a processor is. A flag says whether it was inside when it called; `saw` keeps what it read from `locked`.
pub data Place : Type 0 where
  outside inside : Place
  entering : Bool → Place
  entering_saw : Bool → ℕ → Place
  spinning taken : Place
  leaving : Bool → Place
  leaving_saw : Bool → ℕ → Place
  clearing unlocking : Place
  acquire_panicked release_panicked : Bool → Place

-- acquire on processor `i` from a place in it: what its next step does to the lock, and where it is then.
unfoldable pub acquire_step : Lock → ℕ → Place → Lock × Place
acquire_step lk i (entering held) = (lk, entering_saw held lk.locked)
acquire_step lk i (entering_saw held v) =
    (lk, if holds_read v lk.cpu i then acquire_panicked held else spinning)
acquire_step lk i spinning = (record lk { locked = 1 }, if lk.locked == 0 then taken else spinning)
acquire_step lk i taken = (record lk { cpu = some i }, inside)
acquire_step lk i p = (lk, p)

-- release on processor `i`, likewise.
unfoldable pub release_step : Lock → ℕ → Place → Lock × Place
release_step lk i (leaving held) = (lk, leaving_saw held lk.locked)
release_step lk i (leaving_saw held v) =
    (lk, if holds_read v lk.cpu i then clearing else release_panicked held)
release_step lk i clearing = (record lk { cpu = none }, unlocking)
release_step lk i unlocking = (record lk { locked = 0 }, outside)
release_step lk i p = (lk, p)

-- Code outside or inside may call either.
abbrev pub call_acquire : Place → Place
call_acquire outside = entering false
call_acquire inside = entering true
call_acquire p = p

abbrev pub call_release : Place → Place
call_release outside = leaving false
call_release inside = leaving true
call_release p = p

pub record Machine : Type 0 where
  pub lock : Lock
  pub place : ℕ → Place

abbrev pub moved : Machine → ℕ → Lock × Place → Machine
moved s i r = record { lock = r.0; place = update s.place i r.1 }

-- One step of one processor.
pub data Step (s : Machine) : Machine → Type 0 where
  calls_acquire : (i : ℕ) → Step s (moved s i (s.lock, call_acquire (s.place i)))
  calls_release : (i : ℕ) → Step s (moved s i (s.lock, call_release (s.place i)))
  acquires : (i : ℕ) → Step s (moved s i (acquire_step s.lock i (s.place i)))
  releases : (i : ℕ) → Step s (moved s i (release_step s.lock i (s.place i)))

abbrev pub start : Machine
start = record { lock = initlock; place = λ i. outside }

pub data Reach : Machine → Type 0 where
  here : Reach start
  next : {s t : Machine} → Reach s → Step s t → Reach t
