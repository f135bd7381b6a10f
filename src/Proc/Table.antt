-- ===== src/Proc/Table.antt =====
-- struct proc and ptable of proc.h and proc.c. A `struct proc *` is the index of the entry, and
-- `none` is the null pointer. Each `int` is its 32-bit pattern.
use project4final.Prelude.{ℕ, Bool, Option, ◌==◌, update}

-- enum procstate.
pub data ProcState : Type 0 where
  unused embryo sleeping runnable running zombie : ProcState

-- The number that C gives the constant.
abbrev pub code : ProcState → ℕ
code unused = 0
code embryo = 1
code sleeping = 2
code runnable = 3
code running = 4
code zombie = 5

abbrev pub same_state : ProcState → ProcState → Bool
same_state a b = code a == code b

-- struct proc. `kstack` and `pgdir` are addresses, 0 for none, and so is `chan`. The trap frame, the
-- saved context and the open files are not part of the entry.
pub record Proc : Type 0 where
  pub sz : ℕ
  pub pgdir : ℕ
  pub kstack : ℕ
  pub state : ProcState
  pub pid : ℕ
  pub uid : ℕ
  pub gid : ℕ
  pub priority : ℕ
  pub parent : Option ℕ
  pub chan : ℕ
  pub killed : ℕ
  pub next : Option ℕ

abbrev pub nproc : ℕ
nproc = 64

abbrev pub max_time_to_reset : ℕ
max_time_to_reset = 100

-- The number of lists in pReadyList.
abbrev pub levels : ℕ
levels = 3

-- ptable, with the `nextpid` and `initproc` that stand beside it.
pub record Ptable : Type 0 where
  pub proc : ℕ → Proc
  pub ready : ℕ → Option ℕ
  pub free : Option ℕ
  pub time_to_reset : ℕ
  pub nextpid : ℕ
  pub initproc : Option ℕ

-- `*p = q`, `p->next = n`, `p->state = s`, `p->priority = k`, `pReadyList[i] = p`.
unfoldable pub set_proc : Ptable → ℕ → Proc → Ptable
set_proc t p q = record t { proc = update t.proc p q }

unfoldable pub set_next : Ptable → ℕ → Option ℕ → Ptable
unfolding set_proc
set_next t p n = set_proc t p (record (t.proc p) { next = n })

unfoldable pub set_state : Ptable → ℕ → ProcState → Ptable
unfolding set_proc
set_state t p s = set_proc t p (record (t.proc p) { state = s })

unfoldable pub set_priority : Ptable → ℕ → ℕ → Ptable
unfolding set_proc
set_priority t p k = set_proc t p (record (t.proc p) { priority = k })

unfoldable pub set_ready : Ptable → ℕ → Option ℕ → Ptable
set_ready t i p = record t { ready = update t.ready i p }

-- The links of all entries.
abbrev pub next_of : Ptable → ℕ → Option ℕ
next_of t p = (t.proc p).next
