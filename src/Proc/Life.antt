-- ===== src/Proc/Life.antt =====
-- userinit, fork, exit, wait and getProcInfo of proc.c at the table: up to its calls of sched, what each does to the
-- entries. `kstack` and `pgdir` are what kalloc, and setupkvm or copyuvm, return, 0 where they fail.
-- fork and getProcInfo run in part, or wholly, without ptable.lock: they are steps here with nothing in between.
use project4final.Kalloc.Free.{page_size}
use project4final.Proc.Sched.{allocproc, make_runnable, sleep, wakeup1}
use project4final.Proc.ReadyLists.{add_free_list}
use project4final.Proc.Table.{
  Ptable, ProcState, unused, zombie, same_state, nproc, set_proc, set_state, set_ready, embryo,
  sleeping, runnable, running,
}
use project4final.Prelude.{
  ℕ, Option, some, Outcome, Bool, false, suc, ◌==◌, none, ok, ◌⊎◌, List, if◌then◌else◌, inl, stop,
  minus_one, ◌>>=◌, inr, [], zero, null_pointer, panic, true, not, ltb, ◌||◌, ◌∷◌, length, ◌+◌, ◌^◌,
  ◌%◌,
}

abbrev pub same_entry : Option ℕ → ℕ → Bool
same_entry none p = false
same_entry (some q) p = q == p

-- The first loop of userinit: every unused entry goes to the free list.
unfoldable pub free_unused : ℕ → ℕ → Ptable → Ptable
free_unused zero p t = t
free_unused (suc k) p t =
    free_unused k (suc p)
      (if same_state (t.proc p).state unused then (add_free_list t (some p)).0 else t)

-- The fields that userinit sets in the entry that allocproc returns.
unfoldable pub first_process : Ptable → ℕ → ℕ → Ptable
unfolding set_proc
first_process t p pgdir =
    record (set_proc t p
      (record (t.proc p) { uid = 0; gid = 1; priority = 1; pgdir = pgdir; sz = page_size })) {
        initproc = some p;
      }

unfoldable pub userinit : Ptable → ℕ → ℕ → Outcome Ptable
userinit t kstack pgdir =
    let lists = set_ready (set_ready (set_ready (record t { free = none }) 0 none) 1 none) 2 none in
    let r = allocproc (free_unused nproc 0 lists) kstack in
    elim r.1 [
      | none ↦ stop null_pointer
      | some p ↦ if pgdir == 0 then stop panic else make_runnable (first_process r.0 p pgdir) p
    ]

-- What fork copies to the entry of the child.
unfoldable pub copy_process : Ptable → ℕ → ℕ → ℕ → Ptable
unfolding set_proc
copy_process t proc np pgdir = set_proc t np (record (t.proc np) {
  pgdir = pgdir;
  sz = (t.proc proc).sz;
  parent = some proc;
  uid = (t.proc proc).uid;
  gid = (t.proc proc).gid;
  priority = 1;
})

-- What fork does where copyuvm fails.
unfoldable pub undo_fork : Ptable → ℕ → Ptable
unfolding set_proc
undo_fork t np =
    (add_free_list (set_proc t np (record (t.proc np) { pgdir = 0; kstack = 0; state = unused }))
      (some np)).0

-- fork behind its call of allocproc.
unfoldable pub fork_found : Ptable × Option ℕ → ℕ → ℕ → Outcome (Ptable × ℕ)
fork_found (t, none) proc pgdir = ok (t, minus_one)
fork_found (t, some np) proc pgdir =
    if pgdir == 0
    then ok (undo_fork t np, minus_one)
    else make_runnable (copy_process t proc np pgdir) np >>= λ u. ok (u, (t.proc np).pid)

unfoldable pub fork : Ptable → ℕ → ℕ → ℕ → Outcome (Ptable × ℕ)
unfolding fork_found
fork t proc kstack pgdir = fork_found (allocproc t kstack) proc pgdir

-- The address of an entry as a channel; `entry` gives those of the array.
abbrev pub chan_of : (ℕ → ℕ) → Option ℕ → ℕ
chan_of entry none = 0
chan_of entry (some p) = entry p

unfoldable pub set_parent : Ptable → ℕ → Option ℕ → Ptable
unfolding set_proc
set_parent t p q = set_proc t p (record (t.proc p) { parent = q })

-- The body of the loop of exit that passes children to init, at entry `p`.
unfoldable pub reparent : (ℕ → ℕ) → Ptable → ℕ → ℕ → Outcome Ptable
unfolding set_parent
reparent entry t proc p =
    if same_entry (t.proc p).parent proc
    then (let u = set_parent t p t.initproc in
        if same_state (u.proc p).state zombie then wakeup1 u (chan_of entry u.initproc) else ok u)
    else ok t

unfoldable pub reparent_from : ℕ → ℕ → (ℕ → ℕ) → ℕ → Ptable → Outcome Ptable
reparent_from zero p entry proc t = ok t
reparent_from (suc k) p entry proc t =
    reparent entry t proc p >>= λ u. reparent_from k (suc p) entry proc u

-- exit, behind the closing of the files and the current directory.
unfoldable pub exit : (ℕ → ℕ) → Ptable → ℕ → Outcome Ptable
exit entry t proc =
    if same_entry t.initproc proc
    then stop panic
    else wakeup1 t (chan_of entry (t.proc proc).parent) >>= λ u.
        reparent_from nproc 0 entry proc u >>= λ w. ok (set_state w proc zombie)

-- What wait does with a child that has ended.
unfoldable pub reap : Ptable → ℕ → Ptable
unfolding set_proc
reap t p =
    let u =
      (add_free_list (set_proc t p (record (t.proc p) { kstack = 0; state = unused }))
        (some p)).0 in
    set_proc u p (record (u.proc p) { pid = 0; parent = none; killed = 0 })

-- The scan of wait from entry `p` on: the entry of a child that has ended, or whether there is a child.
unfoldable pub find_zombie : ℕ → ℕ → Ptable → ℕ → Bool → ℕ ⊎ Bool
find_zombie zero p t proc havekids = inr havekids
find_zombie (suc k) p t proc havekids =
    let skip : ℕ ⊎ Bool = find_zombie k (suc p) t proc havekids in
    let kid : ℕ ⊎ Bool = find_zombie k (suc p) t proc true in
    if same_entry (t.proc p).parent proc
    then (if same_state (t.proc p).state zombie then inl p else kid)
    else skip

-- How a run of wait ends: it returns the pid of a child, or -1, or it sleeps.
pub data WaitEnd : Type 0 where
  reaped : ℕ → WaitEnd
  no_child asleep_in_wait : WaitEnd

-- wait behind its scan.
unfoldable pub wait_found : (ℕ → ℕ) → Ptable → ℕ → ℕ ⊎ Bool → Ptable × WaitEnd
wait_found entry t proc (inl p) = (reap t p, reaped (t.proc p).pid)
wait_found entry t proc (inr havekids) =
    if not havekids || not ((t.proc proc).killed == 0)
    then (t, no_child)
    else (sleep t proc (entry proc), asleep_in_wait)

unfoldable pub wait : (ℕ → ℕ) → Ptable → ℕ → Ptable × WaitEnd
unfolding find_zombie wait_found
wait entry t proc = wait_found entry t proc (find_zombie nproc 0 t proc false)

-- The array `states` of getProcInfo.
abbrev pub state_text : ProcState → List ℕ
state_text unused = b'U' ∷ b'N' ∷ b'U' ∷ b'S' ∷ b'E' ∷ b'D' ∷ b' ' ∷ []
state_text embryo = b'E' ∷ b'M' ∷ b'B' ∷ b'R' ∷ b'Y' ∷ b'O' ∷ b' ' ∷ []
state_text sleeping = b'S' ∷ b'L' ∷ b'E' ∷ b'E' ∷ b'P' ∷ b' ' ∷ b' ' ∷ []
state_text runnable = b'R' ∷ b'E' ∷ b'A' ∷ b'D' ∷ b'Y' ∷ b' ' ∷ b' ' ∷ []
state_text running = b'R' ∷ b'U' ∷ b'N' ∷ b'N' ∷ b'I' ∷ b'N' ∷ b'G' ∷ []
state_text zombie = b'Z' ∷ b'O' ∷ b'M' ∷ b'B' ∷ b'I' ∷ b'E' ∷ b' ' ∷ []

-- What getProcInfo writes for an entry, but for its name. Of the state it writes the characters and no NUL.
pub record ProcInfo : Type 0 where
  pub pid : ℕ
  pub uid : ℕ
  pub gid : ℕ
  pub ppid : ℕ
  pub size : ℕ
  pub priority : ℕ
  pub state : List ℕ

-- What the loop of getProcInfo writes for entry `p`, whose parent is given, in front of what it writes for the
-- entries behind; `p->parent->pid` through a null pointer is a fault.
unfoldable pub add_info : Ptable → ℕ → Option ℕ → Outcome (List ProcInfo) → Outcome (List ProcInfo)
add_info t p none rest = stop null_pointer
add_info t p (some q) rest = rest >>= λ xs. ok (
    record {
      pid = (t.proc p).pid;
      uid = (t.proc p).uid;
      gid = (t.proc p).gid;
      ppid = (t.proc q).pid;
      size = (t.proc p).sz;
      priority = (t.proc p).priority;
      state = state_text (t.proc p).state;
    }
    ∷ xs)

unfoldable pub infos_from : ℕ → ℕ → Ptable → Outcome (List ProcInfo)
unfolding add_info
infos_from zero p t = ok []
infos_from (suc k) p t =
    let rest : Outcome (List ProcInfo) = infos_from k (suc p) t in
    if same_state (t.proc p).state unused then rest else add_info t p (t.proc p).parent rest

-- `a < b` of two ints.
abbrev pub int_lt : ℕ → ℕ → Bool
int_lt a b = ltb ((a + 2 ^ 31) % 2 ^ 32) ((b + 2 ^ 31) % 2 ^ 32)

-- getProcInfo, with what it writes to the table.
unfoldable pub get_proc_info : Ptable → ℕ → Outcome (List ProcInfo × ℕ)
get_proc_info t max =
    infos_from nproc 0 t >>= λ xs. ok (xs, if int_lt max (length xs) then minus_one else length xs)
