-- ===== src/Proc/Fork.antt =====
-- About fork: the child joins the queue of priority 1.
use project4final.Proc.Links.{
  SameQueues, SameQueues-Represents, Pushed, add_free_list-Pushed, Pushed-Represents,
}
use project4final.Proc.Life.{copy_process, undo_fork, fork, fork_found}
use project4final.Proc.Alloc.{allocproc_cases, Taken}
use project4final.Proc.Add.{make_runnable_enqueues}
use project4final.Proc.Enqueue.{Woken, core}
use project4final.Proc.View.{View, state_of, priority_of, Represents, enqueue, IsFree, Holds}
use project4final.Proc.Sched.{allocproc, make_runnable}
use project4final.Proc.Table.{Ptable, Proc, runnable, unused, embryo, running}
use project4final.Prelude.{
  ℕ, ◌≡◌, List, arith, some, ◌∷◌, ◌≢◌, subst, refl, ap, ok, minus_one, ne→==, none, sym, [], Option,
  ==-self, ◌∙◌,
}

copy_process-SameQueues :
    (t : Ptable) (proc np pgdir : ℕ)
    → state_of t np ≡ embryo
    → SameQueues t (copy_process t proc np pgdir)
unfolding copy_process
copy_process-SameQueues t proc np pgdir s = record {
  next_same = λ x. ground arith;
  ready_same = λ i. refl;
  free_same = refl;
  runnable_same = λ x. ((λ h. ground arith), (λ h. ground arith));
  unused_same = λ x. ((λ h. ground arith), (λ h. ground arith));
  priority_same = λ x h. ground arith;
  in_range = λ x l h. ground arith;
}

-- The entry of the child in the new table, with what it has of its parent's.
pub record IsChild (t u : Ptable) (proc np pgdir kstack : ℕ) : Type 0 where
  pub state : state_of u np ≡ runnable
  pub pid : (u.proc np).pid ≡ t.nextpid
  pub parent : (u.proc np).parent ≡ some proc
  pub sz : (u.proc np).sz ≡ (t.proc proc).sz
  pub uid : (u.proc np).uid ≡ (t.proc proc).uid
  pub gid : (u.proc np).gid ≡ (t.proc proc).gid
  pub priority : priority_of u np ≡ 1
  pub memory : ((u.proc np).pgdir ≡ pgdir) × ((u.proc np).kstack ≡ kstack)
  pub others :
      (x : ℕ) → x ≢ np → (state_of u x ≡ state_of t x) × (core (u.proc x) ≡ core (t.proc x))

module _ (t : Ptable) (v : View) (r : Represents t v) (proc np : ℕ) (rest : List ℕ)
    (top : v.free ≡ np ∷ rest) (busy : state_of t proc ≡ running) where
  np-IsFree : IsFree t np
  np-IsFree = (subst (Holds t (IsFree t) t.free) top r.free).sound.0

  ne_proc : proc ≢ np
  ne_proc e = cc (busy, np-IsFree.1, ap (state_of t) e)

fork-found :
    (t : Ptable) (proc kstack pgdir : ℕ) (r : Ptable × Option ℕ)
    → allocproc t kstack ≡ r
    → fork t proc kstack pgdir ≡ fork_found r proc pgdir
unfolding fork
fork-found t proc kstack pgdir r e = ap (λ r. fork_found r proc pgdir) e

fork_found-done :
    (u w : Ptable) (proc np pgdir : ℕ)
    → pgdir ≢ 0
    → make_runnable (copy_process u proc np pgdir) np ≡ ok w
    → fork_found (u, some np) proc pgdir ≡ ok (w, (u.proc np).pid)
unfolding fork_found
fork_found-done u w proc np pgdir n g = rw (ne→== pgdir 0 n, g) refl

copy_process_self :
    (u : Ptable) (proc np pgdir : ℕ)
    → (copy_process u proc np pgdir).proc np ≡ record (u.proc np) {
      pgdir = pgdir;
      sz = (u.proc proc).sz;
      parent = some proc;
      uid = (u.proc proc).uid;
      gid = (u.proc proc).gid;
      priority = 1;
    }
unfolding copy_process
copy_process_self u proc np pgdir = rw (==-self np) refl

copy_process-other :
    (u : Ptable) (proc np pgdir x : ℕ) → x ≢ np → (copy_process u proc np pgdir).proc x ≡ u.proc x
unfolding copy_process
copy_process-other u proc np pgdir x n = rw (ne→== x np n) refl

Woken-IsChild :
    (t u w : Ptable) (proc np pgdir kstack : ℕ)
    → proc ≢ np
    → Taken t u np kstack
    → Woken (copy_process u proc np pgdir) w np
    → IsChild t w proc np pgdir kstack
Woken-IsChild t u w proc np pgdir kstack n k h =
    let c : core (w.proc np)
        ≡ core (record (u.proc np) {
          pgdir = pgdir;
          sz = (u.proc proc).sz;
          parent = some proc;
          uid = (u.proc proc).uid;
          gid = (u.proc proc).gid;
          priority = 1;
        }) =
      h.core_same np ∙ ap core (copy_process_self u proc np pgdir) in
    record {
      state = h.state_self;
      pid = ap (λ (x : Proc). x.pid) c ∙ k.pid_self;
      parent = ap (λ (x : Proc). x.parent) c;
      sz = ap (λ (x : Proc). x.sz) c ∙ ap (λ (x : Proc). x.sz) (k.others proc n);
      uid = ap (λ (x : Proc). x.uid) c ∙ ap (λ (x : Proc). x.uid) (k.others proc n);
      gid = ap (λ (x : Proc). x.gid) c ∙ ap (λ (x : Proc). x.gid) (k.others proc n);
      priority = ap (λ (x : Proc). x.priority) c;
      memory = (ap (λ (x : Proc). x.pgdir) c, ap (λ (x : Proc). x.kstack) c ∙ k.kstack_self);
      others = λ x m.
          let e : (copy_process u proc np pgdir).proc x ≡ t.proc x =
            copy_process-other u proc np pgdir x m ∙ k.others x m in
          (h.state_other x m ∙ ap (λ (x : Proc). x.state) e, h.core_same x ∙ ap core e);
    }

copy_process-state :
    (t : Ptable) (proc np pgdir : ℕ) → state_of (copy_process t proc np pgdir) np ≡ state_of t np
unfolding copy_process
copy_process-state t proc np pgdir = ground arith

undo_fork-Pushed : (u : Ptable) (np : ℕ) → Pushed u (undo_fork u np) np
unfolding undo_fork
undo_fork-Pushed u np =
    add_free_list-Pushed u np (record (u.proc np) { pgdir = 0; kstack = 0; state = unused }) refl
      refl

-- fork by a process that runs, on a well-formed table, on each branch. With no unused entry, with no kernel stack for
-- the child, or with no memory for it, it returns -1 and the table stands for the same view. Else it returns the next
-- pid: the entry from the top of the free list is a child of the caller with the caller's size and identity, and stands
-- at the end of the queue of priority 1; no other entry has changed but in its link.
pub fork_cases :
    (t : Ptable) (v : View) (proc : ℕ)
    → Represents t v
    → state_of t proc ≡ running
    → (v.free ≡ [] → (kstack pgdir : ℕ) → fork t proc kstack pgdir ≡ ok (t, minus_one))
      × ((np : ℕ) (rest : List ℕ)
          → v.free ≡ np ∷ rest
          → ((pgdir : ℕ)
              → (u : Ptable) × (fork t proc 0 pgdir ≡ ok (u, minus_one)) × Represents u v)
            × ((kstack : ℕ)
                → kstack ≢ 0
                → (u : Ptable) × (fork t proc kstack 0 ≡ ok (u, minus_one)) × Represents u v)
            × ((kstack pgdir : ℕ)
                → kstack ≢ 0
                → pgdir ≢ 0
                → (u : Ptable) × (fork t proc kstack pgdir ≡ ok (u, t.nextpid))
                  × Represents u (enqueue (record v { free = rest }) 1 np)
                  × IsChild t u proc np pgdir kstack))
unfolding fork_found
fork_cases t v proc r busy = (
  (λ e kstack pgdir. fork-found t proc kstack pgdir (t, none) ((allocproc_cases t v r).0 e kstack)),
  λ np rest top.
      let a = (allocproc_cases t v r).1 np rest top in
      (
        (λ pgdir. let (u, e, r') = a.1 in (u, fork-found t proc 0 pgdir (u, none) e, r')),
        (λ kstack n.
            let (u, e, r', w) = a.0 kstack n in
            (
              undo_fork u np,
              fork-found t proc kstack 0 (u, some np) e,
              subst (λ xs. Represents (undo_fork u np) (record v { free = xs })) (sym top)
                  (Pushed-Represents u (undo_fork u np) (record v { free = rest }) np r'
                    (np-IsFree t v r proc np rest top busy).0 (λ q. cc (q, w.state_self))
                    (λ q. cc (q, w.state_self)) (undo_fork-Pushed u np)),
            )),
        (λ kstack pgdir n m.
            let (u, e, r', w) = a.0 kstack n in
            let c = copy_process u proc np pgdir in
            let (x, g, q, k) =
              make_runnable_enqueues c (record v { free = rest }) np
                (SameQueues-Represents u c (record v { free = rest })
                  (copy_process-SameQueues u proc np pgdir w.state_self) r')
                (np-IsFree t v r proc np rest top busy).0
                (λ q. cc (q, w.state_self, copy_process-state u proc np pgdir))
                (λ q. cc (q, w.state_self, copy_process-state u proc np pgdir)) in
            (
              x,
              fork-found t proc kstack pgdir (u, some np) e
                  ∙ fork_found-done u x proc np pgdir m g
                  ∙ ap (λ (i : ℕ). ok (x, i)) w.pid_self,
              subst (λ i. Represents x (enqueue (record v { free = rest }) i np))
                  (ap (λ (y : Proc). y.priority) (copy_process_self u proc np pgdir)) q,
              Woken-IsChild t u x proc np pgdir kstack (ne_proc t v r proc np rest top busy) w k,
            )),
      ),
)
