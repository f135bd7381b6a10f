-- ===== src/Proc/Wait.antt =====
-- About wait: a child that has ended is taken off the table.
use project4final.Proc.Scan.{IsEndedKid, find_zombie_lem, IsKid}
use project4final.Proc.Fields.{add_free_list-some}
use project4final.Proc.Scan.{Scanned}
use project4final.Proc.Links.{
  Pushed-Represents, add_free_list-Pushed, SameQueues, SameQueues-Represents,
}
use project4final.Proc.Life.{
  reap, find_zombie, WaitEnd, wait, reaped, no_child, asleep_in_wait, wait_found,
}
use project4final.Proc.Rounds.{sleep-SameLists}
use project4final.Proc.Frame.{SameLists-Represents}
use project4final.Proc.View.{View, state_of, Represents}
use project4final.Proc.Sched.{sleep}
use project4final.Proc.ReadyLists.{add_free_list}
use project4final.Proc.Table.{Ptable, Proc, unused, zombie, running, nproc, set_proc, set_next}
use project4final.Prelude.{
  ℕ, ◌≡◌, Bool, some, true, ◌⊎◌, arith, false, inl, ◌≢◌, ◌≤◌, inr, ℕ_discrete, ◌<◌, eq→==, ◌+◌, ap,
  refl, ne→==, none, ==-self, ◌∙◌, ◌∷◌,
}

-- Entry `p` has been taken off: it is unused and empty, and no other entry has changed but in its link.
pub record Reaped (t u : Ptable) (p : ℕ) : Type 0 where
  pub state : state_of u p ≡ unused
  pub cleared :
      ((u.proc p).pid ≡ 0)
      × ((u.proc p).parent ≡ none)
      × ((u.proc p).killed ≡ 0)
      × ((u.proc p).kstack ≡ 0)
  pub others : (x : ℕ) → x ≢ p → u.proc x ≡ t.proc x

abbrev freed : Ptable → ℕ → Ptable
freed t p =
    (add_free_list (set_proc t p (record (t.proc p) { kstack = 0; state = unused })) (some p)).0

freed-proc :
    (t : Ptable) (p : ℕ)
    → (freed t p).proc
      ≡ (set_next (set_proc t p (record (t.proc p) { kstack = 0; state = unused })) p t.free).proc
unfolding set_next set_proc
freed-proc t p =
    ap (λ (r : Ptable × ℕ). r.0.proc)
      (add_free_list-some (set_proc t p (record (t.proc p) { kstack = 0; state = unused })) p)

freed_self :
    (t : Ptable) (p : ℕ)
    → (freed t p).proc p ≡ record (t.proc p) { kstack = 0; state = unused; next = t.free }
unfolding set_next set_proc
freed_self t p = ap (λ (f : ℕ → Proc). f p) (freed-proc t p) ∙ rw (==-self p) refl

freed-other : (t : Ptable) (p x : ℕ) → x ≢ p → (freed t p).proc x ≡ t.proc x
unfolding set_next set_proc
freed-other t p x n = ap (λ (f : ℕ → Proc). f x) (freed-proc t p) ∙ rw (ne→== x p n) refl

reap-SameQueues : (t : Ptable) (p : ℕ) → SameQueues (freed t p) (reap t p)
unfolding reap
reap-SameQueues t p = emptied (freed t p)
  where
    emptied :
        (u : Ptable)
        → SameQueues u (set_proc u p (record (u.proc p) { pid = 0; parent = none; killed = 0 }))
    emptied u = record {
      next_same = λ x. ground arith;
      ready_same = λ i. refl;
      free_same = refl;
      runnable_same = λ x. ((λ h. ground arith), (λ h. ground arith));
      unused_same = λ x. ((λ h. ground arith), (λ h. ground arith));
      priority_same = λ x h. ground arith;
      in_range = λ x l h. ground arith;
    }

emptied_self :
    (u : Ptable) (p : ℕ)
    → (set_proc u p (record (u.proc p) { pid = 0; parent = none; killed = 0 })).proc p
      ≡ record (u.proc p) { pid = 0; parent = none; killed = 0 }
unfolding set_proc
emptied_self u p = rw (==-self p) refl

reap_self :
    (t : Ptable) (p : ℕ)
    → (reap t p).proc p ≡ record (t.proc p) {
      kstack = 0;
      state = unused;
      next = t.free;
      pid = 0;
      parent = none;
      killed = 0;
    }
unfolding reap
reap_self t p =
    emptied_self (freed t p) p
    ∙ ap (λ (x : Proc). record x { pid = 0; parent = none; killed = 0 }) (freed_self t p)

emptied-other :
    (u : Ptable) (p x : ℕ)
    → x ≢ p
    → (set_proc u p (record (u.proc p) { pid = 0; parent = none; killed = 0 })).proc x ≡ u.proc x
unfolding set_proc
emptied-other u p x n = rw (ne→== x p n) refl

reap-other : (t : Ptable) (p x : ℕ) → x ≢ p → (reap t p).proc x ≡ t.proc x
unfolding reap
reap-other t p x n = emptied-other (freed t p) p x n ∙ freed-other t p x n

reap-Reaped : (t : Ptable) (p : ℕ) → Reaped t (reap t p) p
reap-Reaped t p = record {
  state = ap (λ (x : Proc). x.state) (reap_self t p);
  cleared = (
    ap (λ (x : Proc). x.pid) (reap_self t p),
    ap (λ (x : Proc). x.parent) (reap_self t p),
    ap (λ (x : Proc). x.killed) (reap_self t p),
    ap (λ (x : Proc). x.kstack) (reap_self t p),
  );
  others = reap-other t p;
}

reap-Represents :
    (t : Ptable) (v : View) (p : ℕ)
    → Represents t v
    → p < nproc
    → state_of t p ≡ zombie
    → Represents (reap t p) (record v { free = p ∷ v.free })
reap-Represents t v p r l z =
    SameQueues-Represents (freed t p) (reap t p) (record v { free = p ∷ v.free })
      (reap-SameQueues t p)
      (Pushed-Represents t (freed t p) v p r l (λ e. cc (e, z)) (λ e. cc (e, z))
        (add_free_list-Pushed t p (record (t.proc p) { kstack = 0; state = unused }) refl refl))

-- A child that has ended, the first in the table, is taken off.
abbrev pub TakesOff : Ptable → View → ℕ → Ptable × WaitEnd → Type 0
TakesOff t v proc o =
    (p : ℕ) × (p < nproc)
    × IsEndedKid t proc p
    × ((x : ℕ) → x < p → ¬ IsEndedKid t proc x)
    × (o.1 ≡ reaped (t.proc p).pid)
    × Represents o.0 (record v { free = p ∷ v.free })
    × Reaped t o.0 p

-- No child has ended; with no child, or killed, the process gets -1, and else it sleeps.
abbrev pub FindsNone : (ℕ → ℕ) → Ptable → View → ℕ → Ptable × WaitEnd → Type 0
FindsNone entry t v proc o =
    ((x : ℕ) → x < nproc → ¬ IsEndedKid t proc x)
    × (((((x : ℕ) → x < nproc → ¬ IsKid t proc x) ⊎ ((t.proc proc).killed ≢ 0))
          × (o ≡ (t, no_child)))
        ⊎ (((x : ℕ) × (x < nproc) × IsKid t proc x)
            × ((t.proc proc).killed ≡ 0)
            × (o ≡ (sleep t proc (entry proc), asleep_in_wait))
            × Represents o.0 v))

wait_found_lem :
    (entry : ℕ → ℕ) (t : Ptable) (v : View) (proc : ℕ) (o : ℕ ⊎ Bool)
    → Represents t v
    → state_of t proc ≡ running
    → Scanned t proc 0 nproc false o
    → TakesOff t v proc (wait_found entry t proc o)
      ⊎ FindsNone entry t v proc (wait_found entry t proc o)
unfolding wait_found
wait_found_lem entry t v proc (inl p) r busy (a, b, k, f) = inl (
  p,
  omega arith,
  k,
  (λ x l. f x (omega arith) l),
  refl,
  reap-Represents t v p r (omega arith) k.1,
  reap-Reaped t p,
)
wait_found_lem entry t v proc (inr false) r busy (a, b) = inr (
  (λ x l. a x (omega arith) (omega arith)),
  inl (inl (λ x l kid. cc (b.1 (inr (x, omega arith, omega arith, kid)))), refl),
)
wait_found_lem entry t v proc (inr true) r busy (a, b) = inr (
  (λ x l. a x (omega arith) (omega arith)),
  elim (ℕ_discrete (t.proc proc).killed 0) [
    | no n ↦ inl (inr n, rw (ne→== (t.proc proc).killed 0 n) refl)
    | yes z ↦ inr (
      kid (b.0 refl),
      z,
      rw (eq→== (t.proc proc).killed 0 z) refl,
      rw (eq→== (t.proc proc).killed 0 z) (
          SameLists-Represents t (sleep t proc (entry proc)) v
            (sleep-SameLists t proc (entry proc) busy) r),
    )
  ],
)
  where
    kid :
        (false ≡ true) ⊎ ((x : ℕ) × (0 ≤ x) × (x < 0 + nproc) × IsKid t proc x)
        → (x : ℕ) × (x < nproc) × IsKid t proc x
    kid (inl e) = absurd (cc)
    kid (inr (x, l, m, h)) = (x, omega arith, h)

-- wait by a process that runs, on a well-formed table, on each branch. If a child has ended, the first one in the
-- table is taken off: wait returns its pid, its entry is cleared and on top of the free list, and the queues and the
-- other entries stay. If none has, wait returns -1 and changes nothing where the caller has no child or has been
-- killed, and else the caller goes to sleep and the table stands for the same view.
pub wait_cases :
    (entry : ℕ → ℕ) (t : Ptable) (v : View) (proc : ℕ)
    → Represents t v
    → state_of t proc ≡ running
    → TakesOff t v proc (wait entry t proc) ⊎ FindsNone entry t v proc (wait entry t proc)
unfolding wait
wait_cases entry t v proc r busy =
    wait_found_lem entry t v proc (find_zombie nproc 0 t proc false) r busy
      (find_zombie_lem nproc 0 t proc false)
