-- ===== src/Proc/Alloc.antt =====
-- allocproc takes the top of the free list, or gives it back where there is no kernel stack.
use project4final.Proc.Chain.{Chain-frame}
use project4final.Proc.Enqueue.{Holds-frame}
use project4final.Proc.Frame.{SameLists, SameLists-Represents}
use project4final.Proc.View.{state_of, View, priority_of, Represents, Holds, IsFree, IsQueued}
use project4final.Proc.ReadyLists.{remove_free_list}
use project4final.Proc.Fields.{remove_free_list-some, add_free_list-some}
use project4final.Proc.Sched.{set_kstack, allocproc, take_entry, alloc_found}
use project4final.Proc.Table.{
  Ptable, next_of, embryo, set_state, unused, ProcState, Proc, runnable, set_next,
}
use project4final.Prelude.{
  [], ◌∷◌, none, some, inl, inr, refl, sym, ◌∙◌, ap, ◌≡◌, ◌≢◌, ℕ, arith, ne→==, List, Fresh, ◌+◌,
  All, ◌%◌, subst, In, ◌^◌, All-mono, Option,
}

allocproc_empty : (t : Ptable) (k : ℕ) → t.free ≡ none → allocproc t k ≡ (t, none)
unfolding allocproc
allocproc_empty t k e =
    let nothing : remove_free_list t ≡ (t, none) = unfold remove_free_list in ground arith in
    ap (λ (r : Ptable × Option ℕ). alloc_found r k) nothing

-- What allocproc has made of the table where it returns `p`.
pub record Taken (t u : Ptable) (p k : ℕ) : Type 0 where
  pub next_same : (x : ℕ) → next_of u x ≡ next_of t x
  pub ready_same : (i : ℕ) → u.ready i ≡ t.ready i
  pub free_next : u.free ≡ next_of t p
  pub state_self : state_of u p ≡ embryo
  pub pid_self : (u.proc p).pid ≡ t.nextpid
  pub killed_same : (u.proc p).killed ≡ (t.proc p).killed
  pub kstack_self : (u.proc p).kstack ≡ k
  pub priority_same : (x : ℕ) → priority_of u x ≡ priority_of t x
  pub others : (x : ℕ) → x ≢ p → u.proc x ≡ t.proc x
  pub nextpid : u.nextpid ≡ (t.nextpid + 1) % 2 ^ 32

taken : Ptable → ℕ → ℕ → Ptable
taken t p k = set_kstack (take_entry (record t { free = next_of t p }) p) p k

taken-Taken : (t : Ptable) (p k : ℕ) → Taken t (taken t p k) p k
unfolding taken set_kstack take_entry
taken-Taken t p k = record {
  next_same = λ x. ground arith;
  ready_same = λ i. refl;
  free_next = refl;
  state_self = ground arith;
  pid_self = ground arith;
  killed_same = ground arith;
  kstack_self = ground arith;
  priority_same = λ x. ground arith;
  others = λ x h. ground arith;
  nextpid = refl;
}

allocproc-some :
    (t : Ptable) (p k : ℕ) → t.free ≡ some p → k ≢ 0 → allocproc t k ≡ (taken t p k, some p)
unfolding allocproc taken
allocproc-some t p k e h = rw (remove_free_list-some t p e, allocproc, ne→== k 0 h)

given_back : Ptable → ℕ → Ptable
given_back t p =
    let t₂ = set_state (taken t p 0) p unused in set_next (record t₂ { free = some p }) p t₂.free

allocproc_no_stack : (t : Ptable) (p : ℕ) → t.free ≡ some p → allocproc t 0 ≡ (given_back t p, none)
unfolding allocproc taken given_back
allocproc_no_stack t p e =
    rw (remove_free_list-some t p e, allocproc)
      (ap (λ (r : Ptable × ℕ). (r.0, none))
        (add_free_list-some (set_state (taken t p 0) p unused) p))

given_back-SameLists :
    (t : Ptable) (p : ℕ) → t.free ≡ some p → state_of t p ≡ unused → SameLists t (given_back t p)
unfolding given_back taken set_kstack take_entry set_state set_next
given_back-SameLists t p e s = record {
  next_same = λ x. ground arith;
  ready_same = λ i. refl;
  free_same = sym e;
  runnable_same = λ x. ((λ h. ground arith), (λ h. ground arith));
  unused_same = λ x. ((λ h. ground arith), (λ h. ground arith));
  priority_same = λ x. ground arith;
}

module _ (t u : Ptable) (v : View) (p k : ℕ) (rest : List ℕ) (r : Represents t v)
    (top : v.free ≡ p ∷ rest) (w : Taken t u p k) where
  whole : Holds t (IsFree t) t.free (p ∷ rest)
  whole = subst (Holds t (IsFree t) t.free) top r.free

  not_self : (s : ProcState) → s ≢ embryo → (x : ℕ) → state_of u x ≡ s → x ≢ p
  not_self s n x e q = n (sym e ∙ ap (state_of u) q ∙ w.state_self)

  state_other : (x : ℕ) → x ≢ p → state_of u x ≡ state_of t x
  state_other x n = ap (λ (q : Proc). q.state) (w.others x n)

  Taken-Represents : Represents u (record v { free = rest })
  Taken-Represents = record {
    ready = λ i l. rw (w.ready_same i) (
        Holds-frame t u (IsQueued t i) (IsQueued u i) (t.ready i) (v.ready i)
          (All-mono (λ x _. w.next_same x) (v.ready i) (r.ready i l).sound)
          (λ x _ q. (
            q.0,
            state_other x (λ e. cc (q.1, whole.sound.0.1, ap (state_of t) e)) ∙ q.1,
            w.priority_same x ∙ q.2,
          ))
          (λ x q. (
            q.0,
            sym (state_other x (not_self runnable (λ e. cc) x q.1)) ∙ q.1,
            sym (w.priority_same x) ∙ q.2,
          ))
          (r.ready i l));
    free = record {
      chain = rw w.free_next (
          Chain-frame (next_of t) (next_of u) (next_of t p) rest
            (All-mono (λ x _. w.next_same x) rest whole.sound.1) whole.chain.1);
      distinct = whole.distinct.1;
      sound = keep rest whole.distinct.0 whole.sound.1;
      complete = λ x q.
          later x (not_self unused (λ e. cc) x q.1)
            (whole.complete x (q.0, sym (state_other x (not_self unused (λ e. cc) x q.1)) ∙ q.1));
    };
    in_range = λ x l. rw (w.priority_same x) (r.in_range x l);
  }
    where
      keep : (xs : List ℕ) → Fresh p xs → All (IsFree t) xs → All (IsFree u) xs
      keep [] f a = tt
      keep (x ∷ xs) f a = ((a.0.0, state_other x f.0 ∙ a.0.1), keep xs f.1 a.1)

      later : (x : ℕ) → x ≢ p → In x (p ∷ rest) → In x rest
      later x n (inl e) = absurd (n e)
      later x n (inr h) = h

-- allocproc on a well-formed table, on each of its branches. With no unused entry it returns null and
-- changes nothing. With a kernel stack it returns the top of the free list, which becomes an EMBRYO with
-- the next pid and that stack, and the table is well formed with the rest of the free list; the other
-- entries are as they were. With no kernel stack it returns null, and the table stands for the same view.
pub allocproc_cases :
    (t : Ptable) (v : View)
    → Represents t v
    → (v.free ≡ [] → (k : ℕ) → allocproc t k ≡ (t, none))
      × ((p : ℕ) (rest : List ℕ)
          → v.free ≡ p ∷ rest
          → ((k : ℕ)
              → k ≢ 0
              → (u : Ptable) × (allocproc t k ≡ (u, some p))
                × Represents u (record v { free = rest })
                × Taken t u p k)
            × ((u : Ptable) × (allocproc t 0 ≡ (u, none)) × Represents u v))
allocproc_cases t v r = (
  (λ e k. allocproc_empty t k (subst (Holds t (IsFree t) t.free) e r.free).chain),
  λ p rest e.
      let h : Holds t (IsFree t) t.free (p ∷ rest) = subst (Holds t (IsFree t) t.free) e r.free in
      (
        (λ k n. (
          taken t p k,
          allocproc-some t p k h.chain.0 n,
          Taken-Represents t (taken t p k) v p k rest r e (taken-Taken t p k),
          taken-Taken t p k,
        )),
        (
          given_back t p,
          allocproc_no_stack t p h.chain.0,
          SameLists-Represents t (given_back t p) v (given_back-SameLists t p h.chain.0 h.sound.0.1)
              r,
        ),
      ),
)
