-- ===== src/Proc/Exit.antt =====
-- About exit: the caller ends, its parent is woken and init takes its children.
use project4final.Proc.Waking.{OnlyWakes, Wakes, wakeup1-Wakes, OnlyWakes-trans, asleep-sleeping}
use project4final.Proc.Life.{same_entry, chan_of, set_parent, reparent, reparent_from, exit}
use project4final.Proc.Frame.{SameLists, SameLists-Represents}
use project4final.Proc.View.{View, state_of, Represents}
use project4final.Proc.Sched.{asleep}
use project4final.Proc.Table.{
  Ptable, zombie, running, sleeping, runnable, same_state, nproc, set_proc, set_state,
}
use project4final.Prelude.{
  ℕ, ◌≡◌, ok, arith, suc, Bool-cases, refl, inr, inl, zero, ◌<◌, ◌∙◌, true, Option, ap, ◌⊎◌, sym,
  if◌then◌else◌, ◌==◌, ◌≤◌, eq→==, false, ap₂, ◌≢◌, ◌+◌, ne→==, ℕ_discrete, subst,
}

pub set_parent-SameLists : (t : Ptable) (p : ℕ) (q : Option ℕ) → SameLists t (set_parent t p q)
unfolding set_parent
set_parent-SameLists t p q = record {
  next_same = λ x. ground arith;
  ready_same = λ i. refl;
  free_same = refl;
  runnable_same = λ x. ((λ h. ground arith), (λ h. ground arith));
  unused_same = λ x. ((λ h. ground arith), (λ h. ground arith));
  priority_same = λ x. ground arith;
}

set_parent_lem :
    (t : Ptable) (p : ℕ) (q : Option ℕ)
    → ((x : ℕ) → state_of (set_parent t p q) x ≡ state_of t x)
      × ((x : ℕ) → ((set_parent t p q).proc x).parent ≡ (if x == p then q else (t.proc x).parent))
      × ((set_parent t p q).initproc ≡ t.initproc)
unfolding set_parent
set_parent_lem t p q = ((λ x. ground arith), (λ x. ground arith), refl)

-- The parent of entry `x` once `proc` has ended.
abbrev pub passed_on : Ptable → ℕ → ℕ → Option ℕ
passed_on t proc x = if same_entry (t.proc x).parent proc then t.initproc else (t.proc x).parent

-- The children among the entries from `p` up to `p + k` have been passed to init.
record PassedOn (t u : Ptable) (proc p k : ℕ) : Type 0 where
  parents_in : (x : ℕ) → p ≤ x → x < p + k → (u.proc x).parent ≡ passed_on t proc x
  parents_out : (x : ℕ) → (x < p) ⊎ (p + k ≤ x) → (u.proc x).parent ≡ (t.proc x).parent
  wakes : OnlyWakes t u
  initproc : u.initproc ≡ t.initproc

OnlyWakes-same : (t u : Ptable) → ((x : ℕ) → state_of u x ≡ state_of t x) → OnlyWakes t u
OnlyWakes-same t u h x l = inl (h x)

moved :
    (t : Ptable) (proc p : ℕ)
    → same_entry (t.proc p).parent proc ≡ true
    → PassedOn t (set_parent t p t.initproc) proc p 1
moved t proc p e =
    let (s, q, i) = set_parent_lem t p t.initproc in
    record {
      parents_in = λ x l m. q x ∙ at_self x (omega arith);
      parents_out = λ x h. q x ∙ rw (ne→== x p (λ z. omega arith)) refl;
      wakes = OnlyWakes-same t (set_parent t p t.initproc) s;
      initproc = i;
    }
  where
    at_self :
        (x : ℕ) → x ≡ p → (if x == p then t.initproc else (t.proc x).parent) ≡ passed_on t proc x
    at_self x h = rw (eq→== x p h, h, e) refl

woken_too :
    (t u w : Ptable) (proc p k chan : ℕ)
    → PassedOn t u proc p k
    → Wakes u chan w
    → PassedOn t w proc p k
woken_too t u w proc p k chan h (a, b, c, i) = record {
  parents_in = λ x l m. c x ∙ h.parents_in x l m;
  parents_out = λ x l. c x ∙ h.parents_out x l;
  wakes = OnlyWakes-trans t u w h.wakes a;
  initproc = i ∙ h.initproc;
}

reparent_lem :
    (entry : ℕ → ℕ) (t : Ptable) (v : View) (proc p : ℕ)
    → Represents t v
    → (u : Ptable) × (w : View) × (reparent entry t proc p ≡ ok u)
      × Represents u w
      × PassedOn t u proc p 1
unfolding reparent
reparent_lem entry t v proc p r = elim (Bool-cases (same_entry (t.proc p).parent proc)) [
  | inr n ↦ (
    t,
    v,
    rw n refl,
    r,
    record {
      parents_in = λ x l m. not_kid x (omega arith) n;
      parents_out = λ x h. refl;
      wakes = OnlyWakes-same t t (λ x. refl);
      initproc = refl;
    },
  )
  | inl y ↦
      let u = set_parent t p t.initproc in
      let r' = SameLists-Represents t u v (set_parent-SameLists t p t.initproc) r in
      elim (Bool-cases (same_state (u.proc p).state zombie)) [
        | inr n ↦ (u, v, rw (y, n) refl, r', moved t proc p y)
        | inl z ↦
            let (w, v', e, r'', k) = wakeup1-Wakes u v (chan_of entry u.initproc) r' in
            (
              w,
              v',
              rw (y, z) e,
              r'',
              woken_too t u w proc p 1 (chan_of entry u.initproc) (moved t proc p y) k,
            )
      ]
]
  where
    not_kid :
        (x : ℕ)
        → x ≡ p
        → same_entry (t.proc p).parent proc ≡ false
        → (t.proc x).parent ≡ passed_on t proc x
    not_kid x h n = rw (h, n) refl

both_parts :
    (t u w : Ptable) (proc p k : ℕ)
    → PassedOn t u proc p 1
    → PassedOn u w proc (suc p) k
    → PassedOn t w proc p (suc k)
both_parts t u w proc p k a b = record {
  parents_in = λ x l m. elim (ℕ_discrete x p) [
    | yes e ↦ b.parents_out x (omega arith) ∙ a.parents_in x l (omega arith)
    | no n ↦ b.parents_in x (omega arith) (omega arith) ∙ behind x (a.parents_out x (omega arith))
  ];
  parents_out = λ x h. b.parents_out x (omega arith) ∙ a.parents_out x (omega arith);
  wakes = OnlyWakes-trans t u w a.wakes b.wakes;
  initproc = b.initproc ∙ a.initproc;
}
  where
    behind :
        (x : ℕ) → (u.proc x).parent ≡ (t.proc x).parent → passed_on u proc x ≡ passed_on t proc x
    behind x e = ap₂ (λ (o i : Option ℕ). if same_entry o proc then i else o) e a.initproc

reparent_from_lem :
    (k p : ℕ) (entry : ℕ → ℕ) (proc : ℕ) (t : Ptable) (v : View)
    → Represents t v
    → (u : Ptable) × (w : View) × (reparent_from k p entry proc t ≡ ok u)
      × Represents u w
      × PassedOn t u proc p k
unfolding reparent_from
reparent_from_lem zero p entry proc t v r = (
  t,
  v,
  refl,
  r,
  record {
    parents_in = λ x l m. absurd (omega arith);
    parents_out = λ x h. refl;
    wakes = OnlyWakes-same t t (λ x. refl);
    initproc = refl;
  },
)
reparent_from_lem (suc k) p entry proc t v r =
    let (u, w, e, r', a) = reparent_lem entry t v proc p r in
    let (x, y, g, r'', b) = reparent_from_lem k (suc p) entry proc u w r' in
    (x, y, rw e g, r'', both_parts t u x proc p k a b)

set_zombie-SameLists :
    (t : Ptable) (p : ℕ) → state_of t p ≡ running → SameLists t (set_state t p zombie)
unfolding set_state set_proc
set_zombie-SameLists t p s = record {
  next_same = λ x. ground arith;
  ready_same = λ i. refl;
  free_same = refl;
  runnable_same = λ x. ((λ h. ground arith), (λ h. ground arith));
  unused_same = λ x. ((λ h. ground arith), (λ h. ground arith));
  priority_same = λ x. ground arith;
}

set_zombie_lem :
    (t : Ptable) (p : ℕ)
    → (state_of (set_state t p zombie) p ≡ zombie)
      × ((x : ℕ) → x ≢ p → state_of (set_state t p zombie) x ≡ state_of t x)
      × ((x : ℕ) → ((set_state t p zombie).proc x).parent ≡ (t.proc x).parent)
unfolding set_state set_proc
set_zombie_lem t p = (ground arith, (λ x n. ground arith), (λ x. ground arith))

-- exit by a process that runs and is not init, on a well-formed table, ends with no fault, and the table is well formed
-- again: the caller is a ZOMBIE; a process that sleeps on its parent, such as the parent in wait, is RUNNABLE; every
-- child of the caller has init for its parent, and no other parent changes; and no other state changes but of sleepers
-- that are woken.
pub exit_ends :
    (entry : ℕ → ℕ) (t : Ptable) (v : View) (proc : ℕ)
    → Represents t v
    → proc < nproc
    → state_of t proc ≡ running
    → same_entry t.initproc proc ≡ false
    → (u : Ptable) × (w : View) × (exit entry t proc ≡ ok u)
      × Represents u w
      × (state_of u proc ≡ zombie)
      × ((x : ℕ)
          → x < nproc
          → asleep t (chan_of entry (t.proc proc).parent) x ≡ true
          → state_of u x ≡ runnable)
      × ((x : ℕ) → x < nproc → (u.proc x).parent ≡ passed_on t proc x)
      × ((x : ℕ)
          → x < nproc
          → x ≢ proc
          → (state_of u x ≡ state_of t x) ⊎ ((state_of t x ≡ sleeping) × (state_of u x ≡ runnable)))
unfolding exit
exit_ends entry t v proc r l busy other =
    let (a, va, e, ra, (wakes, sleepers_wake, parents, ia)) =
      wakeup1-Wakes t v (chan_of entry (t.proc proc).parent) r in
    let (b, vb, g, rb, k) = reparent_from_lem nproc 0 entry proc a va ra in
    let all = OnlyWakes-trans t a b wakes k.wakes in
    let still = stays_running a b (stays_running t a busy wakes) k.wakes in
    let (z, zo, zp) = set_zombie_lem b proc in
    (
      set_state b proc zombie,
      vb,
      rw (other, e, g) refl,
      SameLists-Represents b (set_state b proc zombie) vb (set_zombie-SameLists b proc still) rb,
      z,
      (λ x m y. zo x (asleep_other x y) ∙ stays_runnable a b x m (sleepers_wake x m y) k.wakes),
      (λ x m.
          zp x
          ∙ k.parents_in x (omega arith) (omega arith)
          ∙ ap₂ (λ (o i : Option ℕ). if same_entry o proc then i else o) (parents x) ia),
      λ x m n.
          subst (λ s. (s ≡ state_of t x) ⊎ ((state_of t x ≡ sleeping) × (s ≡ runnable)))
            (sym (zo x n)) (all x m),
    )
  where
    stays_running :
        (c d : Ptable) → state_of c proc ≡ running → OnlyWakes c d → state_of d proc ≡ running
    stays_running c d s f = elim (f proc l) [ inl e ↦ e ∙ s | inr e ↦ absurd (cc (e.0, s)) ]

    stays_runnable :
        (c d : Ptable) (x : ℕ)
        → x < nproc
        → state_of c x ≡ runnable
        → OnlyWakes c d
        → state_of d x ≡ runnable
    stays_runnable c d x m s f = elim (f x m) [ inl e ↦ e ∙ s | inr e ↦ e.1 ]

    asleep_other : (x : ℕ) → asleep t (chan_of entry (t.proc proc).parent) x ≡ true → x ≢ proc
    asleep_other x y e =
        cc (asleep-sleeping t (chan_of entry (t.proc proc).parent) x y, busy, ap (state_of t) e)
