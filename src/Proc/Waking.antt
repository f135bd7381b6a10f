-- ===== src/Proc/Waking.antt =====
-- What a wake-up leaves as it was.
use project4final.Proc.Wakeup.{wakeup1_wakes, enqueue_all, sleepers}
use project4final.Proc.View.{View, state_of, priority_of, Represents}
use project4final.Proc.Sched.{make_runnable, asleep, wakeup1, wakeup1_from}
use project4final.Proc.ReadyLists.{add_ready_list, append_after}
use project4final.Proc.Table.{
  Ptable, Proc, zombie, running, sleeping, runnable, same_state, nproc, set_proc, set_state,
  set_next, set_ready, ProcState, unused, embryo,
}
use project4final.Prelude.{
  ℕ, ◌≡◌, ok, arith, suc, Bool-cases, refl, inr, inl, zero, >>=-ok, ◌<◌, ◌∙◌, true, ap, ◌⊎◌, sym,
}

add_ready_list-initproc :
    (t : Ptable) (a : ℕ) (u : Ptable) (n : ℕ)
    → add_ready_list t a ≡ ok (u, n)
    → u.initproc ≡ t.initproc
unfolding add_ready_list append_after set_next set_ready set_proc
add_ready_list-initproc t a u n e = ground arith

make_runnable-initproc :
    (t : Ptable) (a : ℕ) (u : Ptable) → make_runnable t a ≡ ok u → u.initproc ≡ t.initproc
unfolding make_runnable
make_runnable-initproc t a u e =
    let ((w, n), g, f) = >>=-ok (add_ready_list (set_state t a runnable) a) (λ r. ok r.0) u e in
    let h : w.initproc ≡ (set_state t a runnable).initproc =
      add_ready_list-initproc (set_state t a runnable) a w n g in
    let q : w ≡ u = cc in
    ap (λ (x : Ptable). x.initproc) (sym q) ∙ h ∙ (unfold set_state set_proc in refl)

wakeup1_from-initproc :
    (k p chan : ℕ) (t u : Ptable) → wakeup1_from k p chan t ≡ ok u → u.initproc ≡ t.initproc
unfolding wakeup1_from
wakeup1_from-initproc zero p chan t u e = ground arith
wakeup1_from-initproc (suc k) p chan t u e = elim (Bool-cases (asleep t chan p)) [
  | inr n ↦ wakeup1_from-initproc k (suc p) chan t u (rw n at e)
  | inl y ↦
      let (w, g, f) =
        >>=-ok (make_runnable t p) (λ w. wakeup1_from k (suc p) chan w) u (rw y at e) in
      wakeup1_from-initproc k (suc p) chan w u f ∙ make_runnable-initproc t p w g
]

pub wakeup1-initproc : (t u : Ptable) (chan : ℕ) → wakeup1 t chan ≡ ok u → u.initproc ≡ t.initproc
unfolding wakeup1
wakeup1-initproc t u chan e = wakeup1_from-initproc nproc 0 chan t u e

-- No state has changed but of processes that slept and are runnable now.
abbrev pub OnlyWakes : Ptable → Ptable → Type 0
OnlyWakes t u =
    (x : ℕ)
    → x < nproc
    → (state_of u x ≡ state_of t x) ⊎ ((state_of t x ≡ sleeping) × (state_of u x ≡ runnable))

pub OnlyWakes-trans : (t u w : Ptable) → OnlyWakes t u → OnlyWakes u w → OnlyWakes t w
OnlyWakes-trans t u w f g x l = elim (f x l) [
  | inl e ↦ elim (g x l) [ inl h ↦ inl (h ∙ e) | inr h ↦ inr (sym e ∙ h.0, h.1) ]
  | inr e ↦ elim (g x l) [ inl h ↦ inr (e.0, h ∙ e.1) | inr h ↦ absurd (cc (e.1, h.0)) ]
]

-- What a wake-up of a channel does, with what it leaves.
abbrev pub Wakes : Ptable → ℕ → Ptable → Type 0
Wakes t chan u =
    OnlyWakes t u
    × ((x : ℕ) → x < nproc → asleep t chan x ≡ true → state_of u x ≡ runnable)
    × ((x : ℕ) → (u.proc x).parent ≡ (t.proc x).parent)
    × (u.initproc ≡ t.initproc)

pub asleep-sleeping : (t : Ptable) (chan x : ℕ) → asleep t chan x ≡ true → state_of t x ≡ sleeping
asleep-sleeping t chan x h = by_state (state_of t x) (ground arith)
  where
    by_state : (s : ProcState) → same_state s sleeping ≡ true → s ≡ sleeping
    by_state unused e = absurd (cc)
    by_state embryo e = absurd (cc)
    by_state sleeping e = refl
    by_state runnable e = absurd (cc)
    by_state running e = absurd (cc)
    by_state zombie e = absurd (cc)

pub wakeup1-Wakes :
    (t : Ptable) (v : View) (chan : ℕ)
    → Represents t v
    → (u : Ptable) × (w : View) × (wakeup1 t chan ≡ ok u) × Represents u w × Wakes t chan u
wakeup1-Wakes t v chan r =
    let (u, e, r', states, c) = wakeup1_wakes chan t v r in
    (
      u,
      enqueue_all (priority_of t) (sleepers nproc 0 chan t) v,
      e,
      r',
      (
        (λ x l. elim (Bool-cases (asleep t chan x)) [
          | inl y ↦ inr (asleep-sleeping t chan x y, states x l ∙ rw y refl)
          | inr n ↦ inl (states x l ∙ rw n refl)
        ]),
        (λ x l y. states x l ∙ rw y refl),
        (λ x. ap (λ (y : Proc). y.parent) (c x)),
        wakeup1-initproc t u chan e,
      ),
    )
