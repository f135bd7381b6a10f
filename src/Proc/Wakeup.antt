-- ===== src/Proc/Wakeup.antt =====
-- wakeup1 puts every entry that sleeps on the channel on its ready list, in the order of the table.
use project4final.Proc.Add.{make_runnable_enqueues}
use project4final.Proc.Enqueue.{Woken, core}
use project4final.Proc.View.{View, state_of, enqueue, Represents, priority_of}
use project4final.Proc.Sched.{wakeup1_from, asleep, wakeup1}
use project4final.Proc.Table.{Ptable, ProcState, nproc, sleeping, Proc, runnable, unused}
use project4final.Prelude.{
  zero, suc, true, false, [], ◌∷◌, refl, inl, inr, ok, ℕ, List, [], ◌≤◌, ◌∷◌, suc, if◌then◌else◌,
  ◌≡◌, ◌≢◌, ◌+◌, leb, true, arith, ap, ◌&&◌, ltb, ok, Bool-cases, fun_ext, Bool, ℕ_discrete, ◌∙◌,
  ap₂, subst, ◌<◌, le→leb, lt→ltb,
}

-- The entries from `p` on, `k` of them, that sleep on the channel.
unfoldable pub sleepers : ℕ → ℕ → ℕ → Ptable → List ℕ
sleepers zero p chan t = []
sleepers (suc k) p chan t =
    if asleep t chan p then p ∷ sleepers k (suc p) chan t else sleepers k (suc p) chan t

-- Each of a list of entries joins the queue of its priority.
unfoldable pub enqueue_all : (ℕ → ℕ) → List ℕ → View → View
enqueue_all priority [] v = v
enqueue_all priority (a ∷ rest) v = enqueue_all priority rest (enqueue v (priority a) a)

-- The state of an entry once those from `p` to `p + k` have been woken.
abbrev pub woken_state : Ptable → ℕ → ℕ → ℕ → ℕ → ProcState
woken_state t chan p k x =
    if leb p x && (ltb x (p + k) && asleep t chan x) then runnable else state_of t x

asleep_state : (t : Ptable) (chan x : ℕ) → asleep t chan x ≡ true → state_of t x ≡ sleeping
asleep_state t chan x h = ground arith

sleepers-cong :
    (k p chan : ℕ) (t u : Ptable)
    → ((x : ℕ) → p ≤ x → asleep u chan x ≡ asleep t chan x)
    → sleepers k p chan u ≡ sleepers k p chan t
unfolding sleepers
sleepers-cong zero p chan t u h = refl
sleepers-cong (suc k) p chan t u h =
    rw (h p (omega arith), sleepers-cong k (suc p) chan t u (λ x l. h x (omega arith)))

-- What the loop makes of the table.
pub record WokeAll (t u : Ptable) (chan p k : ℕ) : Type 0 where
  pub states : (x : ℕ) → state_of u x ≡ woken_state t chan p k x
  pub core_same : (x : ℕ) → core (u.proc x) ≡ core (t.proc x)

asleep_after :
    (t u : Ptable) (a chan x : ℕ) → Woken t u a → x ≢ a → asleep u chan x ≡ asleep t chan x
asleep_after t u a chan x w ne = rw (w.state_other x ne, ap (λ (q : Proc). q.chan) (w.core_same x))

asleep-ne_awake :
    (t : Ptable) (chan x : ℕ)
    → asleep t chan x ≡ true
    → (state_of t x ≢ runnable) × (state_of t x ≢ unused)
asleep-ne_awake t chan x h = ground (arith, asleep_state t chan x h)

same_priorities : (t u : Ptable) (a : ℕ) → Woken t u a → priority_of u ≡ priority_of t
same_priorities t u a w = fun_ext λ x. ap (λ (q : Proc). q.priority) (w.core_same x)

same_sleepers :
    (t u : Ptable) (p k chan : ℕ)
    → Woken t u p
    → sleepers k (suc p) chan u ≡ sleepers k (suc p) chan t
same_sleepers t u p k chan w =
    sleepers-cong k (suc p) chan t u (λ x l. asleep_after t u p chan x w (λ e. omega arith))

same_view :
    (t u : Ptable) (p k chan : ℕ) (v : View)
    → Woken t u p
    → enqueue_all (priority_of u) (sleepers k (suc p) chan u) v
      ≡ enqueue_all (priority_of t) (sleepers k (suc p) chan t) v
same_view t u p k chan v w =
    ap₂ (λ f xs. enqueue_all f xs v) (same_priorities t u p w) (same_sleepers t u p k chan w)

-- The window of the entries seen so far, one entry longer.
woken_state_skip :
    (t : Ptable) (chan p k x : ℕ)
    → asleep t chan p ≡ false
    → woken_state t chan (suc p) k x ≡ woken_state t chan p (suc k) x
woken_state_skip t chan p k x h = elim (ℕ_discrete x p) [
  | yes e ↦ rw (e, h) (ground arith)
  | no n ↦
      rw
        (
          show (leb (suc p) x) (leb p x) (ground arith),
          show (ltb x (suc p + k)) (ltb x (p + suc k)) (ground arith),
        )
        refl
]
  where
    show : (a b : Bool) → a ≡ b → a ≡ b
    show a b e = e

woken_state_take :
    (t t' : Ptable) (chan p k x : ℕ)
    → asleep t chan p ≡ true
    → Woken t t' p
    → woken_state t' chan (suc p) k x ≡ woken_state t chan p (suc k) x
woken_state_take t t' chan p k x h w = elim (ℕ_discrete x p) [
  | yes e ↦ rw (e, h) (ground (arith, w.state_self))
  | no n ↦ rw (asleep_after t t' p chan x w n, w.state_other x n) (ground arith)
]

pub wakeup1_from_lem :
    (k p chan : ℕ) (t : Ptable) (v : View)
    → p + k ≤ nproc
    → Represents t v
    → (u : Ptable) × (wakeup1_from k p chan t ≡ ok u)
      × Represents u (enqueue_all (priority_of t) (sleepers k p chan t) v)
      × WokeAll t u chan p k
unfolding wakeup1_from sleepers enqueue_all
wakeup1_from_lem zero p chan t v h r =
    (t, refl, r, record { states = λ x. ground arith; core_same = λ x. refl })
wakeup1_from_lem (suc k) p chan t v h r = elim (Bool-cases (asleep t chan p)) [
  | inl y ↦
      let (t', eq, r', w) =
        make_runnable_enqueues t v p r (omega arith) (asleep-ne_awake t chan p y).0
          (asleep-ne_awake t chan p y).1 in
      let (u, eq', r'', w') =
        wakeup1_from_lem k (suc p) chan t' (enqueue v (priority_of t p) p) (omega arith) r' in
      (
        u,
        rw y (rw eq eq'),
        rw y (subst (Represents u) (same_view t t' p k chan (enqueue v (priority_of t p) p) w) r''),
        record {
          states = λ x. w'.states x ∙ woken_state_take t t' chan p k x y w;
          core_same = λ x. w'.core_same x ∙ w.core_same x;
        },
      )
  | inr n ↦
      let (u, eq, r', w) = wakeup1_from_lem k (suc p) chan t v (omega arith) r in
      (
        u,
        rw n eq,
        rw n r',
        record {
          states = λ x. w.states x ∙ woken_state_skip t chan p k x n;
          core_same = w.core_same;
        },
      )
]

woken_state_all :
    (t : Ptable) (chan x : ℕ)
    → x < nproc
    → woken_state t chan 0 nproc x ≡ (if asleep t chan x then runnable else state_of t x)
woken_state_all t chan x h = rw (le→leb 0 x (omega arith), lt→ltb x (0 + nproc) (omega arith))

-- On a well-formed table wakeup1 ends with no fault. The entries that sleep on the channel join the
-- queues of their priorities, in the order of the table, and are runnable; every other entry keeps its
-- state, and no entry changes but in its state and its link.
pub wakeup1_wakes :
    (chan : ℕ) (t : Ptable) (v : View)
    → Represents t v
    → (u : Ptable) × (wakeup1 t chan ≡ ok u)
      × Represents u (enqueue_all (priority_of t) (sleepers nproc 0 chan t) v)
      × ((x : ℕ) → x < nproc → state_of u x ≡ (if asleep t chan x then runnable else state_of t x))
      × ((x : ℕ) → core (u.proc x) ≡ core (t.proc x))
unfolding wakeup1
wakeup1_wakes chan t v r =
    let (u, eq, r', w) = wakeup1_from_lem nproc 0 chan t v (omega arith) r in
    (u, eq, r', (λ x l. w.states x ∙ woken_state_all t chan x l), w.core_same)
