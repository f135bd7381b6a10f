-- ===== src/Spinlock/Exclusion.antt =====
-- Mutual exclusion of the spin locks, and when acquire and release panic.
use project4final.Spinlock.Steps.{Reach-Held}
use project4final.Spinlock.Holders.{
  Held, has_lock, has_mark, IsHonest, holder-eq, is_none, has_mark_lock,
}
use project4final.Prelude.{
  Option, ℕ, ◌≡◌, Bool, true, subst, some, ◌≢◌, false, refl, ◌∙◌, sym, ne→==, ==-false, none,
  ==-self, ℕ_discrete, eq→==, ==→eq,
}
use project4final.Spinlock.Lock.{
  Machine, Reach, spinning, acquire_panicked, release_panicked, holding,
}

-- In every state that processors reach, however their steps interleave, at most one is between the xchg that took the
-- lock and the one that gives it back.
pub mutual_exclusion :
    {s : Machine} (i j : ℕ)
    → Reach s
    → has_lock (s.place i) ≡ true
    → has_lock (s.place j) ≡ true
    → i ≡ j
mutual_exclusion {s} i j r a b =
    let (o, h) = Reach-Held r in some_inj (sym (holder-eq s o h i a) ∙ holder-eq s o h j b)
  where
    some_inj : {x y : ℕ} → some x ≡ some y → x ≡ y
    some_inj e = cc

-- In every state that processors reach: one that has panicked in acquire called it from inside, one that has panicked in
-- release called it from outside; holding answers on a processor whether the lock bears its mark, so it is
-- true of every one that is inside, and false of every one that is outside; and while a processor spins on a lock that
-- is not free, another one has it.
pub acquire_release_checked :
    {s : Machine} (i : ℕ)
    → Reach s
    → ((held : Bool) → s.place i ≡ acquire_panicked held → held ≡ true)
      × ((held : Bool) → s.place i ≡ release_panicked held → held ≡ false)
      × (holding s.lock i ≡ has_mark (s.place i))
      × (s.place i ≡ spinning
          → s.lock.locked ≢ 0
          → (j : ℕ) × (j ≢ i) × (has_lock (s.place j) ≡ true))
acquire_release_checked {s} i r =
    let (o, h) = Reach-Held r in
    (
      (λ held e. subst IsHonest e (h.honest i)),
      (λ held e. subst IsHonest e (h.honest i)),
      holding_lem o h,
      λ e n. holder_of o h e n,
    )
  where
    unheld : (o : Option ℕ) → Held s o → is_none o ≡ true → has_lock (s.place i) ≡ false
    unheld none h q = h.is_holder i
    unheld (some j) h q = absurd (cc)

    holding_lem : (o : Option ℕ) → Held s o → holding s.lock i ≡ has_mark (s.place i)
    holding_lem o h = elim (ℕ_discrete s.lock.locked 0) [
      | yes z ↦
          rw (eq→== s.lock.locked 0 z)
            (sym (has_mark_lock (s.place i) (unheld o h (sym h.is_free ∙ eq→== s.lock.locked 0 z))))
      | no n ↦ rw (ne→== s.lock.locked 0 n) (sym (h.is_marked i))
    ]

    holder_of :
        (o : Option ℕ)
        → Held s o
        → s.place i ≡ spinning
        → s.lock.locked ≢ 0
        → (j : ℕ) × (j ≢ i) × (has_lock (s.place j) ≡ true)
    holder_of none h e n = absurd (
        ==-false s.lock.locked 0 (ne→== s.lock.locked 0 n ∙ refl) (==→eq s.lock.locked 0 h.is_free))
    holder_of (some j) h e n = (j, λ q. spins_without j h e q, h.is_holder j ∙ ==-self j)
      where
        spins_without : (j : ℕ) → Held s (some j) → s.place i ≡ spinning → j ≡ i → ⊥
        spins_without j h e q = cc (h.is_holder j, ==-self j, e, q)
