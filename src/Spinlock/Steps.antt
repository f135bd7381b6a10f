-- ===== src/Spinlock/Steps.antt =====
-- Every step that a processor takes at a spin lock keeps what holds of the lock.
use project4final.Spinlock.Moves.{
  calls_acquire-Fits, calls_release-Fits, not_free, read_right, stays_at, waits, xchg-Fits,
  own-Fits, clear-Fits, unlock-Fits,
}
use project4final.Spinlock.Holders.{Held, Fits, IsHonest, Fits-Held}
use project4final.Prelude.{Option, ℕ, ◌≡◌, Bool, true, subst, false, refl, none, if◌then◌else◌}
use project4final.Spinlock.Lock.{
  here, Machine, Place, Lock, call_acquire, call_release, acquire_step, release_step, Reach, Step,
  spinning, clearing, unlocking, moved, acquire_panicked, taken, entering, leaving, entering_saw,
  leaving_saw, release_panicked, next, calls_acquire, outside, calls_release, inside, acquires,
  releases,
}

module _ (s : Machine) (o : Option ℕ) (h : Held s o) (i : ℕ) where
  acquires-Fits :
      (p : Place) → s.place i ≡ p → (o' : Option ℕ) × Fits s o i (acquire_step s.lock i p) o'
  unfolding acquire_step
  acquires-Fits (entering held) e =
      stays_at s o h i (entering held) (s.lock, entering_saw held s.lock.locked) e refl refl refl
        refl (λ q. not_free s o h i (entering held) e q)
  acquires-Fits (entering_saw held v) e =
      rw (read_right s o h i (entering_saw held v) held v e refl (subst IsHonest e (h.honest i)))
        (by_held held e)
    where
      by_held :
          (held : Bool)
          → s.place i ≡ entering_saw held v
          → (o' : Option ℕ) × Fits s o i
              (s.lock, if held then acquire_panicked held else spinning)
              o'
      by_held true e =
          stays_at s o h i (entering_saw true v) (s.lock, acquire_panicked true) e refl refl refl
            refl refl
      by_held false e =
          stays_at s o h i (entering_saw false v) (s.lock, spinning) e refl refl refl refl tt
  acquires-Fits spinning e = xchg-Fits s o h i e
  acquires-Fits taken e = own-Fits s o h i e
  acquires-Fits outside e = waits s o h i outside e
  acquires-Fits inside e = waits s o h i inside e
  acquires-Fits (leaving b) e = waits s o h i (leaving b) e
  acquires-Fits (leaving_saw b v) e = waits s o h i (leaving_saw b v) e
  acquires-Fits clearing e = waits s o h i clearing e
  acquires-Fits unlocking e = waits s o h i unlocking e
  acquires-Fits (acquire_panicked b) e = waits s o h i (acquire_panicked b) e
  acquires-Fits (release_panicked b) e = waits s o h i (release_panicked b) e

  releases-Fits :
      (p : Place) → s.place i ≡ p → (o' : Option ℕ) × Fits s o i (release_step s.lock i p) o'
  unfolding release_step
  releases-Fits (leaving held) e =
      stays_at s o h i (leaving held) (s.lock, leaving_saw held s.lock.locked) e refl refl refl refl
        (λ q. not_free s o h i (leaving held) e q)
  releases-Fits (leaving_saw held v) e =
      rw (read_right s o h i (leaving_saw held v) held v e refl (subst IsHonest e (h.honest i)))
        (by_held held e)
    where
      by_held :
          (held : Bool)
          → s.place i ≡ leaving_saw held v
          → (o' : Option ℕ) × Fits s o i
              (s.lock, if held then clearing else release_panicked held)
              o'
      by_held true e =
          stays_at s o h i (leaving_saw true v) (s.lock, clearing) e refl refl refl refl tt
      by_held false e =
          stays_at s o h i (leaving_saw false v) (s.lock, release_panicked false) e refl refl refl
            refl refl
  releases-Fits clearing e = clear-Fits s o h i e
  releases-Fits unlocking e = unlock-Fits s o h i e
  releases-Fits outside e = waits s o h i outside e
  releases-Fits inside e = waits s o h i inside e
  releases-Fits (entering b) e = waits s o h i (entering b) e
  releases-Fits (entering_saw b v) e = waits s o h i (entering_saw b v) e
  releases-Fits spinning e = waits s o h i spinning e
  releases-Fits taken e = waits s o h i taken e
  releases-Fits (acquire_panicked b) e = waits s o h i (acquire_panicked b) e
  releases-Fits (release_panicked b) e = waits s o h i (release_panicked b) e

pub Step-Held : (s t : Machine) (o : Option ℕ) → Held s o → Step s t → (o' : Option ℕ) × Held t o'
Step-Held s t o h st = held st
  where
    with_fits :
        (i : ℕ) (r : Lock × Place)
        → ((o' : Option ℕ) × Fits s o i r o')
        → (o' : Option ℕ) × Held (moved s i r) o'
    with_fits i r (o', f) = (o', Fits-Held s o i r o' h f)

    held : {u : Machine} → Step s u → (o' : Option ℕ) × Held u o'
    held (calls_acquire i) =
        with_fits i (s.lock, call_acquire (s.place i)) (calls_acquire-Fits s o h i (s.place i) refl)
    held (calls_release i) =
        with_fits i (s.lock, call_release (s.place i)) (calls_release-Fits s o h i (s.place i) refl)
    held (acquires i) =
        with_fits i (acquire_step s.lock i (s.place i)) (acquires-Fits s o h i (s.place i) refl)
    held (releases i) =
        with_fits i (release_step s.lock i (s.place i)) (releases-Fits s o h i (s.place i) refl)

pub Reach-Held : {s : Machine} → Reach s → (o : Option ℕ) × Held s o
Reach-Held here = (
  none,
  record { is_holder = λ i. refl; is_marked = λ i. refl; is_free = refl; honest = λ i. tt },
)
Reach-Held (next {s} {t} r st) = let (o, h) = Reach-Held r in Step-Held s t o h st
