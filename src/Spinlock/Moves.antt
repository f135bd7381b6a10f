-- ===== src/Spinlock/Moves.antt =====
-- The steps of acquire and release that change a spin lock.
use project4final.Spinlock.Holders.{
  Held, has_lock, has_mark, Fits, IsHonest, holder-eq, stays, is_none, no_mark, no_other,
}
use project4final.Prelude.{
  Option, ℕ, ◌≡◌, Bool, true, ◌==◌, subst, some, ◌≢◌, arith, false, refl, ap, ◌∙◌, not, sym, ◌&&◌,
  ne→==, ==-false, none, ==-self, ℕ_discrete, eq→==,
}
use project4final.Spinlock.Lock.{
  Machine, Place, Lock, call_acquire, call_release, holds_read, same_cpu, acquire_step,
  release_step, spinning, clearing, unlocking, taken,
}

-- Processor `i` of a state that holds, at place `p`.
module _ (s : Machine) (o : Option ℕ) (h : Held s o) (i : ℕ) where
  holder_at : (p : Place) → s.place i ≡ p → has_lock p ≡ true → o ≡ some i
  holder_at p e l = holder-eq s o h i (ap has_lock e ∙ l)

  pub not_free : (p : Place) → s.place i ≡ p → has_lock p ≡ true → s.lock.locked ≢ 0
  not_free p e l z = no_holder (h.is_free ∙ ap is_none (holder_at p e l))
    where
      no_holder : (s.lock.locked == 0) ≡ false → ⊥
      no_holder q = ==-false s.lock.locked 0 q z

  -- What holding answers on a processor that has read `v` from `locked`.
  pub read_right :
      (p : Place) (held : Bool) (v : ℕ)
      → s.place i ≡ p
      → has_mark p ≡ held
      → (held ≡ true → v ≢ 0)
      → holds_read v s.lock.cpu i ≡ held
  read_right p held v e m n = by_held held (sym m ∙ sym (ap has_mark e) ∙ h.is_marked i) n
    where
      and_false : (b : Bool) → (b && false) ≡ false
      and_false true = refl
      and_false false = refl

      by_held :
          (held : Bool)
          → held ≡ same_cpu s.lock.cpu i
          → (held ≡ true → v ≢ 0)
          → holds_read v s.lock.cpu i ≡ held
      by_held true q n = ap (λ b. not b && same_cpu s.lock.cpu i) (ne→== v 0 (n refl)) ∙ sym q
      by_held false q n = ap (λ b. not (v == 0) && b) (sym q) ∙ and_false (not (v == 0))

  pub stays_at :
      (p : Place) (r : Lock × Place)
      → s.place i ≡ p
      → has_lock r.1 ≡ has_lock p
      → has_mark r.1 ≡ has_mark p
      → r.0.cpu ≡ s.lock.cpu
      → (r.0.locked == 0) ≡ (s.lock.locked == 0)
      → IsHonest r.1
      → (o' : Option ℕ) × Fits s o i r o'
  stays_at p r e a b c d k =
      (o, stays s o i r h (a ∙ sym (ap has_lock e)) (b ∙ sym (ap has_mark e)) c d k)

  pub waits : (p : Place) → s.place i ≡ p → (o' : Option ℕ) × Fits s o i (s.lock, p) o'
  waits p e = stays_at p (s.lock, p) e refl refl refl refl (subst IsHonest e (h.honest i))

  pub calls_acquire-Fits :
      (p : Place) → s.place i ≡ p → (o' : Option ℕ) × Fits s o i (s.lock, call_acquire p) o'
  calls_acquire-Fits p e =
      stays_at p (s.lock, call_acquire p) e (same_lock p) (same_mark p) refl refl
        (honest_call p (subst IsHonest e (h.honest i)))
    where
      same_lock : (p : Place) → has_lock (call_acquire p) ≡ has_lock p
      same_lock p = ground arith

      same_mark : (p : Place) → has_mark (call_acquire p) ≡ has_mark p
      same_mark p = ground arith

      honest_call : (p : Place) → IsHonest p → IsHonest (call_acquire p)
      honest_call p k = ground arith

  pub calls_release-Fits :
      (p : Place) → s.place i ≡ p → (o' : Option ℕ) × Fits s o i (s.lock, call_release p) o'
  calls_release-Fits p e =
      stays_at p (s.lock, call_release p) e (same_lock p) (same_mark p) refl refl
        (honest_call p (subst IsHonest e (h.honest i)))
    where
      same_lock : (p : Place) → has_lock (call_release p) ≡ has_lock p
      same_lock p = ground arith

      same_mark : (p : Place) → has_mark (call_release p) ≡ has_mark p
      same_mark p = ground arith

      honest_call : (p : Place) → IsHonest p → IsHonest (call_release p)
      honest_call p k = ground arith

  -- xchg by a processor that spins: it has the lock if the lock was free.
  pub xchg-Fits :
      s.place i ≡ spinning → (o' : Option ℕ) × Fits s o i (acquire_step s.lock i spinning) o'
  unfolding acquire_step
  xchg-Fits e = elim (ℕ_discrete s.lock.locked 0) [
    | yes z ↦
        rw (eq→== s.lock.locked 0 z)
          (some i, won (was_free o (sym h.is_free ∙ eq→== s.lock.locked 0 z)))
    | no n ↦ rw (ne→== s.lock.locked 0 n) (
        stays_at spinning (record s.lock { locked = 1 }, spinning) e refl refl refl
          (sym (ne→== s.lock.locked 0 n)) tt)
  ]
    where
      was_free : (o : Option ℕ) → is_none o ≡ true → o ≡ none
      was_free none q = refl
      was_free (some j) q = absurd (cc)

      won : o ≡ none → Fits s o i (record s.lock { locked = 1 }, taken) (some i)
      won z = record {
        holder_here = sym (==-self i);
        holder_else = λ j n. ne→== i j (λ q. n (sym q)) ∙ ap (λ o. same_cpu o j) (sym z);
        mark_here = sym (ap has_mark e) ∙ h.is_marked i;
        mark_else = λ j n. refl;
        free_after = refl;
        honest_here = tt;
      }

  pub own-Fits : s.place i ≡ taken → (o' : Option ℕ) × Fits s o i (acquire_step s.lock i taken) o'
  unfolding acquire_step
  own-Fits e = (
    o,
    record {
      holder_here = sym (ap has_lock e) ∙ h.is_holder i;
      holder_else = λ j n. refl;
      mark_here = sym (==-self i);
      mark_else = λ j n. ne→== i j (λ q. n (sym q)) ∙ sym (no_mark s o h i (ap has_lock e) j n);
      free_after = h.is_free;
      honest_here = tt;
    },
  )

  pub clear-Fits :
      s.place i ≡ clearing → (o' : Option ℕ) × Fits s o i (release_step s.lock i clearing) o'
  unfolding release_step
  clear-Fits e = (
    o,
    record {
      holder_here = sym (ap has_lock e) ∙ h.is_holder i;
      holder_else = λ j n. refl;
      mark_here = refl;
      mark_else = λ j n. sym (no_mark s o h i (ap has_lock e) j n);
      free_after = h.is_free;
      honest_here = tt;
    },
  )

  pub unlock-Fits :
      s.place i ≡ unlocking → (o' : Option ℕ) × Fits s o i (release_step s.lock i unlocking) o'
  unfolding release_step
  unlock-Fits e = (
    none,
    record {
      holder_here = refl;
      holder_else = λ j n. sym (no_other s o h i (ap has_lock e) j n) ∙ h.is_holder j;
      mark_here = sym (ap has_mark e) ∙ h.is_marked i;
      mark_else = λ j n. refl;
      free_after = refl;
      honest_here = tt;
    },
  )
