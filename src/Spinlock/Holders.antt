-- ===== src/Spinlock/Holders.antt =====
-- What holds of a spin lock in every state that its processors can reach.
use project4final.Prelude.{
  Option, Bool, ℕ, ◌≡◌, true, false, ◌≢◌, ◌==◌, some, ap, sym, ◌∙◌, ℕ_discrete, none, ==→eq, ne→==,
  subst, refl, update, update_self, update_ne,
}
use project4final.Spinlock.Lock.{
  taken, unlocking, clearing, spinning, Place, Machine, entering_saw, same_cpu, Lock, moved,
  entering, leaving, leaving_saw, acquire_panicked, release_panicked, inside, outside,
}

-- The processors that have taken the lock by xchg and not given it back; a call from inside is by one that has.
abbrev pub has_lock : Place → Bool
has_lock inside = true
has_lock (entering held) = held
has_lock (entering_saw held v) = held
has_lock taken = true
has_lock (leaving held) = held
has_lock (leaving_saw held v) = held
has_lock clearing = true
has_lock unlocking = true
has_lock (acquire_panicked held) = held
has_lock (release_panicked held) = held
has_lock _ = false

-- Those whose mark is in the field `cpu`.
abbrev pub has_mark : Place → Bool
has_mark taken = false
has_mark unlocking = false
has_mark p = has_lock p

-- What a processor has read from `locked`, and why one panics.
abbrev pub IsHonest : Place → Type 0
IsHonest (entering_saw held v) = held ≡ true → v ≢ 0
IsHonest (leaving_saw held v) = held ≡ true → v ≢ 0
IsHonest (acquire_panicked held) = held ≡ true
IsHonest (release_panicked held) = held ≡ false
IsHonest _ = Unit

abbrev pub is_none : Option ℕ → Bool
is_none none = true
is_none (some i) = false

-- A state with the holder that the lock has, if any.
pub record Held (s : Machine) (holder : Option ℕ) : Type 0 where
  pub is_holder : (i : ℕ) → has_lock (s.place i) ≡ same_cpu holder i
  pub is_marked : (i : ℕ) → has_mark (s.place i) ≡ same_cpu s.lock.cpu i
  pub is_free : (s.lock.locked == 0) ≡ is_none holder
  pub honest : (i : ℕ) → IsHonest (s.place i)

pub has_mark_lock : (p : Place) → has_lock p ≡ false → has_mark p ≡ false
has_mark_lock taken h = refl
has_mark_lock unlocking h = refl
has_mark_lock outside h = h
has_mark_lock inside h = h
has_mark_lock (entering b) h = h
has_mark_lock (entering_saw b v) h = h
has_mark_lock spinning h = h
has_mark_lock (leaving b) h = h
has_mark_lock (leaving_saw b v) h = h
has_mark_lock clearing h = h
has_mark_lock (acquire_panicked b) h = h
has_mark_lock (release_panicked b) h = h

pub same_cpu-eq : (o : Option ℕ) (i : ℕ) → same_cpu o i ≡ true → o ≡ some i
same_cpu-eq none i h = absurd (cc)
same_cpu-eq (some j) i h = ap some (==→eq j i h)

-- A processor that has the lock is the only one.
module _ (s : Machine) (o : Option ℕ) (h : Held s o) (i : ℕ) (l : has_lock (s.place i) ≡ true) where
  pub holder-eq : o ≡ some i
  holder-eq = same_cpu-eq o i (sym (h.is_holder i) ∙ l)

  pub no_other : (j : ℕ) → j ≢ i → has_lock (s.place j) ≡ false
  no_other j n = h.is_holder j ∙ ap (λ o. same_cpu o j) holder-eq ∙ ne→== i j (λ e. n (sym e))

  pub no_mark : (j : ℕ) → j ≢ i → same_cpu s.lock.cpu j ≡ false
  no_mark j n = sym (h.is_marked j) ∙ has_mark_lock (s.place j) (no_other j n)

-- A step of processor `i` to lock `r.0` and place `r.1` keeps the invariant for a holder `o'` if it fits them and
-- leaves the other processors as they were.
pub record Fits (s : Machine) (o : Option ℕ) (i : ℕ) (r : Lock × Place) (o' : Option ℕ)
    : Type 0 where
  pub holder_here : has_lock r.1 ≡ same_cpu o' i
  pub holder_else : (j : ℕ) → j ≢ i → same_cpu o' j ≡ same_cpu o j
  pub mark_here : has_mark r.1 ≡ same_cpu r.0.cpu i
  pub mark_else : (j : ℕ) → j ≢ i → same_cpu r.0.cpu j ≡ same_cpu s.lock.cpu j
  pub free_after : (r.0.locked == 0) ≡ is_none o'
  pub honest_here : IsHonest r.1

pub Fits-Held :
    (s : Machine) (o : Option ℕ) (i : ℕ) (r : Lock × Place) (o' : Option ℕ)
    → Held s o
    → Fits s o i r o'
    → Held (moved s i r) o'
Fits-Held s o i r o' h f = record {
  is_holder = λ j.
      at_or_not j (λ j. has_lock (update s.place i r.1 j) ≡ same_cpu o' j)
        (ap has_lock (update_self s.place i r.1) ∙ f.holder_here)
        (λ n. ap has_lock (update_ne s.place i r.1 j n) ∙ h.is_holder j ∙ sym (f.holder_else j n));
  is_marked = λ j.
      at_or_not j (λ j. has_mark (update s.place i r.1 j) ≡ same_cpu r.0.cpu j)
        (ap has_mark (update_self s.place i r.1) ∙ f.mark_here)
        (λ n. ap has_mark (update_ne s.place i r.1 j n) ∙ h.is_marked j ∙ sym (f.mark_else j n));
  is_free = f.free_after;
  honest = λ j.
      at_or_not j (λ j. IsHonest (update s.place i r.1 j))
        (subst IsHonest (sym (update_self s.place i r.1)) f.honest_here)
        (λ n. subst IsHonest (sym (update_ne s.place i r.1 j n)) (h.honest j));
}
  where
    at_or_not : (j : ℕ) (P : ℕ → Type 0) → P i → (j ≢ i → P j) → P j
    at_or_not j P a b = elim (ℕ_discrete j i) [ yes e ↦ subst P (sym e) a | no n ↦ b n ]

-- A step that leaves the mark and the holder, and sets `locked` to no other truth.
pub stays :
    (s : Machine) (o : Option ℕ) (i : ℕ) (r : Lock × Place)
    → Held s o
    → has_lock r.1 ≡ has_lock (s.place i)
    → has_mark r.1 ≡ has_mark (s.place i)
    → r.0.cpu ≡ s.lock.cpu
    → (r.0.locked == 0) ≡ (s.lock.locked == 0)
    → IsHonest r.1
    → Fits s o i r o
stays s o i r h a b c d e = record {
  holder_here = a ∙ h.is_holder i;
  holder_else = λ j n. refl;
  mark_here = b ∙ h.is_marked i ∙ ap (λ c. same_cpu c i) (sym c);
  mark_else = λ j n. ap (λ c. same_cpu c j) c;
  free_after = d ∙ h.is_free;
  honest_here = e;
}
