-- ===== src/Proc/Scan.antt =====
-- About the scan of wait for children.
use project4final.Proc.Life.{same_entry, find_zombie}
use project4final.Proc.View.{state_of}
use project4final.Proc.Table.{
  Ptable, unused, zombie, running, runnable, same_state, ProcState, embryo, sleeping,
}
use project4final.Prelude.{
  ℕ, ◌≡◌, Option, Bool, some, true, ◌⊎◌, arith, false, ◌↔◌, inl, ◌≢◌, ◌≤◌, suc, inr, ℕ_discrete,
  ◌<◌, zero, eq→==, ◌+◌, subst, ap, sym, refl, ne→==, none,
}

-- Entry `p` is a child of `proc`; a child that has ended.
abbrev pub IsKid : Ptable → ℕ → ℕ → Type 0
IsKid t proc p = (t.proc p).parent ≡ some proc

abbrev pub IsEndedKid : Ptable → ℕ → ℕ → Type 0
IsEndedKid t proc p = IsKid t proc p × (state_of t p ≡ zombie)

same_entry_cases :
    (o : Option ℕ) (p : ℕ)
    → ((same_entry o p ≡ true) × (o ≡ some p)) ⊎ ((same_entry o p ≡ false) × (o ≢ some p))
same_entry_cases none p = inr (refl, λ e. cc)
same_entry_cases (some q) p = elim (ℕ_discrete q p) [
  | yes e ↦ inl (eq→== q p e, ap some e)
  | no n ↦ inr (ne→== q p n, λ e. n (inside e))
]
  where
    inside : some q ≡ some p → q ≡ p
    inside e = cc

zombie_cases :
    (s : ProcState)
    → ((same_state s zombie ≡ true) × (s ≡ zombie)) ⊎ ((same_state s zombie ≡ false) × (s ≢ zombie))
zombie_cases unused = inr (refl, λ e. cc)
zombie_cases embryo = inr (refl, λ e. cc)
zombie_cases sleeping = inr (refl, λ e. cc)
zombie_cases runnable = inr (refl, λ e. cc)
zombie_cases running = inr (refl, λ e. cc)
zombie_cases zombie = inl (refl, refl)

-- What the scan of the entries from `p` up to `p + k` says.
abbrev pub Scanned : Ptable → ℕ → ℕ → ℕ → Bool → ℕ ⊎ Bool → Type 0
Scanned t proc p k havekids (inl c) =
    (p ≤ c) × (c < p + k) × IsEndedKid t proc c × ((x : ℕ) → p ≤ x → x < c → ¬ IsEndedKid t proc x)
Scanned t proc p k havekids (inr h) =
    ((x : ℕ) → p ≤ x → x < p + k → ¬ IsEndedKid t proc x)
    × ((h ≡ true) ↔ ((havekids ≡ true) ⊎ ((x : ℕ) × (p ≤ x) × (x < p + k) × IsKid t proc x)))

-- From the scan of the entries behind `p`, when `p` has not ended.
later :
    (t : Ptable) (proc p k : ℕ) (before havekids : Bool) (o : ℕ ⊎ Bool)
    → ¬ IsEndedKid t proc p
    → ((havekids ≡ true) ↔ ((before ≡ true) ⊎ IsKid t proc p))
    → Scanned t proc (suc p) k havekids o
    → Scanned t proc p (suc k) before o
later t proc p k before havekids (inl c) n f (u, v, w, x) = (omega arith, omega arith, w, at_first)
  where
    at_first : (y : ℕ) → p ≤ y → y < c → ¬ IsEndedKid t proc y
    at_first y l m = elim (ℕ_discrete y p) [
      | yes e ↦ subst (λ z. ¬ IsEndedKid t proc z) (sym e) n
      | no q ↦ x y (omega arith) m
    ]
later t proc p k before havekids (inr h) n f (u, v) =
    (none_ended, ((λ e. forward (v.0 e)), backward))
  where
    none_ended : (y : ℕ) → p ≤ y → y < p + suc k → ¬ IsEndedKid t proc y
    none_ended y l m = elim (ℕ_discrete y p) [
      | yes e ↦ subst (λ z. ¬ IsEndedKid t proc z) (sym e) n
      | no q ↦ u y (omega arith) (omega arith)
    ]

    forward :
        (havekids ≡ true) ⊎ ((x : ℕ) × (suc p ≤ x) × (x < suc p + k) × IsKid t proc x)
        → (before ≡ true) ⊎ ((x : ℕ) × (p ≤ x) × (x < p + suc k) × IsKid t proc x)
    forward (inl e) = elim (f.0 e) [
      | inl b ↦ inl b
      | inr kid ↦ inr (p, omega arith, omega arith, kid)
    ]
    forward (inr (x, l, m, kid)) = inr (x, omega arith, omega arith, kid)

    backward : (before ≡ true) ⊎ ((x : ℕ) × (p ≤ x) × (x < p + suc k) × IsKid t proc x) → h ≡ true
    backward (inl b) = v.1 (inl (f.1 (inl b)))
    backward (inr (x, l, m, kid)) = elim (ℕ_discrete x p) [
      | yes e ↦ v.1 (inl (f.1 (inr (subst (λ z. IsKid t proc z) e kid))))
      | no q ↦ v.1 (inr (x, omega arith, omega arith, kid))
    ]

pub find_zombie_lem :
    (k p : ℕ) (t : Ptable) (proc : ℕ) (havekids : Bool)
    → Scanned t proc p k havekids (find_zombie k p t proc havekids)
unfolding find_zombie
find_zombie_lem zero p t proc havekids = (
  (λ x l m. absurd (omega arith)),
  ((λ e. inl e), elim [ inl e ↦ e | inr (x, l, m, kid) ↦ absurd (omega arith) ]),
)
find_zombie_lem (suc k) p t proc havekids = elim (same_entry_cases (t.proc p).parent proc) [
  | inr (e, n) ↦ rw e (
      later t proc p k havekids havekids (find_zombie k (suc p) t proc havekids) (λ z. n z.0)
        ((λ h. inl h), elim [ inl h ↦ h | inr kid ↦ absurd (n kid) ])
        (find_zombie_lem k (suc p) t proc havekids))
  | inl (e, kid) ↦ elim (zombie_cases (state_of t p)) [
    | inl (g, z) ↦ rw (e, g) (omega arith, omega arith, (kid, z), λ x l m. absurd (omega arith))
    | inr (g, n) ↦
        rw (e, g)
          (later t proc p k havekids true (find_zombie k (suc p) t proc true) (λ z. n z.1)
            ((λ h. inr kid), λ h. refl) (find_zombie_lem k (suc p) t proc true))
  ]
]
