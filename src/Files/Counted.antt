-- ===== src/Files/Counted.antt =====
-- The reference count of a file is the number of descriptors that are open on it, in all processes.
use project4final.Proc.Table.{nproc}
use project4final.Files.Totals.{total, total-le, total-change, total-ge}
use project4final.Files.Ftable.{Ofile, Files, fdalloc_from, argfd, Ftable, nofile, with_file}
use project4final.Prelude.{
  ℕ, Option, ◌≡◌, ◌≤◌, ◌<◌, arith, update, none, some, ◌+◌, ==-self, if◌then◌else◌, ◌==◌, ◌≢◌, leb,
  ap, ◌⊎◌, ◌^◌, update_ne, inl, ◌||◌, update_self, suc, inr, Option-cases, zero, refl, ℕ_discrete,
  false, sym, Bool, ◌∙◌, subst, true,
}

-- Whether a descriptor is open on file `f`, and how many are.
abbrev pub on_file : ℕ → Option ℕ → ℕ
on_file f none = 0
on_file f (some g) = if g == f then 1 else 0

abbrev pub open_in : Ofile → ℕ → ℕ
open_in ofile f = total nofile (λ fd. on_file f (ofile fd))

abbrev pub descriptors : Files → ℕ → ℕ
descriptors s f = total nproc (λ p. open_in (s.ofile p) f)

abbrev pub IsCounted : Files → Type 0
IsCounted s = (f : ℕ) → (s.ftable f).ref ≡ descriptors s f

pub on_file-le : (f : ℕ) (o : Option ℕ) → on_file f o ≤ 1
on_file-le f o = ground arith

-- A count fits an int by far.
pub descriptors-small : (s : Files) (f : ℕ) → descriptors s f ≤ 1024
descriptors-small s f =
    total-le nproc 16 (λ p. open_in (s.ofile p) f)
      (λ p. total-le nofile 1 (λ fd. on_file f (s.ofile p fd)) (λ fd. on_file-le f (s.ofile p fd)))

-- Descriptor `fd` of process `p` set to `v`.
abbrev pub set_fd : Files → ℕ → ℕ → Option ℕ → ℕ → Ofile
set_fd s p fd v = update s.ofile p (update (s.ofile p) fd v)

pub descriptors-set_fd :
    (s : Files) (ft : Ftable) (p fd f : ℕ) (v : Option ℕ)
    → p < nproc
    → fd < nofile
    → descriptors (record { ftable = ft; ofile = set_fd s p fd v }) f + on_file f (s.ofile p fd)
      ≡ descriptors s f + on_file f v
descriptors-set_fd s ft p fd f v l m =
    let inner =
      total-change nofile fd (λ x. on_file f (update (s.ofile p) fd v x))
        (λ x. on_file f (s.ofile p x)) m (λ x n. ap (on_file f) (update_ne (s.ofile p) fd v x n)) in
    let outer =
      total-change nproc p (λ q. open_in (set_fd s p fd v q) f) (λ q. open_in (s.ofile q) f) l
        (λ q n. ap (λ o. open_in o f) (update_ne s.ofile p (update (s.ofile p) fd v) q n)) in
    omega (
      arith,
      rw (update_self (s.ofile p) fd v) at inner,
      rw (update_self s.ofile p (update (s.ofile p) fd v)) at outer,
    )

pub descriptors-ge :
    (s : Files) (p fd f : ℕ) → p < nproc → fd < nofile → s.ofile p fd ≡ some f → 0 < descriptors s f
descriptors-ge s p fd f l m e =
    let open_here = rw (e, ==-self f) at (total-ge nofile fd (λ x. on_file f (s.ofile p x)) m) in
    omega (arith, open_here, total-ge nproc p (λ q. open_in (s.ofile q) f) l)

-- What fdalloc finds among `k` descriptors from `fd` on: none free, or the first that is.
abbrev pub Found : ℕ → ℕ → Ofile → ℕ → Ofile × Option ℕ → Type 0
Found k fd ofile f r =
    ((r ≡ (ofile, none)) × ((x : ℕ) → fd ≤ x → x < fd + k → ofile x ≢ none))
    ⊎ ((new : ℕ) × (r ≡ (update ofile new (some f), some new))
        × (fd ≤ new)
        × (new < fd + k)
        × (ofile new ≡ none)
        × ((x : ℕ) → fd ≤ x → x < new → ofile x ≢ none))

pub fdalloc_from-Found :
    (k fd : ℕ) (ofile : Ofile) (f : ℕ) → Found k fd ofile f (fdalloc_from k fd ofile f)
unfolding fdalloc_from
fdalloc_from-Found zero fd ofile f = inl (refl, λ x u v. absurd (omega arith))
fdalloc_from-Found (suc k) fd ofile f = elim (Option-cases (ofile fd)) [
  | inl z ↦
      rw (fdalloc_from, z)
        (inr (fd, refl, omega arith, omega arith, z, λ x u v. absurd (omega arith)))
  | inr (g, e) ↦ rw (fdalloc_from, e) (behind g e (fdalloc_from-Found k (fd + 1) ofile f))
]
  where
    taken :
        (g : ℕ)
        → ofile fd ≡ some g
        → (x : ℕ) → fd ≤ x
        → (fd + 1 ≤ x → ofile x ≢ none)
        → ofile x ≢ none
    taken g e x u n z = elim (ℕ_discrete x fd) [
      | yes q ↦ both (sym z ∙ ap ofile q ∙ e)
      | no q ↦ n (omega arith) z
    ]
      where
        both : none ≡ some g → ⊥
        both q = cc

    behind :
        (g : ℕ)
        → ofile fd ≡ some g
        → {r : Ofile × Option ℕ} → Found k (fd + 1) ofile f r
        → Found (suc k) fd ofile f r
    behind g e (inl (o, n)) = inl (o, λ x u v. taken g e x u (λ w. n x w (omega arith)))
    behind g e (inr (new, o, u, v, z, n)) =
        inr (new, o, omega arith, omega arith, z, λ x u v. taken g e x u (λ w. n x w v))

pub argfd-some :
    (ofile : Ofile) (arg : Option ℕ) (fd f : ℕ)
    → argfd ofile arg ≡ some (fd, f)
    → (fd < nofile) × (ofile fd ≡ some f)
unfolding argfd
argfd-some ofile none fd f e = absurd (cc)
argfd-some ofile (some x) fd f e =
    let (b, o, q) = parts (leb (2 ^ 31) x || leb nofile x) (ofile x) e in
    (subst (λ y. y < nofile) q (below x b), subst (λ y. ofile y ≡ some f) q o)
  where
    below : (x : ℕ) → (leb (2 ^ 31) x || leb nofile x) ≡ false → x < nofile
    below x b = ground arith

    parts :
        (b : Bool) (o : Option ℕ)
        → (if b then none else with_file x o) ≡ some (fd, f)
        → (b ≡ false) × (o ≡ some f) × (x ≡ fd)
    parts true o e = absurd (cc)
    parts false none e = absurd (cc)
    parts false (some g) e = (refl, cc, cc)
