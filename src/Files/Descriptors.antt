-- ===== src/Files/Descriptors.antt =====
-- dup and close of a descriptor keep the reference counts of the files right.
use project4final.Proc.Table.{nproc}
use project4final.Prelude.{
  ℕ, ◌<◌, Option, ◌≡◌, some, ◌+◌, ok, ◌≤◌, minus_one, subst, false, sym, ◌==◌, ◌%◌, arith, none,
  ◌||◌, ◌^◌, ◌⊎◌, leb, ◌≢◌, refl, Option-cases, inl, inr, ℕ_discrete, Outcome, update, ◌-◌, eq→==,
  lt→ltb, ne→==, le→ltb, ap, update_ne, ◌∙◌, ==-self, ◌>>=◌,
}
use project4final.Files.Counted.{
  IsCounted, on_file, set_fd, descriptors-ge, descriptors-set_fd, descriptors-small, descriptors,
  argfd-some, Found, fdalloc_from-Found,
}
use project4final.Files.Ftable.{
  Files, sys_dup, Ftable, nofile, no_reference, filedup, with_ref, argfd, fileclose, dup_found,
  close_found, sys_close, fdalloc, File, fd_none, dup_to, Ofile,
}

-- A file with a descriptor open on it has a reference, and as many as descriptors.
module _ (s : Files) (h : IsCounted s) (p fd f : ℕ) (l : p < nproc) (m : fd < nofile)
    (e : s.ofile p fd ≡ some f) where
  ref-bounds : (0 < (s.ftable f).ref) × ((s.ftable f).ref ≤ 1024)
  ref-bounds = (
    subst (λ n. 0 < n) (sym (h f)) (descriptors-ge s p fd f l m e),
    subst (λ n. n ≤ 1024) (sym (h f)) (descriptors-small s f),
  )

  referenced : no_reference (s.ftable f) ≡ false
  referenced = has_some (s.ftable f).ref ref-bounds.0 ref-bounds.1
    where
      has_some : (n : ℕ) → 0 < n → n ≤ 1024 → (n == 0 || leb (2 ^ 31) n) ≡ false
      has_some n u v = ground arith

  filedup-ok : filedup s.ftable f ≡ ok (with_ref s.ftable f ((s.ftable f).ref + 1))
  unfolding filedup
  filedup-ok = rw (referenced, mod_small (s.ftable f).ref ref-bounds.1) refl
    where
      mod_small : (n : ℕ) → n ≤ 1024 → (n + 1) % 2 ^ 32 ≡ n + 1
      mod_small n v = omega arith

  fileclose-last :
      (s.ftable f).ref ≡ 1
      → fileclose s.ftable f
        ≡ ok (
          update s.ftable f (record (s.ftable f) { ref = 0; type = fd_none }),
          some (record (s.ftable f) { ref = 0 }),
        )
  unfolding fileclose
  fileclose-last q = rw (referenced, le→ltb 0 ((s.ftable f).ref - 1) (omega (arith, q))) refl

  fileclose-other :
      (s.ftable f).ref ≢ 1
      → fileclose s.ftable f ≡ ok (with_ref s.ftable f ((s.ftable f).ref - 1), none)
  unfolding fileclose
  fileclose-other q =
      rw (referenced, lt→ltb 0 ((s.ftable f).ref - 1) (omega (arith, ref-bounds))) refl

-- Files with one descriptor changed are counted if their references are as before, but for what the descriptor counted.
set_fd-IsCounted :
    (s : Files) (ft : Ftable) (p fd : ℕ) (v : Option ℕ)
    → p < nproc
    → fd < nofile
    → IsCounted s
    → ((g : ℕ) → (ft g).ref + on_file g (s.ofile p fd) ≡ (s.ftable g).ref + on_file g v)
    → IsCounted (record { ftable = ft; ofile = set_fd s p fd v })
set_fd-IsCounted s ft p fd v l m h e g =
    balance (ft g).ref (descriptors (record { ftable = ft; ofile = set_fd s p fd v }) g)
      (s.ftable g).ref (descriptors s g) (on_file g (s.ofile p fd)) (on_file g v)
      (descriptors-set_fd s ft p fd g v l m) (e g) (h g)
  where
    balance : (r' d' r d x y : ℕ) → d' + x ≡ d + y → r' + x ≡ r + y → r ≡ d → r' ≡ d'
    balance r' d' r d x y p q e = omega arith

-- What sys_dup and sys_close do to the references, file by file.
dup_counts :
    (ft : Ftable) (f g : ℕ)
    → (with_ref ft f ((ft f).ref + 1) g).ref + 0 ≡ (ft g).ref + on_file g (some f)
dup_counts ft f g = elim (ℕ_discrete g f) [
  | yes q ↦ rw (eq→== g f q, eq→== f g (sym q), q) (omega arith)
  | no q ↦ rw (ne→== g f q, ne→== f g (λ z. q (sym z))) refl
]

close_counts :
    (ft ft' : Ftable) (f g : ℕ)
    → (ft f).ref ≡ (ft' f).ref + 1
    → ((x : ℕ) → x ≢ f → ft' x ≡ ft x)
    → (ft' g).ref + on_file g (some f) ≡ (ft g).ref + 0
close_counts ft ft' f g e n = elim (ℕ_discrete g f) [
  | yes q ↦ rw (eq→== f g (sym q), q) (omega (arith, e))
  | no q ↦ rw (ne→== f g (λ z. q (sym z)), n g q) refl
]

abbrev pub DupCases : Files → ℕ → Option ℕ → Outcome (Files × ℕ) → Type 0
DupCases s p arg r =
    ((r ≡ ok (s, minus_one))
      × ((argfd (s.ofile p) arg ≡ none) ⊎ ((x : ℕ) → x < nofile → s.ofile p x ≢ none)))
    ⊎ ((fd f new : ℕ) × (s' : Files) × (argfd (s.ofile p) arg ≡ some (fd, f))
        × (r ≡ ok (s', new))
        × (s.ofile p new ≡ none)
        × ((x : ℕ) → x < new → s.ofile p x ≢ none)
        × (s'.ofile ≡ set_fd s p new (some f))
        × IsCounted s')

-- sys_dup by a process, with the reference of every file the number of descriptors that are open on it: it returns -1
-- and changes nothing if its argument is no open descriptor or the process has no free one; else it ends with no panic,
-- the first free descriptor is open on the same file, and the references are again right.
pub sys_dup_cases :
    (s : Files) (p : ℕ) (arg : Option ℕ)
    → p < nproc
    → IsCounted s
    → DupCases s p arg (sys_dup s p arg)
unfolding sys_dup dup_found fdalloc dup_to
sys_dup_cases s p arg l h = elim (Option-cases (argfd (s.ofile p) arg)) [
  | inl z ↦ subst (λ o. DupCases s p arg (dup_found s p o)) (sym z) (inl (refl, inl z))
  | inr ((fd, f), e) ↦
      subst (λ o. DupCases s p arg (dup_found s p o)) (sym e)
        (found fd f e (fdalloc_from-Found nofile 0 (s.ofile p) f))
]
  where
    found :
        (fd f : ℕ)
        → argfd (s.ofile p) arg ≡ some (fd, f)
        → {r : Ofile × Option ℕ} → Found nofile 0 (s.ofile p) f r
        → DupCases s p arg (dup_to s p f r)
    found fd f e (inl (q, n)) =
        subst (λ r. DupCases s p arg (dup_to s p f r)) (sym q)
          (inl (refl, inr (λ x. n x (omega arith))))
    found fd f e (inr (new, q, u, v, z, n)) =
        let (m, o) = argfd-some (s.ofile p) arg fd f e in
        subst (λ r. DupCases s p arg (dup_to s p f r)) (sym q)
          (inr (
            fd,
            f,
            new,
            record {
              ftable = with_ref s.ftable f ((s.ftable f).ref + 1);
              ofile = set_fd s p new (some f);
            },
            e,
            ap (λ r. r >>= λ ft. ok (record { ftable = ft; ofile = set_fd s p new (some f) }, new))
                (filedup-ok s h p fd f l m o),
            z,
            (λ x. n x (omega arith)),
            refl,
            set_fd-IsCounted s (with_ref s.ftable f ((s.ftable f).ref + 1)) p new (some f) l v h
                (λ g.
                  ap (λ o. (with_ref s.ftable f ((s.ftable f).ref + 1) g).ref + on_file g o) z
                  ∙ dup_counts s.ftable f g),
          ))

abbrev pub CloseCases : Files → ℕ → Option ℕ → Outcome (Files × Option File × ℕ) → Type 0
CloseCases s p arg r =
    ((argfd (s.ofile p) arg ≡ none) × (r ≡ ok (s, none, minus_one)))
    ⊎ ((fd f : ℕ) × (s' : Files) × (last : Option File) × (argfd (s.ofile p) arg ≡ some (fd, f))
        × (r ≡ ok (s', last, 0))
        × (s'.ofile ≡ set_fd s p fd none)
        × IsCounted s'
        × (((descriptors s' f ≢ 0) × (last ≡ none))
            ⊎ ((descriptors s' f ≡ 0) × (last ≡ some (record (s.ftable f) { ref = 0 })))))

-- What fileclose leaves behind for sys_close.
close_with :
    (s : Files) (p fd f : ℕ) (arg : Option ℕ) (ft : Ftable) (last : Option File)
    → p < nproc
    → IsCounted s
    → argfd (s.ofile p) arg ≡ some (fd, f)
    → fileclose s.ftable f ≡ ok (ft, last)
    → ((x : ℕ) → x ≢ f → ft x ≡ s.ftable x)
    → (s.ftable f).ref ≡ (ft f).ref + 1
    → (((ft f).ref ≢ 0) × (last ≡ none))
      ⊎ (((ft f).ref ≡ 0) × (last ≡ some (record (s.ftable f) { ref = 0 })))
    → CloseCases s p arg (close_found s p (some (fd, f)))
unfolding close_found
close_with s p fd f arg ft last l h e c n k w =
    let (m, o) = argfd-some (s.ofile p) arg fd f e in
    let counted =
      set_fd-IsCounted s ft p fd none l m h
        (λ g. ap (λ o. (ft g).ref + on_file g o) o ∙ close_counts s.ftable ft f g k n) in
    inr (
      fd,
      f,
      record { ftable = ft; ofile = set_fd s p fd none },
      last,
      e,
      ap (λ r. r >>= λ r. ok (record { ftable = r.0; ofile = set_fd s p fd none }, r.1, 0)) c,
      refl,
      counted,
      subst
          (λ n.
            ((n ≢ 0) × (last ≡ none)) ⊎ ((n ≡ 0) × (last ≡ some (record (s.ftable f) { ref = 0 }))))
          (counted f) w,
    )

-- sys_close by a process, with the reference of every file the number of descriptors that are open on it: it returns -1
-- and changes nothing if its argument is no open descriptor; else it ends with no panic, the descriptor is closed, the
-- references are again right, and the file is left to finish exactly if no descriptor is open on it any more.
pub sys_close_cases :
    (s : Files) (p : ℕ) (arg : Option ℕ)
    → p < nproc
    → IsCounted s
    → CloseCases s p arg (sys_close s p arg)
unfolding sys_close close_found
sys_close_cases s p arg l h = elim (Option-cases (argfd (s.ofile p) arg)) [
  | inl z ↦ subst (λ o. CloseCases s p arg (close_found s p o)) (sym z) (inl (z, refl))
  | inr ((fd, f), e) ↦
      subst (λ o. CloseCases s p arg (close_found s p o)) (sym e)
        (closed fd f e (argfd-some (s.ofile p) arg fd f e))
]
  where
    closed :
        (fd f : ℕ)
        → argfd (s.ofile p) arg ≡ some (fd, f)
        → (fd < nofile) × (s.ofile p fd ≡ some f)
        → CloseCases s p arg (close_found s p (some (fd, f)))
    closed fd f e (m, o) = elim (ℕ_discrete (s.ftable f).ref 1) [
      | yes q ↦
          close_with s p fd f arg
            (update s.ftable f (record (s.ftable f) { ref = 0; type = fd_none }))
            (some (record (s.ftable f) { ref = 0 })) l h e (fileclose-last s h p fd f l m o q)
            (λ x n. update_ne s.ftable f (record (s.ftable f) { ref = 0; type = fd_none }) x n)
            (rw (==-self f) q) (inr (rw (==-self f) refl, refl))
      | no q ↦
          close_with s p fd f arg (with_ref s.ftable f ((s.ftable f).ref - 1)) none l h e
            (fileclose-other s h p fd f l m o q)
            (λ x n. update_ne s.ftable f (record (s.ftable f) { ref = (s.ftable f).ref - 1 }) x n)
            (rw (==-self f) (omega (arith, ref-bounds s h p fd f l m o)))
            (inl (rw (==-self f) (omega (arith, ref-bounds s h p fd f l m o)), refl))
    ]
