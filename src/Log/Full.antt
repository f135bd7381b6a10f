-- ===== src/Log/Full.antt =====
-- The budget of begin_op is one block larger than the log: three operations can use it up.
use project4final.Log.Space.{Spends-sum, log_write_fits, log_write_full}
use project4final.Prelude.{
  ℕ, List, [], ◌<◌, Fresh, Distinct, false, ◌≡◌, All, ◌∷◌, length, ◌++◌, arith, ne→==, Fresh-append,
  ◌+◌, ◌-◌, refl, ap, sym, ◌≤◌, suc, subst, stop, zero, panic, ◌∙◌, ok,
}
use project4final.Log.Ops.{
  LogState, Budgets, absorb, begin_op, Steps, sum, log_size, Spends, begins, log_write, logs,
}
use mathlib.Core.List.{append-nil, append_assoc}

-- The log as initlog leaves it, with the size that the disk gives.
abbrev pub fresh_log : LogState
fresh_log = record { lh = []; outstanding = 0; committing = false; size = log_size }

spend_one : (rs : Budgets) → 0 < sum rs → (qs : Budgets) × Spends rs qs
spend_one [] l = absurd (omega arith)
spend_one (zero ∷ rs) l = let (qs, s) = spend_one rs (omega arith) in (0 ∷ qs, Spends.other 0 s)
spend_one (suc r ∷ rs) l = (r ∷ rs, Spends.this r rs)

absorb-append : (b : ℕ) (xs : List ℕ) → Fresh b xs → absorb b xs ≡ xs ++ (b ∷ [])
unfolding absorb
absorb-append b [] f = refl
absorb-append b (x ∷ xs) f = rw (ne→== x b f.0) (ap (λ ys. x ∷ ys) (absorb-append b xs f.1))

still_Fresh :
    (b : ℕ) (lh bs : List ℕ)
    → Fresh b bs
    → All (λ x. Fresh x lh) bs
    → All (λ x. Fresh x (lh ++ (b ∷ []))) bs
still_Fresh b lh [] f a = tt
still_Fresh b lh (x ∷ bs) f a =
    (Fresh-append x lh (b ∷ []) a.0 ((λ e. f.0 (sym e)), tt), still_Fresh b lh bs f.1 a.1)

-- Operations with a budget for them log blocks that are new.
log_new_blocks :
    {s : LogState × Budgets} (bs : List ℕ) (l : LogState) (rs : Budgets)
    → Steps s (l, rs)
    → l.size ≡ log_size
    → 0 < l.outstanding
    → length l.lh + length bs ≤ log_size - 1
    → length bs ≤ sum rs
    → Distinct bs
    → All (λ x. Fresh x l.lh) bs
    → (qs : Budgets) × (sum qs + length bs ≡ sum rs) × Steps s (record l { lh = l.lh ++ bs }, qs)
log_new_blocks {s} [] l rs st z o k m d a =
    (rs, omega arith, subst (λ xs. Steps s (record l { lh = xs }, rs)) (sym (append-nil l.lh)) st)
log_new_blocks {s} (b ∷ bs) l rs st z o k m d a =
    let (ps, sp) = spend_one rs (omega arith) in
    let (u, v) = Spends-sum sp in
    let l' = record l { lh = l.lh ++ (b ∷ []) } in
    let wrote =
      log_write_fits l b z (omega arith) o
      ∙ ap (λ xs. ok (record l { lh = xs })) (absorb-append b l.lh a.0) in
    let (qs, w, st') =
      log_new_blocks bs l' ps (Steps.next st (logs l l' rs ps b sp wrote)) z o
        (omega (arith, length-snoc l.lh b)) (omega (arith, u)) d.1
        (still_Fresh b l.lh bs d.0 a.1) in
    (
      qs,
      omega (arith, u, w),
      subst (λ xs. Steps s (record l { lh = xs }, qs)) (append_assoc l.lh (b ∷ []) bs) st',
    )
  where
    length-snoc : (xs : List ℕ) (b : ℕ) → length (xs ++ (b ∷ [])) ≡ length xs + 1
    length-snoc [] b = refl
    length-snoc (x ∷ xs) b = omega (arith, length-snoc xs b)

three_begun : Steps (fresh_log, []) (record fresh_log { outstanding = 3 }, 10 ∷ 10 ∷ 10 ∷ [])
unfolding begin_op
three_begun =
    Steps.next
      (Steps.next
        (Steps.next Steps.here (begins fresh_log (record fresh_log { outstanding = 1 }) [] refl))
        (begins (record fresh_log { outstanding = 1 }) (record fresh_log { outstanding = 2 })
          (10 ∷ []) refl))
      (begins (record fresh_log { outstanding = 2 }) (record fresh_log { outstanding = 3 })
        (10 ∷ 10 ∷ []) refl)

-- For any LOGSIZE - 1 different blocks, three operations that begin on a fresh log and stay within MAXOPBLOCKS blocks
-- each can have logged them, with one block left to one of them: the log_write of it panics.
pub log_write_panics_in_budget :
    (bs : List ℕ) (b : ℕ)
    → Distinct bs
    → length bs ≡ log_size - 1
    → (l : LogState) × (qs : Budgets) × Steps (fresh_log, []) (l, qs)
      × (sum qs ≡ 1)
      × (log_write l b ≡ stop panic)
log_write_panics_in_budget bs b d n =
    let (qs, w, st) =
      log_new_blocks bs (record fresh_log { outstanding = 3 }) (10 ∷ 10 ∷ 10 ∷ []) three_begun refl
        (omega arith) (omega (arith, n)) (omega (arith, n)) d (no_blocks bs) in
    (
      record fresh_log { outstanding = 3; lh = bs },
      qs,
      st,
      omega (arith, w, n),
      log_write_full (record fresh_log { outstanding = 3; lh = bs }) b refl (omega (arith, n)),
    )
  where
    no_blocks : (bs : List ℕ) → All (λ x. Fresh x []) bs
    no_blocks [] = tt
    no_blocks (x ∷ bs) = (tt, no_blocks bs)
