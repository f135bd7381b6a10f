-- ===== src/Log/Space.antt =====
-- How much of the log the operations at work can use, and that it never holds a block twice.
use project4final.Log.Ops.{
  LogState, absorb, Budgets, begin_op, log_write, end_op, Spends, Leaves, sum, max_op_blocks,
  log_size, committed, Steps, Step, begins, logs, ends, commits,
}
use project4final.Prelude.{
  suc, ℕ, [], ◌∷◌, ◌+◌, ◌*◌, refl, some, ok, true, false, inl, inr, length, List, All, ◌≡◌, Bool,
  ◌≤◌, ◌≢◌, Distinct, arith, Fresh, Bool-cases, ◌<◌, ◌==◌, subst, ==→eq, ==-false, sym, In, ◌∙◌, ap,
  ◌-◌, stop, ◌⊎◌, panic, dec_lt,
}

-- What holds of a log of the size that the disk gives it, LOGSIZE, and of the operations at work on it.
pub record HasSpace (s : LogState × Budgets) : Type 0 where
  pub room : length s.0.lh + sum s.1 ≤ log_size
  pub counted : s.0.outstanding ≡ length s.1
  pub fair : All (λ r. r ≤ max_op_blocks) s.1
  pub distinct : Distinct s.0.lh
  pub whole : s.0.size ≡ log_size
  pub alone : s.0.committing ≡ true → s.1 ≡ []

length-absorb : (b : ℕ) (xs : List ℕ) → length (absorb b xs) ≤ length xs + 1
unfolding absorb
length-absorb b [] = omega arith
length-absorb b (x ∷ xs) = ground (arith, length-absorb b xs)

Fresh-absorb : (a b : ℕ) (xs : List ℕ) → b ≢ a → Fresh a xs → Fresh a (absorb b xs)
unfolding absorb
Fresh-absorb a b [] n f = (n, tt)
Fresh-absorb a b (x ∷ xs) n f = ground (arith, Fresh-absorb a b xs n f.1)

pub Distinct-absorb : (b : ℕ) (xs : List ℕ) → Distinct xs → Distinct (absorb b xs)
unfolding absorb
Distinct-absorb b [] d = (tt, tt)
Distinct-absorb b (x ∷ xs) d = elim (Bool-cases (x == b)) [
  | inl e ↦ rw e (subst (λ y. Fresh y xs) (==→eq x b e) d.0, d.1)
  | inr n ↦ rw n (Fresh-absorb x b xs (λ q. ==-false x b n (sym q)) d.0, Distinct-absorb b xs d.1)
]

In-absorb : (x : ℕ) (xs : List ℕ) → In x (absorb x xs)
unfolding absorb
In-absorb x [] = inl refl
In-absorb x (y ∷ ys) = elim (Bool-cases (y == x)) [
  | inl e ↦ rw e (inl refl)
  | inr n ↦ rw n (inr (In-absorb x ys))
]

pub Spends-sum :
    {rs qs : Budgets} → Spends rs qs → (sum rs ≡ suc (sum qs)) × (length rs ≡ length qs)
Spends-sum (Spends.this r rs) = (omega arith, refl)
Spends-sum (Spends.other r s) = let h = Spends-sum s in (omega arith, omega arith)

Spends-All :
    {rs qs : Budgets}
    → Spends rs qs
    → All (λ r. r ≤ max_op_blocks) rs
    → All (λ r. r ≤ max_op_blocks) qs
Spends-All (Spends.this r rs) a = (omega arith, a.1)
Spends-All (Spends.other r s) a = (a.0, Spends-All s a.1)

Leaves-sum : {rs qs : Budgets} → Leaves rs qs → (sum qs ≤ sum rs) × (length rs ≡ suc (length qs))
Leaves-sum (Leaves.this r rs) = (omega arith, refl)
Leaves-sum (Leaves.other r s) = let h = Leaves-sum s in (omega arith, omega arith)

Leaves-All :
    {rs qs : Budgets}
    → Leaves rs qs
    → All (λ r. r ≤ max_op_blocks) rs
    → All (λ r. r ≤ max_op_blocks) qs
Leaves-All (Leaves.this r rs) a = a.1
Leaves-All (Leaves.other r s) a = (a.0, Leaves-All s a.1)

sum-le : (rs : Budgets) → All (λ r. r ≤ max_op_blocks) rs → sum rs ≤ length rs * max_op_blocks
sum-le [] a = omega arith
sum-le (r ∷ rs) a = omega (arith, a.0, sum-le rs a.1)

-- What each operation makes of the state where it does not sleep or panic.
begin_op-some :
    (l l' : LogState)
    → begin_op l ≡ some l'
    → (l.committing ≡ false)
      × (length l.lh + (l.outstanding + 1) * max_op_blocks ≤ log_size)
      × (l' ≡ record l { outstanding = l.outstanding + 1 })
unfolding begin_op
begin_op-some l l' e = ground arith

log_write-ok :
    (l l' : LogState) (b : ℕ) → log_write l b ≡ ok l' → l' ≡ record l { lh = absorb b l.lh }
unfolding log_write
log_write-ok l l' b e = ground arith

end_op-ok :
    (l l' : LogState) (last : Bool)
    → end_op l ≡ ok (l', last)
    → (l.committing ≡ false)
      × (l'.lh ≡ l.lh)
      × (l'.size ≡ l.size)
      × (l.outstanding ≡ l'.outstanding + 1)
      × (l'.committing ≡ true → l'.outstanding ≡ 0)
unfolding end_op
end_op-ok l l' last e = ground arith

Step-HasSpace : {s t : LogState × Budgets} → Step s t → HasSpace s → HasSpace t
unfolding committed
Step-HasSpace (begins l l' rs e) h =
    let (c, g, q) = begin_op-some l l' e in
    subst (λ k. HasSpace (k, max_op_blocks ∷ rs)) (sym q)
      (record {
        room = omega (arith, h.counted, sum-le rs h.fair);
        counted = omega (arith, h.counted);
        fair = (omega arith, h.fair);
        distinct = h.distinct;
        whole = h.whole;
        alone = λ z. cc (z, c);
      })
Step-HasSpace (logs l l' rs qs b s e) h =
    let (a, k) = Spends-sum s in
    subst (λ k. HasSpace (k, qs)) (sym (log_write-ok l l' b e))
      (record {
        room = omega (arith, h.room, length-absorb b l.lh);
        counted = h.counted ∙ k;
        fair = Spends-All s h.fair;
        distinct = Distinct-absorb b l.lh h.distinct;
        whole = h.whole;
        alone = λ z. absurd (omega (arith, a, ap sum (h.alone z)));
      })
Step-HasSpace (ends l l' rs qs last s e) h =
    let (a, k) = Leaves-sum s in
    let (c, p, z, o, y) = end_op-ok l l' last e in
    record {
      room = rw p (omega (arith, h.room));
      counted = omega (arith, h.counted);
      fair = Leaves-All s h.fair;
      distinct = rw p h.distinct;
      whole = z ∙ h.whole;
      alone = λ w. no_length qs (omega (arith, y w, h.counted));
    }
  where
    no_length : (xs : List ℕ) → length xs ≡ 0 → xs ≡ []
    no_length [] q = refl
    no_length (x ∷ xs) q = absurd (omega arith)
Step-HasSpace (commits l rs c) h = record {
  room = omega (arith, ap sum (h.alone c));
  counted = h.counted;
  fair = h.fair;
  distinct = tt;
  whole = h.whole;
  alone = λ z. cc;
}

pub Steps-HasSpace : {s t : LogState × Budgets} → Steps s t → HasSpace s → HasSpace t
Steps-HasSpace Steps.here h = h
Steps-HasSpace (Steps.next r s) h = Step-HasSpace s (Steps-HasSpace r h)

pub log_write_fits :
    (l : LogState) (b : ℕ)
    → l.size ≡ log_size
    → length l.lh < log_size - 1
    → 0 < l.outstanding
    → log_write l b ≡ ok (record l { lh = absorb b l.lh })
unfolding log_write
log_write_fits l b z k o = ground arith

pub log_write_full :
    (l : LogState) (b : ℕ)
    → l.size ≡ log_size
    → log_size - 1 ≤ length l.lh
    → log_write l b ≡ stop panic
unfolding log_write
log_write_full l b z k = ground arith

pub log_write_cases :
    {s t : LogState × Budgets} (qs : Budgets) (b : ℕ)
    → HasSpace s
    → Steps s t
    → Spends t.1 qs
    → ((length t.0.lh < log_size - 1)
        × ((l : LogState) × (log_write t.0 b ≡ ok l)
            × (length l.lh ≤ log_size - 1)
            × In b l.lh
            × Distinct l.lh))
      ⊎ ((length t.0.lh ≡ log_size - 1) × (sum t.1 ≡ 1) × (log_write t.0 b ≡ stop panic))
log_write_cases {s} {t} qs b h steps sp =
    let g = Steps-HasSpace steps h in
    let (a, k) = Spends-sum sp in
    elim (dec_lt (length t.0.lh) (log_size - 1)) [
      | yes v ↦ inl (
        v,
        (
          record (t.0) { lh = absorb b t.0.lh },
          log_write_fits t.0 b g.whole v (omega (arith, g.counted, ne_empty sp)),
          omega (arith, length-absorb b t.0.lh, v),
          In-absorb b t.0.lh,
          Distinct-absorb b t.0.lh g.distinct,
        ),
      )
      | no n ↦ inr (
        omega (arith, g.room, a),
        omega (arith, g.room, a),
        log_write_full t.0 b g.whole (omega arith),
      )
    ]
  where
    ne_empty : {rs ps : Budgets} → Spends rs ps → 0 < length rs
    ne_empty (Spends.this r rs) = omega arith
    ne_empty (Spends.other r z) = omega arith
