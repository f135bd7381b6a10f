-- ===== src/Log/Ops.antt =====
-- begin_op, log_write and end_op of log.c: which blocks a transaction may log, and who may join it.
use project4final.Prelude.{
  suc, ℕ, [], ◌∷◌, ◌+◌, ◌*◌, none, some, ok, stop, panic, true, false, List, Option, Outcome, ◌≡◌,
  Bool, if◌then◌else◌, ltb, ◌==◌, leb, length, ◌-◌, ◌||◌,
}

abbrev pub max_op_blocks : ℕ
max_op_blocks = 10

abbrev pub log_size : ℕ
log_size = 30

-- struct log. `lh` is the in-memory header; `size` is sb.nlog.
pub record LogState : Type 0 where
  pub lh : List ℕ
  pub outstanding : ℕ
  pub committing : Bool
  pub size : ℕ

-- One test of begin_op's loop; `none` means that the caller sleeps on the log and tests again.
unfoldable pub begin_op : LogState → Option LogState
begin_op l =
    if l.committing
    then none
    else if ltb log_size (length l.lh + (l.outstanding + 1) * max_op_blocks)
    then none
    else some (record l { outstanding = l.outstanding + 1 })

-- The loop of log_write and the write behind it: a block that is there already is absorbed.
unfoldable pub absorb : ℕ → List ℕ → List ℕ
absorb b [] = b ∷ []
absorb b (x ∷ xs) = if x == b then b ∷ xs else x ∷ absorb b xs

-- log_write, as one step; its two tests stand in front of its acquire. `log.size - 1` is a signed subtraction.
unfoldable pub log_write : LogState → ℕ → Outcome LogState
unfolding absorb
log_write l b =
    if leb log_size (length l.lh) || leb l.size (length l.lh + 1)
    then stop panic
    else if ltb l.outstanding 1
    then stop panic
    else ok (record l { lh = absorb b l.lh })

-- end_op up to its commit: the new state, and whether the caller commits. With no operation outstanding the C code
-- would count down to -1; the model stops.
unfoldable pub end_op : LogState → Outcome (LogState × Bool)
end_op l =
    if l.outstanding == 0
    then stop panic
    else if l.committing
    then stop panic
    else if l.outstanding == 1
    then ok (record l { outstanding = 0; committing = true }, true)
    else ok (record l { outstanding = l.outstanding - 1 }, false)

-- What is left to do behind the commit, which empties the header.
unfoldable pub committed : LogState → LogState
committed l = record l { lh = []; committing = false }

-- Operations at work, each with the number of blocks that it may still log.
abbrev pub Budgets : Type 0
Budgets = List ℕ

abbrev pub sum : List ℕ → ℕ
sum [] = 0
sum (x ∷ xs) = x + sum xs

-- One operation logs a block; one operation ends.
pub data Spends : Budgets → Budgets → Type 0 where
  this : (r : ℕ) (rs : Budgets) → Spends (suc r ∷ rs) (r ∷ rs)
  other : {rs qs : Budgets} (r : ℕ) → Spends rs qs → Spends (r ∷ rs) (r ∷ qs)

pub data Leaves : Budgets → Budgets → Type 0 where
  this : (r : ℕ) (rs : Budgets) → Leaves (r ∷ rs) rs
  other : {rs qs : Budgets} (r : ℕ) → Leaves rs qs → Leaves (r ∷ rs) (r ∷ qs)

-- What the operations of all processes may do to the log, in any order.
pub data Step : LogState × Budgets → LogState × Budgets → Type 0 where
  begins :
      (l l' : LogState) (rs : Budgets)
      → begin_op l ≡ some l'
      → Step (l, rs) (l', max_op_blocks ∷ rs)
  logs :
      (l l' : LogState) (rs qs : Budgets) (b : ℕ)
      → Spends rs qs
      → log_write l b ≡ ok l'
      → Step (l, rs) (l', qs)
  ends :
      (l l' : LogState) (rs qs : Budgets) (last : Bool)
      → Leaves rs qs
      → end_op l ≡ ok (l', last)
      → Step (l, rs) (l', qs)
  commits : (l : LogState) (rs : Budgets) → l.committing ≡ true → Step (l, rs) (committed l, rs)

pub data Steps (s : LogState × Budgets) : LogState × Budgets → Type 0 where
  here : Steps s s
  next : {t u : LogState × Budgets} → Steps s t → Step t u → Steps s u
