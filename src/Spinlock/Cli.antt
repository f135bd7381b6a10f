-- ===== src/Spinlock/Cli.antt =====
-- pushcli and popcli of spinlock.c on one processor.
use project4final.Prelude.{
  ◌∷◌, ℕ, ◌+◌, Outcome, List, Bool, ◌%◌, ◌^◌, ok, Option, ◌≡◌, ◌<◌, length, ◌-◌, ◌>>=◌, some, ◌==◌,
  arith, suc, if◌then◌else◌, false, stop, none, ◌&&◌, ap, leb, subst, [], panic, ◌≢◌, sym, ne→==,
  refl, ℕ_discrete, eq→==, ◌∙◌, zero,
}

-- The fields of struct cpu that they use, and the interrupt flag of its eflags. `ncli` is an int.
pub record Cpu : Type 0 where
  pub ncli : ℕ
  pub intena : Bool
  pub interrupts : Bool

unfoldable pub pushcli : Cpu → Cpu
pushcli c = record {
  ncli = (c.ncli + 1) % 2 ^ 32;
  intena = if c.ncli == 0 then c.interrupts else c.intena;
  interrupts = false;
}

unfoldable pub popcli : Cpu → Outcome Cpu
popcli c =
    let n : ℕ = (c.ncli + (2 ^ 32 - 1)) % 2 ^ 32 in
    if c.interrupts
    then stop panic
    else if leb (2 ^ 31) n
    then stop panic
    else ok (record c { ncli = n; interrupts = (n == 0) && c.intena })

pub data Call : Type 0 where
  push pop : Call

unfoldable pub run : List Call → Cpu → Outcome Cpu
run [] c = ok c
run (push ∷ cs) c = run cs (pushcli c)
run (pop ∷ cs) c = popcli c >>= λ c'. run cs c'

-- How many of the calls of pushcli are open behind the calls, from `d` on; none if a popcli has no pushcli.
unfoldable pub open_calls : ℕ → List Call → Option ℕ
open_calls d [] = some d
open_calls d (push ∷ cs) = open_calls (d + 1) cs
open_calls zero (pop ∷ cs) = none
open_calls (suc d) (pop ∷ cs) = open_calls d cs

-- A processor with `d` calls of pushcli open, whose interrupts were on or off in front of the first.
pub record IsAt (on : Bool) (d : ℕ) (c : Cpu) : Type 0 where
  pub count : c.ncli ≡ d
  pub flag : c.interrupts ≡ ((d == 0) && on)
  pub saved : d ≢ 0 → c.intena ≡ on

pushcli-IsAt :
    (on : Bool) (d : ℕ) (c : Cpu) → d + 1 < 2 ^ 31 → IsAt on d c → IsAt on (d + 1) (pushcli c)
unfolding pushcli
pushcli-IsAt on d c l h = record {
  count = omega (arith, h.count);
  flag = ap (λ b. b && on) (sym (ne→== (d + 1) 0 (omega arith)));
  saved = λ n. elim (ℕ_discrete d 0) [
    | yes z ↦ rw (h.count, eq→== d 0 z) (h.flag ∙ ap (λ b. b && on) (eq→== d 0 z))
    | no z ↦ rw (h.count, ne→== d 0 z) (h.saved z)
  ];
}

popcli-IsAt :
    (on : Bool) (d : ℕ) (c : Cpu)
    → d < 2 ^ 31
    → IsAt on (suc d) c
    → (c' : Cpu) × (popcli c ≡ ok c') × IsAt on d c'
unfolding popcli
popcli-IsAt on d c l h = (
  record c { ncli = d; interrupts = (d == 0) && c.intena },
  rw (h.flag, ne→== (suc d) 0 (omega arith), lowered, small) refl,
  record {
    count = refl;
    flag = ap (λ b. (d == 0) && b) (h.saved (omega arith));
    saved = λ n. h.saved (omega arith);
  },
)
  where
    lowered : (c.ncli + (2 ^ 32 - 1)) % 2 ^ 32 ≡ d
    lowered = omega (arith, h.count)

    small : leb (2 ^ 31) d ≡ false
    small = ground arith

some_inj : {x y : ℕ} → some x ≡ some y → x ≡ y
some_inj e = cc

run-IsAt :
    (on : Bool) (cs : List Call) (d e : ℕ) (c : Cpu)
    → d + length cs < 2 ^ 31
    → open_calls d cs ≡ some e
    → IsAt on d c
    → (c' : Cpu) × (run cs c ≡ ok c') × IsAt on e c'
unfolding run open_calls
run-IsAt on [] d e c l o h = (c, refl, subst (λ d. IsAt on d c) (some_inj o) h)
run-IsAt on (push ∷ cs) d e c l o h =
    run-IsAt on cs (d + 1) e (pushcli c) (omega arith) o (pushcli-IsAt on d c (omega arith) h)
run-IsAt on (pop ∷ cs) zero e c l o h = absurd (cc)
run-IsAt on (pop ∷ cs) (suc d) e c l o h =
    let (c', p, h') = popcli-IsAt on d c (omega arith) h in
    let (c'', q, h'') = run-IsAt on cs d e c' (omega arith) o h' in
    (c'', ap (λ r. r >>= λ x. run cs x) p ∙ q, h'')

-- From a processor with no call of pushcli open, fewer than 2 ^ 31 calls of pushcli and popcli in which no popcli is
-- without its pushcli end with no panic: interrupts are off while a pushcli is open, and else as they were at the start.
pub cli_matched :
    (cs : List Call) (d : ℕ) (c : Cpu)
    → c.ncli ≡ 0
    → length cs < 2 ^ 31
    → open_calls 0 cs ≡ some d
    → (c' : Cpu) × (run cs c ≡ ok c') × (c'.ncli ≡ d) × (c'.interrupts ≡ ((d == 0) && c.interrupts))
cli_matched cs d c z l o =
    let (c', p, h) =
      run-IsAt c.interrupts cs 0 d c (omega arith) o
        (record { count = z; flag = refl; saved = λ n. absurd (n refl) }) in
    (c', p, h.count, h.flag)
