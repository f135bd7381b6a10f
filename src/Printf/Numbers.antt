-- ===== src/Printf/Numbers.antt =====
-- What printint prints: the digits of the number, within the 16 bytes of its buffer.
use project4final.Text.Memory.{Memory}
use project4final.Text.Strings.{atoi_from, atoi, StringAt}
use project4final.Printf.Format.{digit, digits_loop, printint, magnitude, is_negative, put_digit}
use project4final.Prelude.{
  ℕ, arith, List, ◌<◌, ◌*◌, if◌then◌else◌, suc, leb, ◌∷◌, ◌/◌, Outcome, length, zero, ◌-◌, ◌+◌, ◌≡◌,
  ◌≤◌, ◌%◌, ok, [], ap, Bool, sym, ◌^◌, ◌∙◌, ◌⊎◌, ◌≢◌, lt→ltb, inl, ℕ_discrete, subst, eq→==, inr,
  ne→==, refl, ◌>>=◌, true, some, false, le→leb,
}

-- The number that digits stand for, behind `n`.
abbrev pub digit_value : ℕ → ℕ → ℕ
digit_value a c = if leb c b'9' then c - b'0' else c - a + 10

abbrev pub number : ℕ → ℕ → ℕ → List ℕ → ℕ
number a base n [] = n
number a base n (c ∷ cs) = number a base (n * base + digit_value a c) cs

digit_value-digit : (a d : ℕ) → b'9' < a → d < 16 → digit_value a (digit a d) ≡ d
digit_value-digit a d l m = ground arith

abbrev tens : ℕ → ℕ
tens zero = 1
tens (suc f) = 10 * tens f

-- A base of which a digit is at least a tenth.
pub record IsBase (base : ℕ) : Type 0 where
  pub shrinks : (x : ℕ) → 10 * (x / base) ≤ x
  pub joins : (x : ℕ) → x / base * base + x % base ≡ x
  pub small : (x : ℕ) → x % base < 16

pub ten-IsBase : IsBase 10
ten-IsBase = record {
  shrinks = λ x. omega arith;
  joins = λ x. omega arith;
  small = λ x. omega arith;
}

pub sixteen-IsBase : IsBase 16
sixteen-IsBase = record {
  shrinks = λ x. omega arith;
  joins = λ x. omega arith;
  small = λ x. omega arith;
}

abbrev pub IsDecimal : List ℕ → Type 0
IsDecimal [] = Unit
IsDecimal (c ∷ cs) = (b'0' ≤ c) × (c ≤ b'9') × IsDecimal cs

-- Digits of `x` in front of what the buffer has.
abbrev pub Printed : ℕ → ℕ → ℕ → ℕ → List ℕ → Outcome (List ℕ) → Type 0
Printed f a base x buf r =
    (out : List ℕ) × (r ≡ ok out)
    × (length out ≤ length buf + f)
    × (number a base 0 out ≡ number a base x buf)
    × (base ≡ 10 → IsDecimal buf → IsDecimal out)

digits_loop-Printed :
    (f g a base x : ℕ) (buf : List ℕ)
    → b'9' < a
    → IsBase base
    → x < tens f
    → 0 < f
    → f ≤ g
    → length buf + f ≤ 16
    → Printed f a base x buf (digits_loop g a base x buf)
unfolding digits_loop
digits_loop-Printed zero g a base x buf l b m p q n = absurd (omega arith)
digits_loop-Printed (suc f) zero a base x buf l b m p q n = absurd (omega arith)
digits_loop-Printed (suc f) (suc g) a base x buf l b m p q n =
    rw (lt→ltb (length buf) 16 (omega arith)) (elim (ℕ_discrete (x / base) 0) [
      | yes z ↦ rw (eq→== (x / base) 0 z) (d ∷ buf, refl, omega arith, last z, decimal)
      | no z ↦ rw (ne→== (x / base) 0 z) (
          behind (
            digits_loop-Printed f g a base (x / base) (d ∷ buf) l b (omega (arith, b.shrinks x))
              (some_left z f (omega (arith, b.shrinks x))) (omega arith) (omega arith)))
    ])
  where
    d : ℕ
    d = digit a (x % base)

    joined : x / base * base + digit_value a d ≡ x
    joined = omega (arith, digit_value-digit a (x % base) l (b.small x), b.joins x)

    last : x / base ≡ 0 → number a base (0 * base + digit_value a d) buf ≡ number a base x buf
    last z = ap (λ n. number a base n buf) (sym (ap (λ y. y * base + digit_value a d) z) ∙ joined)

    some_left : x / base ≢ 0 → (f : ℕ) → x / base < tens f → 0 < f
    some_left z zero k = absurd (omega arith)
    some_left z (suc f) k = omega arith

    decimal : base ≡ 10 → IsDecimal buf → IsDecimal (d ∷ buf)
    decimal e i =
        let (u, v) = low (x % base) (subst (λ k. x % k < 10) (sym e) (omega arith)) in (u, v, i)
      where
        low : (d : ℕ) → d < 10 → (b'0' ≤ digit a d) × (digit a d ≤ b'9')
        low d k = (ground arith, ground arith)

    behind :
        {r : Outcome (List ℕ)}
        → Printed f a base (x / base) (d ∷ buf) r
        → Printed (suc f) a base x buf r
    behind (out, o, k, v, w) =
        (out, o, omega arith, v ∙ ap (λ n. number a base n buf) joined, λ e i. w e (decimal e i))

magnitude-small : (sgn : Bool) (xx : ℕ) → xx < 2 ^ 32 → magnitude sgn xx < 2 ^ 32
magnitude-small sgn xx l = ground arith

-- What printint prints of digits for a number of 32 bits.
module _ (a xx base : ℕ) (sgn : Bool) (l : b'9' < a) (m : xx < 2 ^ 32) (b : IsBase base) where
  unsigned : Printed 10 a base (magnitude sgn xx) [] (digits_loop 17 a base (magnitude sgn xx) [])
  unsigned =
      digits_loop-Printed 10 17 a base (magnitude sgn xx) [] l b
        (omega (arith, magnitude-small sgn xx m)) (omega arith) (omega arith) (omega arith)

  -- What the sign adds.
  signed :
      (digits : List ℕ) × (printint a xx base sgn
        ≡ ok (if is_negative sgn xx then b'-' ∷ digits else digits))
      × (length digits ≤ 10)
      × (number a base 0 digits ≡ magnitude sgn xx)
      × (base ≡ 10 → IsDecimal digits)
  unfolding printint
  signed =
      let (digits, o, k, v, w) = unsigned in
      (
        digits,
        ap (λ r. r >>= λ b. if is_negative sgn xx then put_digit b b'-' else ok b) o
            ∙ with_sign digits k (is_negative sgn xx),
        omega arith,
        v,
        λ e. w e tt,
      )
    where
      with_sign :
          (digits : List ℕ)
          → length digits ≤ 0 + 10
          → (negative : Bool)
          → (if negative then put_digit digits b'-' else ok digits)
            ≡ ok (if negative then b'-' ∷ digits else digits)
      with_sign digits k true = rw (lt→ltb (length digits) 16 (omega arith)) refl
      with_sign digits k false = refl

-- printint in base 10 or 16, of a number of 32 bits, ends within its buffer of 16 bytes: it prints at most 10 digits,
-- which stand for the number's magnitude, behind a minus sign if the number is a negative int.
pub printint_prints :
    (a xx base : ℕ) (sgn : Bool)
    → b'9' < a
    → xx < 2 ^ 32
    → (base ≡ 10) ⊎ (base ≡ 16)
    → (digits : List ℕ) × (printint a xx base sgn
        ≡ ok (if is_negative sgn xx then b'-' ∷ digits else digits))
      × (length digits ≤ 10)
      × (number a base 0 digits ≡ magnitude sgn xx)
printint_prints a xx base sgn l m e =
    let (digits, o, k, v, w) = signed a xx base sgn l m (usual e) in (digits, o, k, v)
  where
    usual : (base ≡ 10) ⊎ (base ≡ 16) → IsBase base
    usual (inl e) = subst IsBase (sym e) ten-IsBase
    usual (inr e) = subst IsBase (sym e) sixteen-IsBase

number-ge : (a n : ℕ) (cs : List ℕ) → n ≤ number a 10 n cs
number-ge a n [] = omega arith
number-ge a n (c ∷ cs) = omega (arith, number-ge a (n * 10 + digit_value a c) cs)

atoi_from-number :
    (f a n s : ℕ) (mem : Memory) (cs : List ℕ)
    → length cs < f
    → StringAt mem s cs
    → IsDecimal cs
    → number a 10 n cs < 2 ^ 32
    → atoi_from f mem s n ≡ some (number a 10 n cs)
unfolding atoi_from
atoi_from-number zero a n s mem cs k h i m = absurd (omega arith)
atoi_from-number (suc f) a n s mem [] k h i m = rw (h) refl
atoi_from-number (suc f) a n s mem (c ∷ cs) k (h, z, t) (u, v, i) m =
    rw (h, le→leb b'0' c u, le→leb c b'9' v)
      (ap (atoi_from f mem (s + 1)) step
        ∙ atoi_from-number f a (n * 10 + digit_value a c) (s + 1) mem cs (omega arith) t i m
        ∙ ap (λ d. some (number a 10 (n * 10 + d) cs)) value)
  where
    value : digit_value a c ≡ c - b'0'
    value = rw (le→leb c b'9' v) refl

    step : (n * 10 + c - b'0') % 2 ^ 32 ≡ n * 10 + digit_value a c
    step = omega (arith, value, number-ge a (n * 10 + digit_value a c) cs)

-- atoi of the characters that printint prints for an int that is not negative, in base 10, gives back the int.
pub atoi-printint :
    (f a xx s : ℕ) (mem : Memory) (digits : List ℕ)
    → b'9' < a
    → xx < 2 ^ 31
    → printint a xx 10 true ≡ ok digits
    → StringAt mem s digits
    → length digits < f
    → atoi f mem s ≡ some xx
unfolding atoi
atoi-printint f a xx s mem digits l m p h k =
    let (ds, o, q, v, w) = signed a xx 10 true l (omega arith) ten-IsBase in
    let value : number a 10 0 ds ≡ xx =
      v ∙ ap (λ b. if b then (2 ^ 32 - xx) % 2 ^ 32 else xx) not_negative in
    let same : ds ≡ digits = ok_inj (sym (rw (not_negative) at o) ∙ p) in
    atoi_from-number f a 0 s mem ds (subst (λ d. length d < f) (sym same) k)
      (subst (StringAt mem s) (sym same) h) (w refl) (omega (arith, value))
    ∙ ap some value
  where
    not_negative : is_negative true xx ≡ false
    not_negative = ground arith

    ok_inj : {x y : List ℕ} → ok x ≡ ok y → x ≡ y
    ok_inj e = cc
