-- ===== src/Prelude/Failure.antt =====
-- The outcome of kernel code that can go wrong: a value, or what stopped it. An `int` is kept as
-- its 32-bit pattern, so -1 is `minus_one`.
use Prim.Native.Nat.{ℕ, ◌-◌, ◌^◌}
use mathlib.Core.Path.{◌≡◌, refl}

-- A call of `panic`, a read or write through a null pointer, an index outside an array, and a loop
-- that did not end within the rounds that the model gives it.
pub data Stop : Type 0 where
  panic null_pointer out_of_bounds out_of_fuel : Stop

pub data Outcome {ℓ} (A : Type ℓ) : Type ℓ where
  ok : A → Outcome A
  stop : Stop → Outcome A

infixl 5 ◌>>=◌
abbrev pub ◌>>=◌ {ℓ κ} : {A : Type ℓ} {B : Type κ} → Outcome A → (A → Outcome B) → Outcome B
ok a >>= f = f a
stop e >>= f = stop e

abbrev pub minus_one : ℕ
minus_one = 2 ^ 32 - 1

-- A successful chain has a successful first part.
pub >>=-ok {ℓ κ} :
    {A : Type ℓ} {B : Type κ} (m : Outcome A) (f : A → Outcome B) (b : B)
    → (m >>= f) ≡ ok b
    → (a : A) × (m ≡ ok a) × (f a ≡ ok b)
>>=-ok (ok a) f b h = (a, refl, h)
>>=-ok (stop e) f b h = absurd (cc)
