-- ===== src/Fs/Bits.antt =====
-- The bits of a byte, by tables.
use project4final.Text.Compare.{IsBytes}
use project4final.Fs.Blocks.{bit, set_bit, clear_bit}
use project4final.Text.Memory.{Memory}
use project4final.Prelude.{
  false, ℕ, Bool, ◌/◌, ◌≡◌, true, ◌^◌, not, ◌==◌, ◌<◌, ◌%◌, ◌||◌, refl, suc, ◌&&◌, arith, ◌+◌, ◌-◌,
  zero, if◌then◌else◌, ltb, eq→==, ◌≢◌, ne→==, sym, ℕ_discrete, update, ◌∙◌, ap₂, ==→eq, ap,
}

every : (ℕ → Bool) → ℕ → Bool
every test zero = true
every test (suc k) = if test k then every test k else false

every-at : (test : ℕ → Bool) (k i : ℕ) → every test k ≡ true → i < k → test i ≡ true
unfolding every
every-at test zero i h l = absurd (omega arith)
every-at test (suc k) i h l = ground (arith, every-at test k i)

abbrev every_bit : (ℕ → ℕ → ℕ → Bool) → Bool
every_bit ok = every (λ a. every (λ j. every (ok a j) 8) 8) 256

every_bit-at :
    (ok : ℕ → ℕ → ℕ → Bool) (a j k : ℕ)
    → every_bit ok ≡ true
    → a < 256
    → j < 8
    → k < 8
    → ok a j k ≡ true
every_bit-at ok a j k h l m n =
    let at_byte = every-at (λ a. every (λ j. every (ok a j) 8) 8) 256 a h l in
    every-at (ok a j) 8 k (every-at (λ j. every (ok a j) 8) 8 j at_byte m) n

abbrev byte_bit : ℕ → ℕ → ℕ
byte_bit a j = a / 2 ^ j % 2

-- With bit `j` of `a` clear: the sum has bit `k` of `a`, or is the bit itself, and is a byte.
abbrev sum_ok : ℕ → ℕ → ℕ → Bool
sum_ok a j k =
    not (byte_bit a j == 0)
    || (byte_bit (a + 2 ^ j) k == (if k == j then 1 else byte_bit a k)) && ltb (a + 2 ^ j) 256

abbrev difference_ok : ℕ → ℕ → ℕ → Bool
difference_ok a j k =
    byte_bit a j == 0
    || (byte_bit (a - 2 ^ j) k == (if k == j then 0 else byte_bit a k)) && ltb (a - 2 ^ j) 256

sum_table : every_bit sum_ok ≡ true
unfolding every
sum_table = refl

difference_table : every_bit difference_ok ≡ true
unfolding every
difference_table = refl

sum_bit :
    (a j k : ℕ)
    → a < 256
    → j < 8
    → k < 8
    → byte_bit a j ≡ 0
    → (byte_bit (a + 2 ^ j) k ≡ (if k == j then 1 else byte_bit a k)) × (a + 2 ^ j < 256)
sum_bit a j k h l m e =
    let t = every_bit-at sum_ok a j k sum_table h l m in
    both (byte_bit (a + 2 ^ j) k) (if k == j then 1 else byte_bit a k) (a + 2 ^ j)
      (rw (eq→== (byte_bit a j) 0 e) at t)
  where
    both : (x y z : ℕ) → ((x == y) && ltb z 256) ≡ true → (x ≡ y) × (z < 256)
    both x y z t = ground arith

difference_bit :
    (a j k : ℕ)
    → a < 256
    → j < 8
    → k < 8
    → byte_bit a j ≢ 0
    → (byte_bit (a - 2 ^ j) k ≡ (if k == j then 0 else byte_bit a k)) × (a - 2 ^ j < 256)
difference_bit a j k h l m e =
    let t = every_bit-at difference_ok a j k difference_table h l m in
    both (byte_bit (a - 2 ^ j) k) (if k == j then 0 else byte_bit a k) (a - 2 ^ j)
      (rw (ne→== (byte_bit a j) 0 e) at t)
  where
    both : (x y z : ℕ) → ((x == y) && ltb z 256) ≡ true → (x ≡ y) × (z < 256)
    both x y z t = ground arith

eq_of_iff : (a b : Bool) → (a ≡ true → b ≡ true) → (b ≡ true → a ≡ true) → a ≡ b
eq_of_iff true b f g = sym (f refl)
eq_of_iff false true f g = g refl
eq_of_iff false false f g = refl

-- Writing a byte that differs in one bit changes that bit alone.
bit-update :
    (m : Memory) (i j v w : ℕ)
    → byte_bit v (j % 8) ≡ (if j % 8 == i % 8 then w else byte_bit (m (i / 8)) (j % 8))
    → bit (update m (i / 8) v) j ≡ (if j == i then w else bit m j)
bit-update m i j v w h = elim (ℕ_discrete (j / 8) (i / 8)) [
  | yes s ↦ rw (eq→== (j / 8) (i / 8) s) (
      h
      ∙ ap₂ (λ b a. if b then w else a)
          (eq_of_iff (j % 8 == i % 8) (j == i)
            (λ e. eq→== j i (omega (arith, s, ==→eq (j % 8) (i % 8) e)))
            (λ e. eq→== (j % 8) (i % 8) (ap (λ x. x % 8) (==→eq j i e))))
          (ap (λ q. m q / 2 ^ (j % 8) % 2) (sym s)))
  | no s ↦ rw (ne→== (j / 8) (i / 8) s, ne→== j i (λ q. s (ap (λ x. x / 8) q))) refl
]

-- Setting a clear bit sets that bit alone.
pub bit-set_bit :
    (m : Memory) (i j : ℕ)
    → IsBytes m
    → bit m i ≡ 0
    → bit (set_bit m i) j ≡ (if j == i then 1 else bit m j)
unfolding set_bit
bit-set_bit m i j h e =
    bit-update m i j (m (i / 8) + 2 ^ (i % 8)) 1
      (sum_bit (m (i / 8)) (i % 8) (j % 8) (h (i / 8)) (omega arith) (omega arith) e).0

pub bit-clear_bit :
    (m : Memory) (i j : ℕ)
    → IsBytes m
    → bit m i ≢ 0
    → bit (clear_bit m i) j ≡ (if j == i then 0 else bit m j)
unfolding clear_bit
bit-clear_bit m i j h e =
    bit-update m i j (m (i / 8) - 2 ^ (i % 8)) 0
      (difference_bit (m (i / 8)) (i % 8) (j % 8) (h (i / 8)) (omega arith) (omega arith) e).0

pub set_bit-IsBytes : (m : Memory) (i : ℕ) → IsBytes m → bit m i ≡ 0 → IsBytes (set_bit m i)
unfolding set_bit
set_bit-IsBytes m i h e x = elim (ℕ_discrete x (i / 8)) [
  | yes q ↦
      rw (eq→== x (i / 8) q)
        (sum_bit (m (i / 8)) (i % 8) 0 (h (i / 8)) (omega arith) (omega arith) e).1
  | no q ↦ rw (ne→== x (i / 8) q) (h x)
]

pub clear_bit-IsBytes : (m : Memory) (i : ℕ) → IsBytes m → IsBytes (clear_bit m i)
unfolding clear_bit
clear_bit-IsBytes m i h x = elim (ℕ_discrete x (i / 8)) [
  | yes q ↦ rw (eq→== x (i / 8) q) (less (m (i / 8)) (2 ^ (i % 8)) (h (i / 8)))
  | no q ↦ rw (ne→== x (i / 8) q) (h x)
]
  where
    less : (a b : ℕ) → a < 256 → a - b < 256
    less a b l = omega arith
