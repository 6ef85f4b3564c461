-- ===== src/Int64.antt =====
-- Go's `int64` and `int` (64 bits): a value is its bit pattern, a number below 2 ^ 64, and the
-- patterns from 2 ^ 63 on stand for the negative numbers. Sums and products wrap.
use molot.Base.{
  ℕ, ◌+◌, ◌-◌, ◌*◌, ◌/◌, ◌%◌, ◌^◌, ◌<◌, ◌≡◌, Bool, false, arith, ltb, leb, if◌then◌else◌,
}

abbrev pub modulus : ℕ
modulus = 2 ^ 64

abbrev pub sign_bit : ℕ
sign_bit = 2 ^ 63

-- `x < 0`
abbrev pub is_neg : ℕ → Bool
is_neg x = leb sign_bit x

-- `0 < x`
abbrev pub is_pos : ℕ → Bool
is_pos x = if ltb 0 x then ltb x sign_bit else false

unfoldable pub add : ℕ → ℕ → ℕ
add x y = (x + y) % modulus

unfoldable pub mul : ℕ → ℕ → ℕ
mul x y = (x * y) % modulus

-- `-x`
unfoldable pub neg : ℕ → ℕ
neg x = (modulus - x) % modulus

-- The patterns in the order of the numbers that they stand for.
abbrev pub rank : ℕ → ℕ
rank x = (x + sign_bit) % modulus

-- `x < y` and `x <= y`
unfoldable pub lt : ℕ → ℕ → Bool
lt x y = ltb (rank x) (rank y)

unfoldable pub le : ℕ → ℕ → Bool
le x y = leb (rank x) (rank y)

-- `x / d` for a divisor d > 0: Go truncates towards zero.
unfoldable pub quot : ℕ → ℕ → ℕ
unfolding neg
quot x d = if is_neg x then neg (neg x / d) else x / d

-- A pattern that stands for a number which is not negative.
abbrev pub IsNat : ℕ → Type 0
IsNat x = x < sign_bit

pub add_eq : (x y : ℕ) → x + y < modulus → add x y ≡ x + y
unfolding add
add_eq x y h = omega arith

pub add-lt : (x y : ℕ) → add x y < modulus
unfolding add
add-lt x y = omega arith

pub lt_nat : (x y : ℕ) → IsNat x → IsNat y → lt x y ≡ ltb x y
unfolding lt
lt_nat x y hx hy = ground arith

pub le_nat : (x y : ℕ) → IsNat x → IsNat y → le x y ≡ leb x y
unfolding le
le_nat x y hx hy = ground arith

-- `x % d` for a divisor d > 0, with the sign of x.
unfoldable pub rem : ℕ → ℕ → ℕ
unfolding neg
rem x d = if is_neg x then neg (neg x % d) else x % d
