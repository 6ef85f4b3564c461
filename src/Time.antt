-- ===== src/Time.antt =====
-- Go's `time.Time` and `time.Duration`: an instant is its distance in nanoseconds from the zero
-- Time, and a duration is an int64. Instants before the zero Time are not represented: `add` stops
-- there. `UTC()` changes only the location, which no comparison reads, so it is left out.
use molot.Base.{ℕ, ◌+◌, ◌-◌, ◌≡◌, Bool, true, arith, ltb, ◌==◌, if◌then◌else◌}
use molot.Int64

abbrev pub Time : Type 0
Time = ℕ

abbrev pub Duration : Type 0
Duration = ℕ

abbrev pub is_zero : Time → Bool
is_zero t = t == 0

-- `t.Before(u)` and `t.After(u)`
abbrev pub before : Time → Time → Bool
before t u = ltb t u

abbrev pub after : Time → Time → Bool
after t u = ltb u t

-- `t.Add(d)`
unfoldable pub add : Time → Duration → Time
add t d = if Int64.is_neg d then t - (Int64.modulus - d) else t + d

pub add_nat : (t d : ℕ) → Int64.IsNat d → add t d ≡ t + d
unfolding add
add_nat t d h = ground arith

-- Stepping back by a positive duration.
pub add-neg : (t d : ℕ) → Int64.is_pos d ≡ true → add t (Int64.neg d) ≡ t - d
unfolding add Int64.neg
add-neg t d h = ground arith
