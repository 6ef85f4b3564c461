-- ===== src/Text.antt =====
-- Go strings of valid UTF-8, as lists of code points.
pub mod Trimming
use molot.Base.{
  ℕ, zero, suc, ◌+◌, ◌-◌, ◌*◌, ◌/◌, ◌%◌, ◌≡◌, ◌<◌, refl, Bool, true, false, ◌&&◌, ◌||◌, List, [],
  ◌∷◌, reverse, arith, leb, ltb, ◌==◌, if◌then◌else◌, ap, ◌∙◌, Bool-cases, inl, inr,
}
use Prim.Native.String.{String}
use Prim.Native.Char.{code}

abbrev pub Text : Type 0
Text = List ℕ

-- A literal, for constants and test data.
abbrev pub text : String → Text
text String.[] = []
text (String.◌∷◌ c s) = code c ∷ text s

-- `s == t`
unfoldable pub eq : Text → Text → Bool
eq [] [] = true
eq [] (y ∷ t) = false
eq (x ∷ s) [] = false
eq (x ∷ s) (y ∷ t) = (x == y) && eq s t

-- `s == ""`
abbrev pub is_empty : Text → Bool
is_empty [] = true
is_empty (x ∷ s) = false

pub eq_sound : (s t : Text) → eq s t ≡ true → s ≡ t
unfolding eq
eq_sound [] [] h = refl
eq_sound [] (y ∷ t) h = cc
eq_sound (x ∷ s) [] h = cc
eq_sound (x ∷ s) (y ∷ t) h = ground (arith, eq_sound s t)

pub eq_refl : (s : Text) → eq s s ≡ true
unfolding eq
eq_refl [] = refl
eq_refl (x ∷ s) = ground (arith, eq_refl s)

-- The bytes of a code point in UTF-8, and `len(s)`.
abbrev rune_len : ℕ → ℕ
rune_len r = if ltb r 0x80 then 1 else if ltb r 0x800 then 2 else if ltb r 0x1_0000 then 3 else 4

unfoldable pub len : Text → ℕ
len [] = 0
len (r ∷ s) = rune_len r + len s

-- `unicode.IsSpace`
unfoldable pub is_space : ℕ → Bool
is_space r =
    (leb 0x09 r && leb r 0x0d)
    || (r == 0x20)
    || (r == 0x85)
    || (r == 0xa0)
    || (r == 0x1680)
    || (leb 0x2000 r && leb r 0x200a)
    || (r == 0x2028)
    || (r == 0x2029)
    || (r == 0x202f)
    || (r == 0x205f)
    || (r == 0x3000)

unfoldable pub trim_left : Text → Text
unfolding is_space
trim_left [] = []
trim_left (r ∷ s) = if is_space r then trim_left s else r ∷ s

-- `strings.TrimSpace(s)`
unfoldable pub trim_space : Text → Text
unfolding trim_left is_space
trim_space s = reverse (trim_left (reverse (trim_left s)))

-- `strconv.Itoa` of a number that is not negative.
itoa_from : ℕ → ℕ → Text → Text
itoa_from zero n acc = acc
itoa_from (suc fuel) n acc =
    let digits = (48 + n % 10) ∷ acc in
    let rest = itoa_from fuel (n / 10) digits in if n / 10 == 0 then digits else rest

unfoldable pub itoa : ℕ → Text
unfolding itoa_from
itoa n = itoa_from (suc n) n []

-- The number that decimal digits stand for.
abbrev pub decimal_from : ℕ → Text → ℕ
decimal_from acc [] = acc
decimal_from acc (r ∷ s) = decimal_from (10 * acc + (r - 48)) s

abbrev pub decimal : Text → ℕ
decimal s = decimal_from 0 s

itoa_from-decimal :
    (fuel n : ℕ) (acc : Text)
    → n < fuel
    → decimal_from 0 (itoa_from fuel n acc) ≡ decimal_from n acc
unfolding itoa_from
itoa_from-decimal zero n acc h = absurd (omega arith)
itoa_from-decimal (suc fuel) n acc h =
    let last : 10 * (n / 10) + (48 + n % 10 - 48) ≡ n = omega arith in
    elim (Bool-cases (n / 10 == 0)) [
      | inl single ↦
          let digit : 10 * 0 + (48 + n % 10 - 48) ≡ n = ground arith in
          ap
            (λ b.
              decimal_from 0
                (if b then (48 + n % 10) ∷ acc else itoa_from fuel (n / 10) ((48 + n % 10) ∷ acc)))
            single
          ∙ ap (λ x. decimal_from x acc) digit
      | inr several ↦
          let smaller : n / 10 < fuel = ground arith in
          ap
            (λ b.
              decimal_from 0
                (if b then (48 + n % 10) ∷ acc else itoa_from fuel (n / 10) ((48 + n % 10) ∷ acc)))
            several
          ∙ itoa_from-decimal fuel (n / 10) ((48 + n % 10) ∷ acc) smaller
          ∙ ap (λ x. decimal_from x acc) last
    ]

pub itoa-decimal : (n : ℕ) → decimal (itoa n) ≡ n
unfolding itoa
itoa-decimal n = itoa_from-decimal (suc n) n [] (omega arith)
