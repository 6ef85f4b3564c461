-- ===== src/Common/Loader.antt =====
-- The loader of internal/common/config/config.go. It collects a problem for each variable that is
-- missing or invalid; a problem is told by the variable's name, without the reason.
use molot.Base.{
  ℕ, ◌≡◌, ◌<◌, Bool, true, false, ◌||◌, Option, none, some, List, [], ◌∷◌, arith, not, refl, ◌++◌,
  subst, Option-cases, Bool-cases, inl, inr, if◌then◌else◌,
}
use molot.Int64
use molot.Text
use molot.Text.{Text}

-- What the loader uses of the standard library: `os.LookupEnv`, `time.ParseDuration`,
-- `strconv.Atoi` and `strconv.ParseInt` in base 10, which find 64-bit numbers.
pub record Environment : Type 0 where
  pub lookup : Text → Option Text
  pub parse_duration : Text → Option ℕ
  pub atoi : Text → Option ℕ
  pub parse_int : Text → Option ℕ
  pub duration_word : (s : Text) (d : ℕ) → parse_duration s ≡ some d → d < Int64.modulus
  pub atoi_word : (s : Text) (v : ℕ) → atoi s ≡ some v → v < Int64.modulus
  pub int_word : (s : Text) (v : ℕ) → parse_int s ≡ some v → v < Int64.modulus

-- What a method of the loader returns, and the problems that it adds.
abbrev pub Read : Type 0 → Type 0
Read A = A × List Text

-- `l.fail(key, reason)`, with the value that the method returns then.
abbrev fail : {A : Type 0} → Text → A → Read A
fail key a = (a, key ∷ [])

abbrev pub is_member : Text → List Text → Bool
is_member raw [] = false
is_member raw (a ∷ allowed) = if Text.eq raw a then true else is_member raw allowed

module _ (env : Environment) where
  unfoldable pub required : Text → Read Text
  required key = elim (env.lookup key) [
    | none ↦ fail key []
    | some v ↦ if Text.is_empty v then fail key [] else (v, [])
  ]

  unfoldable pub optional : Text → Text → Read Text
  optional key def = elim (env.lookup key) [
    | none ↦ (def, [])
    | some v ↦ if Text.is_empty v then (def, []) else (v, [])
  ]

  -- A variable that is not set has its default; otherwise it is read, unless that fails or the value
  -- does not pass.
  abbrev parsed_or : {A : Type 0} → (Text → Option A) → (A → Bool) → Text → A → Read A
  parsed_or parse refused key def = elim (env.lookup key) [
    | none ↦ (def, [])
    | some raw ↦ if Text.is_empty raw then (def, []) else elim (parse raw) [
      | none ↦ fail key def
      | some v ↦ if refused v then fail key def else (v, [])
    ]
  ]

  unfoldable pub duration : Text → ℕ → Read ℕ
  duration key def = parsed_or env.parse_duration (λ d. not (Int64.is_pos d)) key def

  unfoldable pub int_in_range : Text → ℕ → ℕ → ℕ → Read ℕ
  int_in_range key def min_val max_val =
      parsed_or env.atoi (λ v. Int64.lt v min_val || Int64.lt max_val v) key def

  unfoldable pub int64_non_negative : Text → ℕ → Read ℕ
  int64_non_negative key def = parsed_or env.parse_int Int64.is_neg key def

  unfoldable pub port : Text → ℕ → Read ℕ
  port key def = parsed_or env.atoi (λ p. Int64.lt p 1 || Int64.lt 65535 p) key def

  unfoldable pub enum : Text → Text → List Text → Read Text
  enum key def allowed = parsed_or (λ raw. some raw) (λ raw. not (is_member raw allowed)) key def

-- The problems of several reads, in the order of the calls.
abbrev pub collected : List (List Text) → List Text
collected [] = []
collected (l ∷ ls) = l ++ collected ls

pub append_none : (l k : List Text) → l ++ k ≡ [] → (l ≡ []) × (k ≡ [])
append_none [] k h = (refl, h)
append_none (x ∷ l) k h = absurd (ground arith)

-- The problems of the first read.
abbrev pub first : List (List Text) → List Text
first [] = []
first (l ∷ ls) = l

pub collected_none : (ls : List (List Text)) → collected ls ≡ [] → first ls ≡ []
collected_none [] h = refl
collected_none (l ∷ ls) h = (append_none l (collected ls) h).0

module _ (env : Environment) {A : Type 0} (parse : Text → Option A) (refused : A → Bool)
    (key : Text) (def : A) where
  -- The value passes the test where the default does, problem or not, and is the default or parsed.
  pub parsed_or_passes :
      refused def ≡ false → refused (parsed_or env parse refused key def).0 ≡ false
  parsed_or_passes h = elim (Option-cases (env.lookup key)) [
    | inl absent ↦ ground (arith, absent)
    | inr (raw, there) ↦ elim (Bool-cases (Text.is_empty raw)) [
      | inl empty ↦ ground (arith, there, empty)
      | inr full ↦ elim (Option-cases (parse raw)) [
        | inl invalid ↦ ground (arith, there, full, invalid)
        | inr (v, valid) ↦ elim (Bool-cases (refused v)) [
          | inl bad ↦ ground (arith, there, full, valid, bad)
          | inr good ↦ ground (arith, there, full, valid, good)
        ]
      ]
    ]
  ]

  pub parsed_or_holds :
      {P : A → Type 0}
      → P def
      → ((raw : Text) (v : A) → parse raw ≡ some v → P v)
      → P (parsed_or env parse refused key def).0
  parsed_or_holds {P} d p = elim (Option-cases (env.lookup key)) [
    | inl absent ↦ subst P (ground (arith, absent)) d
    | inr (raw, there) ↦ elim (Bool-cases (Text.is_empty raw)) [
      | inl empty ↦ subst P (ground (arith, there, empty)) d
      | inr full ↦ elim (Option-cases (parse raw)) [
        | inl invalid ↦ subst P (ground (arith, there, full, invalid)) d
        | inr (v, valid) ↦ elim (Bool-cases (refused v)) [
          | inl bad ↦ subst P (ground (arith, there, full, valid, bad)) d
          | inr good ↦ subst P (ground (arith, there, full, valid, good)) (p raw v valid)
        ]
      ]
    ]
  ]
