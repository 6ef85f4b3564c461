-- ===== src/Common/Fit.antt =====
-- What `load` (internal/common/config/config.go) has checked of the configuration that it returns.
use molot.Base.{
  ℕ, ◌≡◌, ◌<◌, ◌≤◌, refl, sym, subst, true, false, not, ◌||◌, List, [], ◌∷◌, ◌++◌, some, ok, arith,
  Option-cases, inl, inr,
}
use molot.Int64
use molot.Text
use molot.Text.{Text, text}
use molot.Common.Config.{Config, load, loaded, is_currency_code, check_currency, check_secret}
use molot.Common.Loader.{
  Environment, required, duration, int_in_range, int64_non_negative, enum, is_member, collected,
  append_none, collected_none, parsed_or_passes, parsed_or_holds,
}

abbrev pub psp_modes : List Text
psp_modes = text "success" ∷ text "decline" ∷ text "flaky" ∷ []

pub record IsFit (cfg : Config) : Type 0 where
  pub currency : is_currency_code cfg.platform_currency ≡ true
  pub commission : cfg.commission_basis_points ≤ 10_000
  pub verify_above : Int64.is_neg cfg.verify_above_minor ≡ false
  pub snipe_window : Int64.is_pos cfg.snipe_window ≡ true
  pub snipe_extension : Int64.is_pos cfg.snipe_extension ≡ true
  pub snipe_max : cfg.snipe_max_extensions ≤ 1000
  pub payment_term : Int64.is_pos cfg.payment_term ≡ true
  pub relist_delay : Int64.is_pos cfg.relist_delay ≡ true
  pub relist_duration : Int64.is_pos cfg.relist_duration ≡ true
  pub psp_mode : is_member cfg.psp_mode psp_modes ≡ true
  pub secret : check_secret cfg ≡ []

-- The configuration that `load` returns is the one that was read, without a problem.
load_ok :
    (env : Environment) {cfg : Config}
    → load env ≡ ok cfg
    → (cfg ≡ (loaded env).0)
      × (collected (loaded env).1 ++ (check_currency (loaded env).0 ++ check_secret (loaded env).0)
          ≡ [])
unfolding load
load_ok env h = ground arith

module _ (env : Environment) where
  -- What the reads leave in the configuration, with or without problems.
  positive :
      (key : Text) (def : ℕ)
      → Int64.is_pos def ≡ true
      → Int64.is_pos (duration env key def).0 ≡ true
  unfolding duration
  positive key def h =
      let p = parsed_or_passes env env.parse_duration (λ d. not (Int64.is_pos d)) key def in
      ground (arith, p)

  ranged :
      (key : Text) (def max_val : ℕ)
      → max_val < Int64.sign_bit
      → def ≤ max_val
      → (int_in_range env key def 0 max_val).0 ≤ max_val
  unfolding int_in_range Int64.lt
  ranged key def max_val h k =
      let p = parsed_or_passes env env.atoi (λ v. Int64.lt v 0 || Int64.lt max_val v) key def in
      let w =
        parsed_or_holds env env.atoi (λ v. Int64.lt v 0 || Int64.lt max_val v) key def
          {P = λ v. v < Int64.modulus} (omega arith) env.atoi_word in
      ground (arith, p, w)

  -- The checks found nothing.
  checked :
      {cfg : Config}
      → load env ≡ ok cfg
      → ((required env (text "PLATFORM_CURRENCY")).1 ≡ [])
        × (check_currency (loaded env).0 ≡ [])
        × (check_secret (loaded env).0 ≡ [])
  unfolding loaded
  checked h =
      let clean = append_none (collected (loaded env).1) _ (load_ok env h).1 in
      let after = append_none (check_currency (loaded env).0) _ clean.1 in
      (collected_none (loaded env).1 clean.0, after.0, after.1)

  set_by_required :
      (key : Text) → (required env key).1 ≡ [] → Text.is_empty (required env key).0 ≡ false
  unfolding required
  set_by_required key h = elim (Option-cases (env.lookup key)) [
    | inl absent ↦ absurd (ground (arith, absent))
    | inr (v, there) ↦ ground (arith, there)
  ]

  -- The currency is set and has the form of a code.
  currency_code :
      {cfg : Config} → load env ≡ ok cfg → is_currency_code (loaded env).0.platform_currency ≡ true
  unfolding check_currency
  currency_code h =
      let (set, form, s) = checked h in
      let full : Text.is_empty (loaded env).0.platform_currency ≡ false =
        unfold loaded in (set_by_required (text "PLATFORM_CURRENCY") set) in
      ground arith

  not_negative :
      (key : Text) (def : ℕ)
      → Int64.is_neg def ≡ false
      → Int64.is_neg (int64_non_negative env key def).0 ≡ false
  unfolding int64_non_negative
  not_negative key def h = parsed_or_passes env env.parse_int Int64.is_neg key def h

  member :
      (key def : Text) (allowed : List Text)
      → is_member def allowed ≡ true
      → is_member (enum env key def allowed).0 allowed ≡ true
  unfolding enum
  member key def allowed h =
      let p = parsed_or_passes env (λ raw. some raw) (λ raw. not (is_member raw allowed)) key def in
      ground (arith, p)

  loaded-IsFit : {cfg : Config} → load env ≡ ok cfg → IsFit (loaded env).0
  unfolding loaded Text.eq
  loaded-IsFit h = record {
    currency = currency_code h;
    commission = ranged (text "COMMISSION_BASIS_POINTS") 1000 10_000 (omega arith) (omega arith);
    verify_above = not_negative (text "VERIFY_ABOVE_MINOR") 100_000 refl;
    snipe_window = positive (text "SNIPE_WINDOW") _ refl;
    snipe_extension = positive (text "SNIPE_EXTENSION") _ refl;
    snipe_max = ranged (text "SNIPE_MAX_EXTENSIONS") 3 1000 (omega arith) (omega arith);
    payment_term = positive (text "PAYMENT_TERM") _ refl;
    relist_delay = positive (text "RELIST_DELAY") _ refl;
    relist_duration = positive (text "RELIST_DURATION") _ refl;
    psp_mode = member (text "PSP_MODE") (text "success") psp_modes refl;
    secret = (checked h).2;
  }

  pub load-IsFit : {cfg : Config} → load env ≡ ok cfg → IsFit cfg
  load-IsFit h = subst IsFit (sym (load_ok env h).0) (loaded-IsFit h)
