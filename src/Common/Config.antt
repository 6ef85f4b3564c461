-- ===== src/Common/Config.antt =====
-- internal/common/config/config.go: the configuration that the process starts with.
use molot.Base.{
  ℕ, ◌*◌, ◌^◌, Bool, true, false, ◌&&◌, ◌||◌, not, List, [], ◌∷◌, ◌++◌, Result, ok, err, ltb, ◌==◌,
  if◌then◌else◌,
}
use molot.Text
use molot.Text.{Text, text}
use molot.Time.{Duration}
use molot.Common.Loader.{
  Environment, required, optional, duration, int_in_range, int64_non_negative, port, enum,
  collected,
}

pub record Config : Type 0 where
  pub platform_currency : Text
  pub commission_basis_points : ℕ  -- int
  pub verify_above_minor : ℕ  -- int64
  pub snipe_window : Duration
  pub snipe_extension : Duration
  pub snipe_max_extensions : ℕ  -- int
  pub payment_term : Duration
  pub psp_mode : Text
  pub relist_delay : Duration
  pub relist_duration : Duration
  pub closing_poll_interval : Duration
  pub expiry_poll_interval : Duration
  pub bus_poll_interval : Duration
  pub http_port : ℕ  -- int
  pub database_url : Text
  pub otel_exporter_otlp_endpoint : Text
  pub auth_mode : Text
  pub auth_hs256_secret : Text
  pub log_format : Text

abbrev pub millisecond : ℕ
millisecond = 10 ^ 6

abbrev pub second : ℕ
second = 10 ^ 9

abbrev pub minute : ℕ
minute = 60 * second

abbrev pub hour : ℕ
hour = 60 * minute

-- The loop of `isCurrencyCode`.
unfoldable pub all_upper : Text → Bool
all_upper [] = true
all_upper (r ∷ s) = if ltb r b'A' || ltb b'Z' r then false else all_upper s

unfoldable pub is_currency_code : Text → Bool
is_currency_code s = if not (Text.len s == 3) then false else all_upper s

-- The two checks after the calls.
unfoldable pub check_currency : Config → List Text
check_currency cfg =
    if not (Text.is_empty cfg.platform_currency) && not (is_currency_code cfg.platform_currency)
    then text "PLATFORM_CURRENCY" ∷ []
    else []

unfoldable pub check_secret : Config → List Text
check_secret cfg =
    if Text.eq cfg.auth_mode (text "local-hs256") && Text.is_empty cfg.auth_hs256_secret
    then text "AUTH_HS256_SECRET" ∷ []
    else []

module _ (env : Environment) where
  -- The configuration that the calls of the loader make, and the problems of each call, in order.
  unfoldable pub loaded : Config × List (List Text)
  loaded =
      let currency = required env (text "PLATFORM_CURRENCY") in
      let commission = int_in_range env (text "COMMISSION_BASIS_POINTS") 1000 0 10_000 in
      let verify_above = int64_non_negative env (text "VERIFY_ABOVE_MINOR") 100_000 in
      let snipe_window = duration env (text "SNIPE_WINDOW") (5 * minute) in
      let snipe_extension = duration env (text "SNIPE_EXTENSION") (5 * minute) in
      let snipe_max = int_in_range env (text "SNIPE_MAX_EXTENSIONS") 3 0 1000 in
      let payment_term = duration env (text "PAYMENT_TERM") (48 * hour) in
      let psp_mode =
        enum env (text "PSP_MODE") (text "success")
          (text "success" ∷ text "decline" ∷ text "flaky" ∷ []) in
      let relist_delay = duration env (text "RELIST_DELAY") hour in
      let relist_duration = duration env (text "RELIST_DURATION") (24 * hour) in
      let closing_poll = duration env (text "CLOSING_POLL_INTERVAL") second in
      let expiry_poll = duration env (text "EXPIRY_POLL_INTERVAL") (5 * second) in
      let bus_poll = duration env (text "BUS_POLL_INTERVAL") (100 * millisecond) in
      let http_port = port env (text "HTTP_PORT") 8080 in
      let database_url = required env (text "DATABASE_URL") in
      let endpoint = optional env (text "OTEL_EXPORTER_OTLP_ENDPOINT") (text "localhost:4317") in
      let auth_mode =
        enum env (text "AUTH_MODE") (text "local-hs256") (text "local-hs256" ∷ text "jwks" ∷ []) in
      let secret = optional env (text "AUTH_HS256_SECRET") [] in
      let log_format =
        enum env (text "LOG_FORMAT") (text "json") (text "json" ∷ text "text" ∷ []) in
      (
        record {
          platform_currency = currency.0;
          commission_basis_points = commission.0;
          verify_above_minor = verify_above.0;
          snipe_window = snipe_window.0;
          snipe_extension = snipe_extension.0;
          snipe_max_extensions = snipe_max.0;
          payment_term = payment_term.0;
          psp_mode = psp_mode.0;
          relist_delay = relist_delay.0;
          relist_duration = relist_duration.0;
          closing_poll_interval = closing_poll.0;
          expiry_poll_interval = expiry_poll.0;
          bus_poll_interval = bus_poll.0;
          http_port = http_port.0;
          database_url = database_url.0;
          otel_exporter_otlp_endpoint = endpoint.0;
          auth_mode = auth_mode.0;
          auth_hs256_secret = secret.0;
          log_format = log_format.0;
        },
        currency.1 ∷ commission.1 ∷ verify_above.1 ∷ snipe_window.1 ∷ snipe_extension.1
            ∷ snipe_max.1 ∷ payment_term.1 ∷ psp_mode.1 ∷ relist_delay.1 ∷ relist_duration.1
            ∷ closing_poll.1 ∷ expiry_poll.1 ∷ bus_poll.1 ∷ http_port.1 ∷ database_url.1
            ∷ endpoint.1 ∷ auth_mode.1 ∷ secret.1 ∷ log_format.1 ∷ [],
      )

  -- `load`; its error lists every problem.
  unfoldable pub load : Result (List Text) Config
  load =
      let (cfg, problems) = loaded in
      let errs = collected problems ++ (check_currency cfg ++ check_secret cfg) in
      elim errs [ [] ↦ ok cfg | problem ∷ more ↦ err (problem ∷ more) ]
