-- ===== src/Common/Tests.antt =====
-- An environment with the three variables that have no usable default.
use molot.Base.{◌≡◌, ◌*◌, refl, if◌then◌else◌, Option, none, some, ok, arith}
use molot.Text
use molot.Text.{Text, text}
use molot.Auction.Money as AuctionMoney
use molot.Billing.Money as BillingMoney
use molot.Billing.Money.{new_commission_policy}
use molot.Billing.Psp.{FakePsp, new_fake_psp}
use molot.Billing.Values.{new_payment_term}
use molot.Settlement.Money as SettlementMoney
use molot.Settlement.Relist.{new_relist_policy}
use molot.Common.Auth.{new_middleware}
use molot.Common.Config.{
  Config, load, loaded, is_currency_code, all_upper, check_currency, check_secret, second, minute,
  hour, millisecond,
}
use molot.Common.Currency.{currencies_agree}
use molot.Common.Loader.{
  Environment, required, optional, duration, int_in_range, int64_non_negative, port, enum,
}
use molot.Common.Startup.{listing_rules, rules_of, load_starts}

abbrev variables : Text → Option Text
variables key =
    if Text.eq key (text "PLATFORM_CURRENCY")
    then some (text "EUR")
    else if Text.eq key (text "DATABASE_URL")
    then some (text "postgres:")
    else if Text.eq key (text "AUTH_HS256_SECRET")
    then some (text "secret")
    else none

abbrev environment : Environment
environment = record {
  lookup = variables;
  parse_duration = λ s. none;
  atoi = λ s. none;
  parse_int = λ s. none;
  duration_word = λ s d h. absurd (ground arith);
  atoi_word = λ s v h. absurd (ground arith);
  int_word = λ s v h. absurd (ground arith);
}

abbrev defaults : Config
defaults = record {
  platform_currency = text "EUR";
  commission_basis_points = 1000;
  verify_above_minor = 100_000;
  snipe_window = 5 * minute;
  snipe_extension = 5 * minute;
  snipe_max_extensions = 3;
  payment_term = 48 * hour;
  psp_mode = text "success";
  relist_delay = hour;
  relist_duration = 24 * hour;
  closing_poll_interval = second;
  expiry_poll_interval = 5 * second;
  bus_poll_interval = 100 * millisecond;
  http_port = 8080;
  database_url = text "postgres:";
  otel_exporter_otlp_endpoint = text "localhost:4317";
  auth_mode = text "local-hs256";
  auth_hs256_secret = text "secret";
  log_format = text "json";
}

defaults_loaded : load environment ≡ ok defaults
unfolding load loaded required optional duration int_in_range int64_non_negative port enum Text.eq
    Text.len is_currency_code all_upper check_currency check_secret
defaults_loaded = refl

load_starts_example :
    (listing_rules defaults ≡ ok (rules_of defaults))
    × (new_commission_policy 1000 ≡ ok (record { basis_points = 1000 }))
    × (new_payment_term (48 * hour) ≡ ok (48 * hour))
    × ((psp : FakePsp) × (new_fake_psp (text "success") ≡ some psp))
    × (new_relist_policy hour (24 * hour) ≡ ok (record { delay = hour; duration = 24 * hour }))
    × (new_middleware (text "local-hs256") (text "secret")
        ≡ Text.eq (text "local-hs256") (text "local-hs256"))
load_starts_example = load_starts environment defaults_loaded

currencies_agree_example :
    (AuctionMoney.new_currency (text "EUR") ≡ ok (text "EUR"))
    × (BillingMoney.new_currency (text "EUR") ≡ ok (text "EUR"))
    × (SettlementMoney.new_currency (text "EUR") ≡ ok (text "EUR"))
unfolding is_currency_code all_upper Text.len
currencies_agree_example = currencies_agree (text "EUR")
