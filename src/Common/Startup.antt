-- ===== src/Common/Startup.antt =====
-- What the services make of a configuration when they start: internal/auction/service/service.go,
-- `listingRules`, and the constructors that internal/billing/service/service.go and
-- internal/settlement/service/service.go call.
use molot.Base.{
  ◌≡◌, refl, true, false, [], ◌∷◌, some, Result, ok, ◌>>=◌, arith, Option-cases, inl, inr,
}
use molot.Int64
use molot.Text
use molot.Text.{Text, text}
use molot.Auction.Errors as AuctionErrors
use molot.Auction.Money.{new_currency, new_money}
use molot.Auction.AntiSnipe.{new_anti_snipe_policy}
use molot.Auction.ListingRules.{ListingRules, new_listing_rules}
use molot.Billing.Money.{new_commission_policy}
use molot.Billing.Values.{new_payment_term}
use molot.Billing.Psp.{FakePsp, new_fake_psp}
use molot.Settlement.Relist.{new_relist_policy}
use molot.Common.Auth.{new_middleware}
use molot.Common.Config.{Config, load, is_currency_code, check_secret}
use molot.Common.Currency.{currencies_agree}
use molot.Common.Fit.{IsFit, load-IsFit}
use molot.Common.Loader.{Environment}

unfoldable pub listing_rules : Config → Result AuctionErrors.Error ListingRules
listing_rules cfg = do
  currency ← new_currency cfg.platform_currency
  verify_above ← new_money cfg.verify_above_minor currency
  anti_snipe ← new_anti_snipe_policy cfg.snipe_window cfg.snipe_extension cfg.snipe_max_extensions
  new_listing_rules currency verify_above anti_snipe

-- The rules with the values of a configuration.
abbrev pub rules_of : Config → ListingRules
rules_of cfg = record {
  currency = cfg.platform_currency;
  verify_above = record { amount = cfg.verify_above_minor; currency = cfg.platform_currency };
  anti_snipe = record {
    window = cfg.snipe_window;
    extension = cfg.snipe_extension;
    max_extensions = cfg.snipe_max_extensions;
  };
}

code_set : (s : Text) → is_currency_code s ≡ true → Text.is_empty s ≡ false
unfolding is_currency_code Text.len
code_set [] h = absurd (ground arith)
code_set (r ∷ s) h = refl

module _ (cfg : Config) (v : IsFit cfg) where
  rules_made : listing_rules cfg ≡ ok (rules_of cfg)
  unfolding listing_rules new_money new_anti_snipe_policy new_listing_rules
  rules_made = ground (
    arith,
    v.currency,
    v.verify_above,
    v.snipe_window,
    v.snipe_extension,
    v.snipe_max,
    (currencies_agree cfg.platform_currency).0,
    code_set cfg.platform_currency v.currency,
    Text.eq_refl cfg.platform_currency,
  )

  psp_made : (psp : FakePsp) × (new_fake_psp cfg.psp_mode ≡ some psp)
  unfolding new_fake_psp
  psp_made = elim (Option-cases (new_fake_psp cfg.psp_mode)) [
    | inl refused ↦ absurd (ground (arith, refused, v.psp_mode))
    | inr made ↦ made
  ]

-- Where the configuration loads, every service accepts its values: the listing rules, the
-- commission policy, the payment term, the mode of the payment provider and the relist policy are
-- made with them, and the authentication middleware is made in the mode local-hs256 and in no
-- other.
pub load_starts :
    (env : Environment) {cfg : Config}
    → load env ≡ ok cfg
    → (listing_rules cfg ≡ ok (rules_of cfg))
      × (new_commission_policy cfg.commission_basis_points
          ≡ ok (record { basis_points = cfg.commission_basis_points }))
      × (new_payment_term cfg.payment_term ≡ ok cfg.payment_term)
      × ((psp : FakePsp) × (new_fake_psp cfg.psp_mode ≡ some psp))
      × (new_relist_policy cfg.relist_delay cfg.relist_duration
          ≡ ok (record { delay = cfg.relist_delay; duration = cfg.relist_duration }))
      × (new_middleware cfg.auth_mode cfg.auth_hs256_secret
          ≡ Text.eq cfg.auth_mode (text "local-hs256"))
unfolding new_commission_policy new_payment_term new_relist_policy new_middleware check_secret
    Int64.lt
load_starts env {cfg} h =
    let v = load-IsFit env h in
    (
      rules_made cfg v,
      ground (arith, v.commission),
      ground (arith, v.payment_term),
      psp_made cfg v,
      ground (arith, v.relist_delay, v.relist_duration),
      ground (arith, v.secret),
    )
