-- ===== src/Auction/ListingRules.antt =====
-- internal/auction/domain/auction/listing_rules.go: the platform policy that a listing copies.
use molot.Base.{Bool, ◌&&◌, ◌||◌, not, Result, ok, ◌>>◌, reject_if}
use molot.Text
use molot.Auction.Errors.{Error, invalid_currency, invalid_listing_rules}
use molot.Auction.Money
use molot.Auction.Money.{Money, Currency}
use molot.Auction.AntiSnipe
use molot.Auction.AntiSnipe.{AntiSnipePolicy}

pub record ListingRules : Type 0 where
  pub currency : Currency
  pub verify_above : Money
  pub anti_snipe : AntiSnipePolicy

unfoldable pub new_listing_rules : Currency → Money → AntiSnipePolicy → Result Error ListingRules
new_listing_rules currency verify_above anti_snipe = do
  reject_if (Text.is_empty currency) invalid_currency
  reject_if (Money.is_zero verify_above || not (Text.eq verify_above.currency currency))
      invalid_listing_rules
  reject_if (AntiSnipe.is_zero anti_snipe) invalid_listing_rules
  ok (record { currency = currency; verify_above = verify_above; anti_snipe = anti_snipe })

-- `r == ListingRules{}`
abbrev pub is_zero : ListingRules → Bool
is_zero r =
    Text.is_empty r.currency && Money.is_zero r.verify_above && AntiSnipe.is_zero r.anti_snipe
