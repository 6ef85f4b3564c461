-- ===== src/Common/Currency.antt =====
-- The four copies of the test of a currency code: internal/common/config/config.go and money.go of
-- the domains internal/auction/domain/auction, internal/billing/domain/invoice and
-- internal/settlement/domain/settlement.
use molot.Base.{◌≡◌, refl, [], ◌∷◌, ok, err, arith, if◌then◌else◌}
use molot.Text.{Text}
use molot.Auction.Errors as AuctionErrors
use molot.Auction.Money as AuctionMoney
use molot.Billing.Errors as BillingErrors
use molot.Billing.Money as BillingMoney
use molot.Settlement.Errors as SettlementErrors
use molot.Settlement.Money as SettlementMoney
use molot.Common.Config.{all_upper, is_currency_code}

loops_agree :
    (s : Text)
    → (AuctionMoney.all_upper s ≡ all_upper s)
      × (BillingMoney.all_upper s ≡ all_upper s)
      × (SettlementMoney.all_upper s ≡ all_upper s)
unfolding all_upper AuctionMoney.all_upper BillingMoney.all_upper SettlementMoney.all_upper
loops_agree [] = (refl, refl, refl)
loops_agree (r ∷ s) =
    let (a, b, c) = loops_agree s in (ground (arith, a), ground (arith, b), ground (arith, c))

pub currencies_agree :
    (s : Text)
    → (AuctionMoney.new_currency s
        ≡ (if is_currency_code s then ok s else err AuctionErrors.invalid_currency))
      × (BillingMoney.new_currency s
          ≡ (if is_currency_code s then ok s else err BillingErrors.invalid_currency))
      × (SettlementMoney.new_currency s
          ≡ (if is_currency_code s then ok s else err SettlementErrors.invalid_currency))
unfolding is_currency_code AuctionMoney.new_currency BillingMoney.new_currency
    SettlementMoney.new_currency
currencies_agree s =
    let (a, b, c) = loops_agree s in (ground (arith, a), ground (arith, b), ground (arith, c))
