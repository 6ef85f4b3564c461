-- ===== src/Auction/Reserve.antt =====
-- internal/auction/domain/auction/reserve.go: the seller's hidden minimum, zero for none.
use molot.Base.{Bool, true, ◌||◌, not, Result, ok, ◌>>◌, reject_if, if◌then◌else◌}
use molot.Int64
use molot.Auction.Errors.{Error, invalid_reserve}
use molot.Auction.Money
use molot.Auction.Money.{Money, gte, holds}

pub record ReservePrice : Type 0 where
  pub price : Money

unfoldable pub new_reserve_price : Money → Result Error ReservePrice
new_reserve_price m = do
  reject_if (Money.is_zero m || not (Int64.is_pos m.amount)) invalid_reserve
  ok (record { price = m })

abbrev pub no_reserve : ReservePrice
no_reserve = record { price = Money.zero_money }

-- `r == ReservePrice{}`
abbrev pub is_zero : ReservePrice → Bool
is_zero r = Money.is_zero r.price

unfoldable pub met_by : ReservePrice → Money → Bool
unfolding gte
met_by r amount = if is_zero r then true else holds (gte amount r.price)
