-- ===== src/Auction/Bid.antt =====
-- internal/auction/domain/auction/bid.go: an accepted bid; the zero value stands for no bid.
use molot.Base.{Bool, ◌&&◌, ◌||◌, Result, ok, ◌>>◌, reject_if}
use molot.Uuid.{is_nil}
use molot.Time
use molot.Time.{Time}
use molot.Auction.Errors.{Error, invalid_bid}
use molot.Auction.Ids.{BidId, BidderId}
use molot.Auction.Money
use molot.Auction.Money.{Money}

pub record Bid : Type 0 where
  pub id : BidId
  pub bidder : BidderId
  pub amount : Money
  pub placed_at : Time

unfoldable pub new_bid : BidId → BidderId → Money → Time → Result Error Bid
new_bid id bidder amount placed_at = do
  reject_if (is_nil id || is_nil bidder || Money.is_zero amount || Time.is_zero placed_at)
      invalid_bid
  ok (record { id = id; bidder = bidder; amount = amount; placed_at = placed_at })

-- `Bid{}`
abbrev pub no_bid : Bid
no_bid = record { id = 0; bidder = 0; amount = Money.zero_money; placed_at = 0 }

-- `b == Bid{}`
abbrev pub is_zero : Bid → Bool
is_zero b = is_nil b.id && is_nil b.bidder && Money.is_zero b.amount && Time.is_zero b.placed_at
