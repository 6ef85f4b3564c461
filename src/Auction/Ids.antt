-- ===== src/Auction/Ids.antt =====
-- internal/auction/domain/auction/ids.go and bidder.go: identities and the bidder.
use molot.Base.{Bool, Result, ok, ◌>>◌, reject_if, ◌&&◌, not}
use molot.Uuid.{Uuid, is_nil}
use molot.Auction.Errors.{Error, invalid_id}

abbrev pub AuctionId : Type 0
AuctionId = Uuid

abbrev pub SellerId : Type 0
SellerId = Uuid

abbrev pub BidderId : Type 0
BidderId = Uuid

abbrev pub BidId : Type 0
BidId = Uuid

unfoldable pub new_auction_id : Uuid → Result Error AuctionId
new_auction_id id = do reject_if (is_nil id) invalid_id; ok id

unfoldable pub new_bidder_id : Uuid → Result Error BidderId
new_bidder_id id = do reject_if (is_nil id) invalid_id; ok id

unfoldable pub new_seller_id : Uuid → Result Error SellerId
new_seller_id id = do reject_if (is_nil id) invalid_id; ok id

unfoldable pub new_bid_id : Uuid → Result Error BidId
new_bid_id id = do reject_if (is_nil id) invalid_id; ok id

pub record Bidder : Type 0 where
  pub id : BidderId
  pub verified : Bool

unfoldable pub new_bidder : BidderId → Bool → Result Error Bidder
new_bidder id verified = do
  reject_if (is_nil id) invalid_id
  ok (record { id = id; verified = verified })

-- `b == Bidder{}`
abbrev pub bidder_is_zero : Bidder → Bool
bidder_is_zero b = is_nil b.id && not b.verified
