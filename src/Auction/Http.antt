-- ===== src/Auction/Http.antt =====
-- internal/auction/ports/http.go: the endpoints that change an auction, and those that read with an
-- identity of the caller. `uuids` writes the identities into a location.
use molot.Base.{ℕ, not, Option, none, some, ◌++◌, Result, ok, ◌>>=◌, ◌>>◌, reject_if, ◌==◌}
use molot.Slug.{Fault, slug, new_forbidden_error}
use molot.Text.{Text, text}
use molot.Time.{Time}
use molot.Uuid.{Uuid, UuidText}
use molot.Common.Auth.{User}
use molot.Common.Http.{caller, argument, given, with_answer}
use molot.Auction.Errors.{Error}
use molot.Auction.Ids.{
  AuctionId, SellerId, BidderId, BidId, Bidder, new_auction_id, new_bidder_id, new_seller_id,
  new_bid_id,
}
use molot.Auction.Money.{Money, Currency, new_currency, new_money}
use molot.Auction.Lot.{Lot, new_lot}
use molot.Auction.Reserve.{ReservePrice, new_reserve_price, no_reserve}
use molot.Auction.Schedule.{BiddingWindow, new_bidding_window}
use molot.Auction.ListingRules.{ListingRules}
use molot.Auction.Commands as Commands
use molot.Auction.Repository.{Auctions}

-- The body of a listing; a field that may be missing is an option.
pub record ListAuctionBody : Type 0 where
  pub id : Uuid
  pub currency : Text
  pub start_price_minor : ℕ
  pub increment_minor : ℕ
  pub reserve_price_minor : Option ℕ
  pub title : Text
  pub description : Option Text
  pub starts_at : Time
  pub ends_at : Time

pub record PlaceBidBody : Type 0 where
  pub bid_id : Uuid
  pub currency : Text
  pub amount_minor : ℕ

-- The reserve of a listing.
abbrev reserve_of : Option ℕ → Currency → Result (Fault Error) ReservePrice
reserve_of none currency = ok no_reserve
reserve_of (some minor) currency = do
  money ← argument (new_money minor currency) "invalid-reserve"
  argument (new_reserve_price money) "invalid-reserve"

abbrev description_of : Option Text → Text
description_of none = text ""
description_of (some d) = d

-- The arguments of `ListAuction`, in the order of their checks.
pub record Listing : Type 0 where
  pub id : AuctionId
  pub seller : SellerId
  pub lot : Lot
  pub start_price : Money
  pub increment : Money
  pub reserve : ReservePrice
  pub window : BiddingWindow

unfoldable pub listing_arguments : Option User → ListAuctionBody → Result (Fault Error) Listing
listing_arguments user body = do
  u ← caller user
  seller ← argument (new_seller_id u.id) "invalid-id"
  id ← argument (new_auction_id body.id) "invalid-id"
  currency ← argument (new_currency body.currency) "unsupported-currency"
  start_price ← argument (new_money body.start_price_minor currency) "invalid-listing"
  increment ← argument (new_money body.increment_minor currency) "invalid-increment"
  reserve ← reserve_of body.reserve_price_minor currency
  lot ← argument (new_lot body.title (description_of body.description)) "invalid-lot"
  window ← argument (new_bidding_window body.starts_at body.ends_at) "invalid-window"
  ok (record {
    id = id;
    seller = seller;
    lot = lot;
    start_price = start_price;
    increment = increment;
    reserve = reserve;
    window = window;
  })

-- The arguments of `PlaceBid`.
pub record Offer : Type 0 where
  pub id : AuctionId
  pub bid_id : BidId
  pub bidder : BidderId
  pub amount : Money

unfoldable pub offer_arguments : Option User → Uuid → PlaceBidBody → Result (Fault Error) Offer
offer_arguments user id body = do
  u ← caller user
  bidder ← argument (new_bidder_id u.id) "invalid-id"
  auction_id ← argument (new_auction_id id) "invalid-id"
  bid_id ← argument (new_bid_id body.bid_id) "invalid-bid"
  currency ← argument (new_currency body.currency) "currency-mismatch"
  amount ← argument (new_money body.amount_minor currency) "invalid-bid"
  ok (record { id = auction_id; bid_id = bid_id; bidder = bidder; amount = amount })

-- The arguments of `CancelAuction`.
unfoldable pub cancel_arguments : Option User → Uuid → Result (Fault Error) (SellerId × AuctionId)
cancel_arguments user id = do
  u ← caller user
  seller ← argument (new_seller_id u.id) "invalid-id"
  auction_id ← argument (new_auction_id id) "invalid-id"
  ok (seller, auction_id)

module _ (uuids : UuidText) where
  unfoldable pub list_auction :
      ListingRules
      → Option User
      → ListAuctionBody
      → Time
      → Auctions
      → Result (Fault Error) Text × Auctions
  list_auction rules user body now = given (listing_arguments user body) λ l m.
      with_answer (text "/api/auctions/" ++ uuids.to_string l.id) (
        Commands.list_auction rules l.id l.seller l.lot l.start_price l.increment l.reserve l.window
          now m)

  -- `profile` answers for the directory of bidders.
  unfoldable pub place_bid :
      (BidderId → Result (Fault Error) Bidder)
      → Option User
      → Uuid
      → PlaceBidBody
      → Time
      → Auctions
      → Result (Fault Error) Text × Auctions
  place_bid profile user id body now = given (offer_arguments user id body) λ o m.
      with_answer
        (text "/api/auctions/" ++ uuids.to_string o.id ++ text "/bids/" ++ uuids.to_string o.bid_id)
        (Commands.place_bid (profile o.bidder) o.id o.bid_id o.bidder o.amount now m)

unfoldable pub cancel_auction :
    Option User → Uuid → Time → Auctions → Result (Fault Error) (Unit {0}) × Auctions
cancel_auction user id now =
    given (cancel_arguments user id)
      λ (seller, auction_id). Commands.cancel_auction auction_id seller now

-- `SellerDashboard`: `dashboard` is the read model, which only the seller asks.
unfoldable pub seller_dashboard :
    {V : Type 0} → (SellerId → Result (Fault Error) V) → Option User → Uuid → Result (Fault Error) V
seller_dashboard dashboard user seller_id = do
  u ← caller user
  reject_if (not (u.id == seller_id)) (slug (new_forbidden_error "not-dashboard-owner"))
  seller ← argument (new_seller_id u.id) "invalid-id"
  dashboard seller
