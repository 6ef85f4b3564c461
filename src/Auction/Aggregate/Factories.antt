-- ===== src/Auction/Aggregate/Factories.antt =====
-- internal/auction/domain/auction/auction.go: how an auction comes to be: `New`, `RelistedFrom` and the row of a table.
use molot.Base.{false, ◌&&◌, ◌||◌, not, [], ◌∷◌, Result, ok, ◌>>◌, reject_if}
use molot.Int64
use molot.Text
use molot.Time
use molot.Time.{Time}
use molot.Uuid.{is_nil, nil}
use molot.Auction.Errors.{
  Error, currency_mismatch, unsupported_currency, relist_limit_reached, invalid_id, invalid_lot,
  invalid_start_price, invalid_increment, invalid_bidding_window, invalid_listing_rules,
  invalid_status, invalid_version, zero_now,
}
use molot.Auction.Ids.{AuctionId, SellerId}
use molot.Auction.Money
use molot.Auction.Money.{Money, gte, holds, holds_or_fails}
use molot.Auction.Bid.{no_bid}
use molot.Auction.Lot
use molot.Auction.Lot.{Lot}
use molot.Auction.Reserve
use molot.Auction.Reserve.{ReservePrice, met_by}
use molot.Auction.Schedule
use molot.Auction.Schedule.{BiddingWindow, is_open_at, extended_by}
use molot.Auction.ListingRules
use molot.Auction.ListingRules.{ListingRules}
use molot.Auction.Status.{listed, is_unset, undecided}
use molot.Auction.Events.{auction_listed, auction_relisted}
use molot.Auction.Aggregate.State.{Auction}

-- The literal that `New` builds.
unfoldable pub listing_of :
    AuctionId
    → SellerId
    → Lot
    → Money
    → Money
    → ReservePrice
    → BiddingWindow
    → ListingRules
    → Time
    → Auction
listing_of id seller lot start_price increment reserve window rules now = record {
  id = id;
  seller = seller;
  lot = lot;
  start_price = start_price;
  increment = increment;
  reserve = reserve;
  window = window;
  anti_snipe = rules.anti_snipe;
  verify_above = rules.verify_above;
  extensions_used = 0;
  status = listed;
  outcome = undecided;
  leading_bid = no_bid;
  runner_up_bid = no_bid;
  winner_reassigned = false;
  bid_count = 0;
  relist_of = nil;
  relist_gen = 0;
  settled = false;
  version = 1;
  events = auction_listed now ∷ [];
}

unfoldable pub new :
    AuctionId
    → SellerId
    → Lot
    → Money
    → Money
    → ReservePrice
    → BiddingWindow
    → ListingRules
    → Time
    → Result Error Auction
new id seller lot start_price increment reserve window rules now = do
  reject_if (is_nil id || is_nil seller) invalid_id
  reject_if (Lot.is_zero lot) invalid_lot
  reject_if (ListingRules.is_zero rules) invalid_listing_rules
  reject_if (Time.is_zero now) zero_now
  reject_if (Money.is_zero start_price || not (Int64.is_pos start_price.amount)) invalid_start_price
  reject_if (not (Text.eq start_price.currency rules.currency)) unsupported_currency
  reject_if (Money.is_zero increment || not (Int64.is_pos increment.amount)) invalid_increment
  reject_if (not (Text.eq increment.currency start_price.currency)) currency_mismatch
  reject_if
      (not (Reserve.is_zero reserve) && not (Text.eq reserve.price.currency start_price.currency))
      currency_mismatch
  reject_if (Schedule.is_zero window) invalid_bidding_window
  reject_if (not (Time.after window.ends_at now)) invalid_bidding_window
  ok (listing_of id seller lot start_price increment reserve window rules now)

-- `RelistedFrom`, of an original that is not a nil pointer.
unfoldable pub relisted_from : Auction → AuctionId → BiddingWindow → Time → Result Error Auction
relisted_from orig new_id window now = do
  reject_if (is_nil new_id) invalid_id
  reject_if (Int64.le 1 orig.relist_gen) relist_limit_reached
  reject_if (Schedule.is_zero window || not (Time.after window.ends_at now)) invalid_bidding_window
  ok (record {
    id = new_id;
    seller = orig.seller;
    lot = orig.lot;
    start_price = orig.start_price;
    increment = orig.increment;
    reserve = orig.reserve;
    window = window;
    anti_snipe = orig.anti_snipe;
    verify_above = orig.verify_above;
    extensions_used = 0;
    status = listed;
    outcome = undecided;
    leading_bid = no_bid;
    runner_up_bid = no_bid;
    winner_reassigned = false;
    bid_count = 0;
    relist_of = orig.id;
    relist_gen = Int64.add orig.relist_gen 1;
    settled = false;
    version = 1;
    events =
        auction_listed now
        ∷ auction_relisted orig.id new_id window.starts_at window.ends_at now
        ∷ [];
  })

-- `UnmarshalFromDatabase` checks the structure of a stored row, whose fields `a` holds.
unfoldable pub unmarshal_from_database : Auction → Result Error Auction
unmarshal_from_database a = do
  reject_if (is_nil a.id || is_nil a.seller) invalid_id
  reject_if (is_unset a.status) invalid_status
  reject_if (Schedule.is_zero a.window) invalid_bidding_window
  reject_if (Int64.lt a.version 1) invalid_version
  ok (record a { events = [] })
