-- ===== src/Auction/Aggregate/Placing.antt =====
-- internal/auction/domain/auction/auction.go: bids, and the deadline that they move.
use molot.Base.{
  Bool, ◌&&◌, ◌||◌, not, Result, ok, err, panic, ◌>>=◌, ◌>>◌, reject_if, ◌==◌, if◌then◌else◌,
}
use molot.Int64
use molot.Text
use molot.Time.{Time}
use molot.Auction.Errors.{
  Error, auction_not_open, seller_cannot_bid, leader_cannot_outbid_self, currency_mismatch,
  bid_below_minimum, verification_required, invalid_id,
}
use molot.Auction.Ids.{BidId, Bidder, bidder_is_zero}
use molot.Auction.Money
use molot.Auction.Money.{Money, gte, holds, holds_or_fails}
use molot.Auction.Bid
use molot.Auction.Bid.{Bid, new_bid, no_bid}
use molot.Auction.Schedule.{is_open_at, extended_by}
use molot.Auction.AntiSnipe.{triggers_at}
use molot.Auction.Status.{is_listed}
use molot.Auction.Events.{bid_placed, auction_extended}
use molot.Auction.Aggregate.State.{Auction, recorded}

-- `MinimalNextBid`: it panics where the currencies of the leading bid and the increment differ.
unfoldable pub minimal_next_bid : Auction → Result Error Money
minimal_next_bid a =
    if Bid.is_zero a.leading_bid
    then ok a.start_price
    else elim (Money.add a.leading_bid.amount a.increment) [
      | ok m ↦ ok m
      | err e ↦ panic
      | panic ↦ panic
    ]

-- The deadline of `PlaceBid`: is the window extended by a bid at `now`?
unfoldable pub extends_at : Auction → Time → Bool
extends_at a now =
    triggers_at a.anti_snipe now a.window.ends_at
    && Int64.lt a.extensions_used a.anti_snipe.max_extensions

unfoldable pub extend_window : Auction → Time → Auction
extend_window a now =
    let w = extended_by a.window a.anti_snipe.extension in
    recorded (auction_extended w.ends_at now)
      (record a { window = w; extensions_used = Int64.add a.extensions_used 1 })

-- The writes of `PlaceBid`, after its guards.
unfoldable pub accept_bid : Auction → Bid → Time → Auction
accept_bid a bid now =
    let b = record a {
      runner_up_bid = a.leading_bid;
      leading_bid = bid;
      bid_count = Int64.add a.bid_count 1;
    } in
    let extended = extends_at a now in
    let c = if extended then extend_window b now else b in
    recorded (bid_placed bid a.leading_bid c.window.ends_at extended now) c

unfoldable pub place_bid : Auction → BidId → Bidder → Money → Time → Result Error (Auction × Bid)
place_bid a id b amount now = do
  reject_if (bidder_is_zero b) invalid_id
  reject_if (not (is_listed a.status) || not (is_open_at a.window now)) auction_not_open
  reject_if (b.id == a.seller) seller_cannot_bid
  reject_if (not (Bid.is_zero a.leading_bid) && (a.leading_bid.bidder == b.id))
      leader_cannot_outbid_self
  reject_if (not (Text.eq amount.currency a.start_price.currency)) currency_mismatch
  minimum ← minimal_next_bid a
  reject_if (not (holds (gte amount minimum))) bid_below_minimum
  reject_if (not b.verified && holds_or_fails (gte amount a.verify_above)) verification_required
  bid ← new_bid id b.id amount now
  ok (accept_bid a bid now, bid)
