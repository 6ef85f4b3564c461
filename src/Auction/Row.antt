-- ===== src/Auction/Row.antt =====
-- internal/auction/adapters/auction_pg_repository.go: the row of an auction, as it is written and read.
-- A column that may be null is an option. The store itself is not modelled.
use molot.Base.{
  ℕ, ◌*◌, ◌^◌, ◌≡◌, ◌<◌, Bool, Option, none, some, [], Result, ok, err, ◌>>=◌, if◌then◌else◌,
}
use molot.Int64
use molot.Text
use molot.Text.{Text, text}
use molot.Time.{Time, Duration}
use molot.Uuid.{Uuid, nil, is_nil}
use molot.Auction.Errors.{Error, invalid_status, invalid_outcome, invalid_bid}
use molot.Auction.Ids.{new_auction_id, new_seller_id, new_bidder_id, new_bid_id, AuctionId}
use molot.Auction.Money.{Currency, new_currency, new_money}
use molot.Auction.Bid
use molot.Auction.Bid.{Bid, no_bid, new_bid}
use molot.Auction.Lot.{new_lot}
use molot.Auction.Reserve as Reserve
use molot.Auction.Reserve.{ReservePrice, new_reserve_price, no_reserve}
use molot.Auction.Schedule.{unmarshal_bidding_window}
use molot.Auction.AntiSnipe.{new_anti_snipe_policy}
use molot.Auction.Status.{
  Status, unset, listed, cancelled, closed, Outcome, undecided, sold, not_sold,
}
use molot.Auction.Integration.{outcome_string}
use molot.Auction.Aggregate.{Auction, unmarshal_from_database}

-- What the adapter uses of `Duration.Seconds`: the floating point number of seconds, cut to an integer.
-- It is exact for whole seconds, and zero below one.
pub record Clockwork : Type 0 where
  pub seconds : Duration → ℕ
  pub seconds_whole : (k : ℕ) → Int64.IsNat (k * 10 ^ 9) → seconds (k * 10 ^ 9) ≡ k
  pub seconds_below : (d : Duration) → d < 10 ^ 9 → seconds d ≡ 0

-- The four columns of a bid.
pub record BidColumns : Type 0 where
  pub bid_id : Option Uuid
  pub bidder_id : Option Uuid
  pub amount_minor : Option ℕ
  pub placed_at : Option Time

pub record PgAuction : Type 0 where
  pub id : Uuid
  pub seller_id : Uuid
  pub title : Text
  pub description : Text
  pub currency : Text
  pub start_price_minor : ℕ
  pub increment_minor : ℕ
  pub reserve_price_minor : Option ℕ
  pub starts_at : Time
  pub ends_at : Time
  pub original_ends_at : Time
  pub snipe_window_sec : ℕ
  pub snipe_extension_sec : ℕ
  pub snipe_max_ext : ℕ
  pub verify_above_minor : ℕ
  pub extensions_used : ℕ
  pub status : Text
  pub outcome : Option Text
  pub leading : BidColumns
  pub runner_up : BidColumns
  pub winner_reassigned : Bool
  pub bid_count : ℕ
  pub relist_of : Option Uuid
  pub relist_generation : ℕ
  pub settled : Bool
  pub version : ℕ

unfoldable pub status_string : Status → Text
status_string unset = text ""
status_string listed = text "listed"
status_string cancelled = text "cancelled"
status_string closed = text "closed"

unfoldable pub new_status_from_string : Text → Result Error Status
new_status_from_string s =
    if Text.eq s (text "listed")
    then ok listed
    else if Text.eq s (text "cancelled")
    then ok cancelled
    else if Text.eq s (text "closed")
    then ok closed
    else err invalid_status

unfoldable pub new_outcome_from_string : Text → Result Error Outcome
new_outcome_from_string s =
    if Text.eq s (text "sold")
    then ok sold
    else if Text.eq s (text "not_sold")
    then ok not_sold
    else err invalid_outcome

abbrev pub bid_columns : Bid → BidColumns
bid_columns b =
    if Bid.is_zero b
    then record { bid_id = none; bidder_id = none; amount_minor = none; placed_at = none }
    else record {
      bid_id = some b.id;
      bidder_id = some b.bidder;
      amount_minor = some b.amount.amount;
      placed_at = some b.placed_at;
    }

abbrev pub outcome_column : Outcome → Option Text
outcome_column undecided = none
outcome_column o = some (outcome_string o)

unfoldable pub to_pg_auction : Clockwork → Auction → PgAuction
to_pg_auction clockwork a = record {
  id = a.id;
  seller_id = a.seller;
  title = a.lot.title;
  description = a.lot.description;
  currency = a.start_price.currency;
  start_price_minor = a.start_price.amount;
  increment_minor = a.increment.amount;
  reserve_price_minor = if Reserve.is_zero a.reserve then none else some a.reserve.price.amount;
  starts_at = a.window.starts_at;
  ends_at = a.window.ends_at;
  original_ends_at = a.window.original_ends_at;
  snipe_window_sec = clockwork.seconds a.anti_snipe.window;
  snipe_extension_sec = clockwork.seconds a.anti_snipe.extension;
  snipe_max_ext = a.anti_snipe.max_extensions;
  verify_above_minor = a.verify_above.amount;
  extensions_used = a.extensions_used;
  status = status_string a.status;
  outcome = outcome_column a.outcome;
  leading = bid_columns a.leading_bid;
  runner_up = bid_columns a.runner_up_bid;
  winner_reassigned = a.winner_reassigned;
  bid_count = a.bid_count;
  relist_of = if is_nil a.relist_of then none else some a.relist_of;
  relist_generation = a.relist_gen;
  settled = a.settled;
  version = a.version;
}

-- `bidFromColumns`; columns that are populated in part are an error of their own, told as `invalid_bid`.
unfoldable pub bid_from_columns : BidColumns → Currency → Result Error Bid
bid_from_columns c currency = elim c.bid_id [
  | none ↦ ok no_bid
  | some bid_id ↦ elim c.bidder_id [
    | none ↦ err invalid_bid
    | some bidder_id ↦ elim c.amount_minor [
      | none ↦ err invalid_bid
      | some amount ↦ elim c.placed_at [
        | none ↦ err invalid_bid
        | some placed_at ↦ do
          typed_bid_id ← new_bid_id bid_id
          typed_bidder_id ← new_bidder_id bidder_id
          money ← new_money amount currency
          new_bid typed_bid_id typed_bidder_id money placed_at
      ]
    ]
  ]
]

abbrev pub reserve_from_column : Option ℕ → Currency → Result Error ReservePrice
reserve_from_column none currency = ok no_reserve
reserve_from_column (some minor) currency = do
  money ← new_money minor currency
  new_reserve_price money

abbrev pub outcome_from_column : Option Text → Result Error Outcome
outcome_from_column none = ok undecided
outcome_from_column (some s) = new_outcome_from_string s

abbrev pub relist_from_column : Option Uuid → Result Error AuctionId
relist_from_column none = ok nil
relist_from_column (some id) = new_auction_id id

-- `time.Duration(sec) * time.Second`
abbrev pub of_seconds : ℕ → Duration
of_seconds sec = Int64.mul sec (10 ^ 9)

unfoldable pub to_domain_auction : PgAuction → Result Error Auction
to_domain_auction p = do
  id ← new_auction_id p.id
  seller ← new_seller_id p.seller_id
  lot ← new_lot p.title p.description
  currency ← new_currency p.currency
  start_price ← new_money p.start_price_minor currency
  increment ← new_money p.increment_minor currency
  reserve ← reserve_from_column p.reserve_price_minor currency
  window ← unmarshal_bidding_window p.starts_at p.ends_at p.original_ends_at
  anti_snipe ←
      new_anti_snipe_policy (of_seconds p.snipe_window_sec) (of_seconds p.snipe_extension_sec)
        p.snipe_max_ext
  verify_above ← new_money p.verify_above_minor currency
  status ← new_status_from_string p.status
  outcome ← outcome_from_column p.outcome
  leading_bid ← bid_from_columns p.leading currency
  runner_up_bid ← bid_from_columns p.runner_up currency
  relist_of ← relist_from_column p.relist_of
  unmarshal_from_database (record {
    id = id;
    seller = seller;
    lot = lot;
    start_price = start_price;
    increment = increment;
    reserve = reserve;
    window = window;
    anti_snipe = anti_snipe;
    verify_above = verify_above;
    extensions_used = p.extensions_used;
    status = status;
    outcome = outcome;
    leading_bid = leading_bid;
    runner_up_bid = runner_up_bid;
    winner_reassigned = p.winner_reassigned;
    bid_count = p.bid_count;
    relist_of = relist_of;
    relist_gen = p.relist_generation;
    settled = p.settled;
    version = p.version;
    events = [];
  })
