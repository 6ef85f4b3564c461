-- ===== src/Auction/Integration.antt =====
-- internal/auction/events/events.go and internal/auction/adapters/events_mapper.go: the events that the
-- context publishes for the others.
use molot.Base.{ℕ, Bool, Option, none, some, [], if◌then◌else◌}
use molot.Text.{Text, text}
use molot.Time.{Time}
use molot.Uuid.{UuidText}
use molot.Auction.Bid
use molot.Auction.Bid.{Bid}
use molot.Auction.Status.{
  Outcome, undecided, sold, not_sold, FailureReason, none_given, payment_timeout,
  second_chance_declined, ClosingResult,
}
use molot.Auction.Events.{
  DomainEvent, auction_listed, bid_placed, auction_extended, auction_cancelled, auction_closed,
  winner_reassigned, auction_relisted, sale_settled, sale_failed,
}
use molot.Auction.Aggregate.{Auction}

-- `AuctionClosedV1`
pub record AuctionClosedV1 : Type 0 where
  pub event_id : Text
  pub auction_id : Text
  pub seller_id : Text
  pub outcome : Text
  pub winner_id : Text
  pub hammer_price_minor : ℕ
  pub currency : Text
  pub runner_up_bidder_id : Text
  pub runner_up_amount_minor : ℕ
  pub runner_up_qualifies : Bool
  pub relist_generation : ℕ
  pub occurred_at : Time

-- The structs of the package, with their fields in their order.
pub data IntegrationEvent : Type 0 where
  auction_listed_v1 :
      (event_id auction_id seller_id title : Text) (start_price_minor : ℕ) (currency : Text)
      (starts_at ends_at : Time) (relist_generation : ℕ) (occurred_at : Time)
      → IntegrationEvent
  bid_placed_v1 :
      (event_id auction_id bid_id bidder_id : Text) (amount_minor : ℕ) (currency : Text)
      (bid_count : ℕ) (extended : Bool) (new_ends_at : Time) (outbid_bidder_id : Text)
      (occurred_at : Time)
      → IntegrationEvent
  auction_cancelled_v1 :
      (event_id auction_id seller_id : Text) (occurred_at : Time) → IntegrationEvent
  auction_closed_v1 : AuctionClosedV1 → IntegrationEvent
  winner_reassigned_v1 :
      (event_id auction_id new_winner_id : Text) (price_minor : ℕ) (currency : Text)
      (occurred_at : Time)
      → IntegrationEvent
  auction_relisted_v1 :
      (event_id original_auction_id new_auction_id : Text) (starts_at ends_at occurred_at : Time)
      → IntegrationEvent
  sale_settled_v1 : (event_id auction_id winner_id : Text) (occurred_at : Time) → IntegrationEvent
  sale_failed_v1 : (event_id auction_id reason : Text) (occurred_at : Time) → IntegrationEvent

-- `Outcome.String` and `FailureReason.String`
unfoldable pub outcome_string : Outcome → Text
outcome_string undecided = text ""
outcome_string sold = text "sold"
outcome_string not_sold = text "not_sold"

unfoldable pub reason_string : FailureReason → Text
reason_string none_given = text ""
reason_string payment_timeout = text "payment_timeout"
reason_string second_chance_declined = text "second_chance_declined"

-- The bidder of a bid that may be absent, and its amount.
abbrev pub bidder_text : UuidText → Bid → Text
bidder_text lib b = if Bid.is_zero b then [] else lib.to_string b.bidder

abbrev pub amount_of : Bid → ℕ
amount_of b = if Bid.is_zero b then 0 else b.amount.amount

-- `event_id` is the text of the new UUID that the event gets.
module _ (lib : UuidText) (event_id : Text) where
  open lib use {to_string}

  unfoldable pub closed_event : Auction → ClosingResult → Time → AuctionClosedV1
  unfolding outcome_string
  closed_event a result occurred_at = record {
    event_id = event_id;
    auction_id = to_string a.id;
    seller_id = to_string a.seller;
    outcome = outcome_string result.outcome;
    winner_id = bidder_text lib result.winner;
    hammer_price_minor = amount_of result.winner;
    currency = a.start_price.currency;
    runner_up_bidder_id = bidder_text lib result.runner_up;
    runner_up_amount_minor = amount_of result.runner_up;
    runner_up_qualifies = result.runner_up_qualifies;
    relist_generation = a.relist_gen;
    occurred_at = occurred_at;
  }

  -- `mapDomainEvent`; `none` is its nil.
  unfoldable pub map_domain_event : Auction → DomainEvent → Option IntegrationEvent
  unfolding closed_event reason_string
  map_domain_event a (auction_listed at) = some (
      auction_listed_v1 event_id (to_string a.id) (to_string a.seller) a.lot.title
        a.start_price.amount a.start_price.currency a.window.starts_at a.window.ends_at a.relist_gen
        at)
  map_domain_event a (bid_placed bid outbid new_ends_at extended at) = some (
      bid_placed_v1 event_id (to_string a.id) (to_string bid.id) (to_string bid.bidder)
        bid.amount.amount a.start_price.currency a.bid_count extended new_ends_at
        (bidder_text lib outbid) at)
  map_domain_event a (auction_extended new_ends_at at) = none
  map_domain_event a (auction_cancelled at) =
      some (auction_cancelled_v1 event_id (to_string a.id) (to_string a.seller) at)
  map_domain_event a (auction_closed result at) =
      some (auction_closed_v1 (closed_event a result at))
  map_domain_event a (winner_reassigned new_winner at) = some (
      winner_reassigned_v1 event_id (to_string a.id) (to_string new_winner.bidder)
        new_winner.amount.amount a.start_price.currency at)
  map_domain_event a (auction_relisted original_id new_id starts_at ends_at at) =
      some (
        auction_relisted_v1 event_id (to_string original_id) (to_string new_id) starts_at ends_at
          at)
  map_domain_event a (sale_settled at) =
      some (sale_settled_v1 event_id (to_string a.id) (to_string a.leading_bid.bidder) at)
  map_domain_event a (sale_failed reason at) =
      some (sale_failed_v1 event_id (to_string a.id) (reason_string reason) at)
