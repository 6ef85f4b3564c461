-- ===== src/Settlement/Ports.antt =====
-- internal/settlement/ports/events.go: the subscriptions of the saga, which read the identities in an
-- event before they call its handler. `none` is an error of the parser: the event is dead-lettered.
use molot.Base.{Option, none, some, if◌then◌else◌}
use molot.Text
use molot.Text.{Text}
use molot.Uuid.{Uuid, UuidText, nil}
use molot.Auction.Integration.{AuctionClosedV1}
use molot.Settlement.Handlers.{ClosedAuction}

module _ (lib : UuidText) where
  open lib use {parse}

  unfoldable pub parse_optional_event_uuid : Text → Option Uuid
  parse_optional_event_uuid raw = if Text.is_empty raw then some nil else parse raw

  -- What `settlement.OnAuctionClosedStartSettlement` makes of its event.
  unfoldable pub closed_auction : AuctionClosedV1 → Option ClosedAuction
  unfolding parse_optional_event_uuid
  closed_auction e = elim (parse e.auction_id) [
    | none ↦ none
    | some auction_id ↦ elim (parse_optional_event_uuid e.winner_id) [
      | none ↦ none
      | some winner_id ↦ elim (parse_optional_event_uuid e.runner_up_bidder_id) [
        | none ↦ none
        | some runner_up_id ↦ some (record {
          auction_id = auction_id;
          outcome = e.outcome;
          winner_id = winner_id;
          hammer_minor = e.hammer_price_minor;
          currency = e.currency;
          runner_up_id = runner_up_id;
          runner_up_minor = e.runner_up_amount_minor;
          runner_up_qualifies = e.runner_up_qualifies;
          relist_generation = e.relist_generation;
        })
      ]
    ]
  ]
