-- ===== src/Auction/Facade.antt =====
-- internal/auction/service/facade.go: the commands that the settlement saga calls, with arguments of
-- primitive types.
use molot.Slug.{parsed}
use molot.Text.{Text}
use molot.Time.{Time}
use molot.Uuid.{Uuid}
use molot.Auction.Ids.{new_auction_id}
use molot.Auction.Schedule.{new_bidding_window}
use molot.Auction.Status.{new_failure_reason_from_string}
use molot.Auction.Commands
use molot.Auction.Commands.{Handler}

unfoldable pub award_to_runner_up : Uuid → Time → Handler
award_to_runner_up auction_id now =
    parsed (new_auction_id auction_id) "invalid-id" λ id. Commands.award_to_runner_up id now

unfoldable pub relist : Uuid → Uuid → Time → Time → Time → Handler
relist original_id new_id starts_at ends_at now =
    parsed (new_auction_id original_id) "invalid-id" λ orig_id.
      parsed (new_auction_id new_id) "invalid-id" λ relist_id.
        parsed (new_bidding_window starts_at ends_at) "invalid-window"
          λ window. Commands.relist_auction orig_id relist_id window now

unfoldable pub mark_sale_failed : Uuid → Text → Time → Handler
mark_sale_failed auction_id reason now = parsed (new_auction_id auction_id) "invalid-id" λ id.
    parsed (new_failure_reason_from_string reason) "invalid-failure-reason"
      λ failure_reason. Commands.mark_sale_failed id failure_reason now

unfoldable pub confirm_settlement : Uuid → Time → Handler
confirm_settlement auction_id now =
    parsed (new_auction_id auction_id) "invalid-id" λ id. Commands.confirm_settlement id now
