-- ===== src/Auction/Aggregate/Ending.antt =====
-- internal/auction/domain/auction/auction.go: cancelling, closing and settling. Each method makes all of its checks before its first write.
use molot.Base.{
  Bool, true, ◌&&◌, ◌||◌, not, Result, ok, err, panic, ◌>>◌, reject_if, ◌==◌, if◌then◌else◌,
}
use molot.Time
use molot.Time.{Time}
use molot.Auction.Errors.{
  Error, auction_has_bids, already_closed, auction_cancelled, bidding_still_open,
  no_qualifying_runner_up, winner_already_reassigned, already_settled, sale_already_failed,
  invalid_failure_reason, forbidden_auction_management,
}
use molot.Auction.Ids.{SellerId}
use molot.Auction.Bid
use molot.Auction.Bid.{Bid, new_bid, no_bid}
use molot.Auction.Reserve.{met_by}
use molot.Auction.Status.{
  Status, unset, listed, cancelled, closed, sold, not_sold, is_sold, is_not_sold, ClosingResult,
  FailureReason, reason_is_zero,
}
use molot.Auction.Events.{
  auction_cancelled as cancelled_event, auction_closed, winner_reassigned as reassigned_event,
  sale_settled, sale_failed,
}
use molot.Auction.Aggregate.State.{Auction, recorded, has_bids}

-- `CanSellerManageAuction`
unfoldable pub can_seller_manage_auction : SellerId → Auction → Result Error (Unit {0})
can_seller_manage_auction s a =
    reject_if (not (s == a.seller)) (forbidden_auction_management s a.seller)

-- The `switch` of `Cancel`.
unfoldable pub cancel_status : Status → Result Error (Unit {0})
cancel_status cancelled = err auction_cancelled
cancel_status closed = err already_closed
cancel_status listed = ok tt
cancel_status unset = panic

unfoldable pub cancel : Auction → SellerId → Time → Result Error Auction
unfolding cancel_status can_seller_manage_auction
cancel a by now = do
  can_seller_manage_auction by a
  cancel_status a.status
  reject_if (has_bids a) auction_has_bids
  ok (recorded (cancelled_event now) (record a { status = cancelled }))

unfoldable pub close_status : Status → Result Error (Unit {0})
close_status closed = err already_closed
close_status cancelled = err auction_cancelled
close_status listed = ok tt
close_status unset = panic

-- `sold := !a.leadingBid.IsZero() && a.reserve.MetBy(a.leadingBid.Amount())`
unfoldable pub meets_reserve : Auction → Bid → Bool
meets_reserve a b = not (Bid.is_zero b) && met_by a.reserve b.amount

unfoldable pub closing_result : Auction → ClosingResult
unfolding meets_reserve
closing_result a =
    let is_sale = meets_reserve a a.leading_bid in
    record {
      outcome = if is_sale then sold else not_sold;
      winner = if is_sale then a.leading_bid else no_bid;
      runner_up = a.runner_up_bid;
      runner_up_qualifies = meets_reserve a a.runner_up_bid;
    }

unfoldable pub close : Auction → Time → Result Error (Auction × ClosingResult)
unfolding close_status closing_result
close a now = do
  close_status a.status
  reject_if (Time.before now a.window.ends_at) bidding_still_open
  let result = closing_result a
  ok (
    recorded (auction_closed result now) (record a { status = closed; outcome = result.outcome }),
    result,
  )

-- The `switch` that `AwardToRunnerUp`, `ConfirmSettlement` and `FailSale` share.
unfoldable pub require_closed : Status → Result Error (Unit {0})
require_closed cancelled = err auction_cancelled
require_closed listed = err bidding_still_open
require_closed closed = ok tt
require_closed unset = panic

unfoldable pub award_to_runner_up : Auction → Time → Result Error (Auction × Bid)
unfolding require_closed
award_to_runner_up a now = do
  reject_if a.winner_reassigned winner_already_reassigned
  require_closed a.status
  reject_if (a.settled && is_not_sold a.outcome) sale_already_failed
  reject_if a.settled already_settled
  reject_if (not (is_sold a.outcome) || Bid.is_zero a.runner_up_bid) no_qualifying_runner_up
  ok (
    recorded (reassigned_event a.runner_up_bid now) (record a {
      leading_bid = a.runner_up_bid;
      runner_up_bid = no_bid;
      winner_reassigned = true;
    }),
    a.runner_up_bid,
  )

unfoldable pub confirm_settlement : Auction → Time → Result Error Auction
unfolding require_closed
confirm_settlement a now = do
  require_closed a.status
  reject_if (not (is_sold a.outcome)) sale_already_failed
  reject_if a.settled already_settled
  ok (recorded (sale_settled now) (record a { settled = true }))

unfoldable pub fail_sale : Auction → FailureReason → Time → Result Error Auction
unfolding require_closed
fail_sale a reason now = do
  reject_if (reason_is_zero reason) invalid_failure_reason
  require_closed a.status
  reject_if (is_not_sold a.outcome) sale_already_failed
  reject_if a.settled already_settled
  ok (recorded (sale_failed reason now) (record a { outcome = not_sold; settled = true }))
