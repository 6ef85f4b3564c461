-- ===== src/Auction/Commands.antt =====
-- internal/auction/app/command: the handlers of the auction context's commands. Each takes the time
-- that its clock shows, and maps the errors of the domain to slugs; `ok` is a nil error.
use Prim.Native.String.{String}
use molot.Base.{Result, ok, err, panic}
use molot.Slug.{
  Fault, domain, slug, new_incorrect_input_error, new_forbidden_error, new_not_found_error,
  new_conflict_error,
}
use molot.Table.{answer}
use molot.Time.{Time}
use molot.Auction.Errors.{
  Error, auction_not_open, seller_cannot_bid, leader_cannot_outbid_self, currency_mismatch,
  bid_below_minimum, verification_required, unsupported_currency, auction_has_bids, already_closed,
  auction_cancelled, bidding_still_open, no_qualifying_runner_up, winner_already_reassigned,
  relist_limit_reached, already_relisted, already_settled, sale_already_failed, invalid_id,
  invalid_bid, invalid_increment, invalid_bidding_window, invalid_failure_reason, not_found,
  forbidden_auction_management,
}
use molot.Auction.Ids.{AuctionId, SellerId, BidderId, BidId, Bidder}
use molot.Auction.Money.{Money}
use molot.Auction.Lot.{Lot}
use molot.Auction.Reserve.{ReservePrice}
use molot.Auction.Schedule.{BiddingWindow}
use molot.Auction.ListingRules.{ListingRules}
use molot.Auction.Status.{FailureReason}
use molot.Auction.Aggregate
use molot.Auction.Aggregate.{Auction}
use molot.Auction.Repository
use molot.Auction.Repository.{Auctions}

-- A handler: the error or nil that it returns, and the table that it leaves.
abbrev pub Handler : Type 0
Handler = Auctions → Result (Fault Error) (Unit {0}) × Auctions

-- An update function that keeps the auction of a pair.
abbrev pub first : {B : Type 0} → Result Error (Auction × B) → Result Error Auction
first (ok (a, b)) = ok a
first (err e) = err e
first panic = panic

-- `mapNotFound`; anything else passes through.
unfoldable pub map_not_found : Error → Result (Fault Error) (Unit {0})
map_not_found (not_found id) = err (slug (new_not_found_error "auction-not-found"))
map_not_found e = err (domain e)

abbrev conflict : String → Result (Fault Error) (Unit {0})
conflict s = err (slug (new_conflict_error s))

abbrev incorrect : String → Result (Fault Error) (Unit {0})
incorrect s = err (slug (new_incorrect_input_error s))

abbrev forbidden : String → Result (Fault Error) (Unit {0})
forbidden s = err (slug (new_forbidden_error s))

-- `mapListingError`
unfoldable pub map_listing_error : Error → Result (Fault Error) (Unit {0})
map_listing_error unsupported_currency = incorrect "unsupported-currency"
map_listing_error invalid_bidding_window = incorrect "invalid-window"
map_listing_error invalid_increment = incorrect "invalid-increment"
map_listing_error currency_mismatch = incorrect "invalid-increment"
map_listing_error e = incorrect "invalid-listing"

unfoldable pub list_auction :
    ListingRules
    → AuctionId
    → SellerId
    → Lot
    → Money
    → Money
    → ReservePrice
    → BiddingWindow
    → Time
    → Handler
unfolding map_listing_error Repository.add
list_auction rules id seller lot start_price increment reserve window now m =
    elim (Aggregate.new id seller lot start_price increment reserve window rules now) [
      | ok a ↦ answer (λ e. err (domain e)) (Repository.add a m)
      | err e ↦ (map_listing_error e, m)
      | panic ↦ (panic, m)
    ]

-- `mapPlaceBidError`
unfoldable pub map_place_bid_error : Error → Result (Fault Error) (Unit {0})
unfolding map_not_found
map_place_bid_error auction_not_open = conflict "auction-not-open"
map_place_bid_error seller_cannot_bid = forbidden "seller-cannot-bid"
map_place_bid_error leader_cannot_outbid_self = conflict "leader-cannot-outbid-self"
map_place_bid_error currency_mismatch = incorrect "currency-mismatch"
map_place_bid_error bid_below_minimum = conflict "bid-below-minimum"
map_place_bid_error verification_required = forbidden "verification-required"
map_place_bid_error invalid_bid = incorrect "invalid-bid"
map_place_bid_error invalid_id = incorrect "invalid-bid"
map_place_bid_error e = map_not_found e

-- `profile` is what the directory of bidders answers.
unfoldable pub place_bid :
    Result (Fault Error) Bidder → AuctionId → BidId → BidderId → Money → Time → Handler
unfolding map_place_bid_error
place_bid profile id bid_id bidder amount now m = elim profile [
  | ok b ↦
      answer map_place_bid_error
        (Repository.update_by id bidder (λ a. first (Aggregate.place_bid a bid_id b amount now)) m)
  | err e ↦ (err e, m)
  | panic ↦ (panic, m)
]

-- `mapCancelError`
unfoldable pub map_cancel_error : Error → Result (Fault Error) (Unit {0})
unfolding map_not_found
map_cancel_error (forbidden_auction_management actor seller) = forbidden "not-seller"
map_cancel_error auction_has_bids = conflict "auction-has-bids"
map_cancel_error already_closed = conflict "already-closed"
map_cancel_error auction_cancelled = conflict "auction-cancelled"
map_cancel_error e = map_not_found e

unfoldable pub cancel_auction : AuctionId → SellerId → Time → Handler
unfolding map_cancel_error
cancel_auction id seller now m =
    answer map_cancel_error (Repository.update_by id seller (λ a. Aggregate.cancel a seller now) m)

-- The `switch` of `CloseAuctionHandler.Handle`.
unfoldable pub map_close_error : Error → Result (Fault Error) (Unit {0})
unfolding map_not_found
map_close_error already_closed = ok tt
map_close_error bidding_still_open = ok tt
map_close_error auction_cancelled = ok tt
map_close_error e = map_not_found e

unfoldable pub close_auction : AuctionId → Time → Handler
unfolding map_close_error
close_auction id now m =
    answer map_close_error (Repository.update id (λ a. first (Aggregate.close a now)) m)

-- The `switch` of `AwardToRunnerUpHandler.Handle`.
unfoldable pub map_award_error : Error → Result (Fault Error) (Unit {0})
unfolding map_not_found
map_award_error winner_already_reassigned = ok tt
map_award_error no_qualifying_runner_up = conflict "no-qualifying-runner-up"
map_award_error already_settled = conflict "already-settled"
map_award_error sale_already_failed = conflict "sale-already-failed"
map_award_error bidding_still_open = conflict "auction-not-closed"
map_award_error auction_cancelled = conflict "auction-not-closed"
map_award_error e = map_not_found e

unfoldable pub award_to_runner_up : AuctionId → Time → Handler
unfolding map_award_error
award_to_runner_up id now m =
    answer map_award_error
      (Repository.update id (λ a. first (Aggregate.award_to_runner_up a now)) m)

-- The `switch` of `ConfirmSettlementHandler.Handle`.
unfoldable pub map_confirm_error : Error → Result (Fault Error) (Unit {0})
unfolding map_not_found
map_confirm_error already_settled = ok tt
map_confirm_error sale_already_failed = conflict "sale-already-failed"
map_confirm_error bidding_still_open = conflict "auction-not-closed"
map_confirm_error auction_cancelled = conflict "auction-not-closed"
map_confirm_error e = map_not_found e

unfoldable pub confirm_settlement : AuctionId → Time → Handler
unfolding map_confirm_error
confirm_settlement id now m =
    answer map_confirm_error (Repository.update id (λ a. Aggregate.confirm_settlement a now) m)

-- The `switch` of `MarkSaleFailedHandler.Handle`.
unfoldable pub map_fail_error : Error → Result (Fault Error) (Unit {0})
unfolding map_not_found
map_fail_error sale_already_failed = ok tt
map_fail_error already_settled = conflict "already-settled"
map_fail_error invalid_failure_reason = incorrect "invalid-failure-reason"
map_fail_error bidding_still_open = conflict "auction-not-closed"
map_fail_error auction_cancelled = conflict "auction-not-closed"
map_fail_error e = map_not_found e

unfoldable pub mark_sale_failed : AuctionId → FailureReason → Time → Handler
unfolding map_fail_error
mark_sale_failed id reason now m =
    answer map_fail_error (Repository.update id (λ a. Aggregate.fail_sale a reason now) m)

-- `mapRelistError`
unfoldable pub map_relist_error : Error → Result (Fault Error) (Unit {0})
map_relist_error already_relisted = ok tt
map_relist_error relist_limit_reached = conflict "relist-limit-reached"
map_relist_error invalid_bidding_window = incorrect "invalid-window"
map_relist_error e = err (domain e)

unfoldable pub relist_auction : AuctionId → AuctionId → BiddingWindow → Time → Handler
unfolding map_relist_error map_not_found
relist_auction original_id new_id window now m = elim (Repository.get original_id m) [
  | ok orig ↦ elim (Aggregate.relisted_from orig new_id window now) [
    | ok relisted ↦ answer map_relist_error (Repository.add relisted m)
    | err e ↦ (map_relist_error e, m)
    | panic ↦ (panic, m)
  ]
  | err e ↦ (map_not_found e, m)
  | panic ↦ (panic, m)
]
