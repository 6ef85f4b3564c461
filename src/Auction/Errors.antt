-- ===== src/Auction/Errors.antt =====
-- internal/auction/domain/auction/errors.go: the sentinels and the two typed errors. `invalid_version`
-- and `zero_now` are the errors that the factories make on the spot.
use molot.Uuid.{Uuid}

pub data Error : Type 0 where
  auction_not_open seller_cannot_bid leader_cannot_outbid_self currency_mismatch : Error
  bid_below_minimum verification_required unsupported_currency auction_has_bids : Error
  already_closed auction_cancelled bidding_still_open no_qualifying_runner_up : Error
  winner_already_reassigned relist_limit_reached already_relisted already_settled : Error
  sale_already_failed invalid_id invalid_currency negative_amount invalid_lot : Error
  invalid_start_price invalid_increment invalid_reserve invalid_bidding_window : Error
  invalid_anti_snipe_policy invalid_listing_rules invalid_bid invalid_status : Error
  invalid_outcome invalid_failure_reason invalid_version zero_now missing_actor : Error
  not_found : Uuid → Error
  forbidden_auction_management : Uuid → Uuid → Error
