-- ===== src/Settlement/OpeningTests.antt =====
-- A sale is reported twice: the theorem at one closed auction.
use molot.Base.{◌≡◌, arith, refl, true, false, Bool, ok, []}
use molot.Int64
use molot.Store
use molot.Text
use molot.Text.{text, itoa}
use molot.Settlement.Money
use molot.Settlement.Money.{new_currency, new_money}
use molot.Settlement.Closing.{
  new_auction_id, new_bidder_id, new_invoice_id, new_outcome_from_string, new_closing,
}
use molot.Settlement.Saga.{start, decide_on_invoice_issue, invoice_issued, unmarshal_from_database}
use molot.Settlement.Ids.{invoice_id_for_attempt}
use molot.Settlement.Repository
use molot.Settlement.Repository.{bumped, store_updated}
use molot.Settlement.Action.{World}
use molot.Settlement.Handlers.{ClosedAuction, runner_up_of, build_closing, on_auction_closed}
use molot.Settlement.Redelivery.{alone}
use molot.Settlement.Opening.{auction_closed_again}
use molot.Settlement.Samples.{awaiting, policy, uuids, gateways, gateways-IsIdempotent, with_saga}

abbrev event : ClosedAuction
event = record {
  auction_id = 1;
  outcome = text "sold";
  winner_id = 8;
  hammer_minor = 1200;
  currency = text "USD";
  runner_up_id = 7;
  runner_up_minor = 1000;
  runner_up_qualifies = true;
  relist_generation = 0;
}

abbrev empty_world : World Bool
empty_world = record { sagas = []; far = false }

abbrev opened_world : World Bool
opened_world = with_saga (record awaiting { invoice_id = 32; version = 2 }) true

closed_handled :
    on_auction_closed gateways uuids policy event 1000 alone empty_world ≡ (ok tt, opened_world)
unfolding on_auction_closed build_closing runner_up_of new_outcome_from_string new_auction_id
    new_bidder_id new_invoice_id new_currency Money.all_upper Text.len Text.eq new_money
    invoice_id_for_attempt itoa new_closing start decide_on_invoice_issue invoice_issued
    Repository.add Repository.get Repository.update bumped store_updated unmarshal_from_database
    Store.lookup Store.insert Int64.add Int64.lt
closed_handled = refl

auction_closed_again_example :
    on_auction_closed gateways uuids policy event 1001 alone opened_world ≡ (ok tt, opened_world)
auction_closed_again_example =
    auction_closed_again gateways uuids policy gateways-IsIdempotent event 1000 1001 empty_world
      (λ e. omega arith) closed_handled
