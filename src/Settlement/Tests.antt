-- ===== src/Settlement/Tests.antt =====
-- A sale with a runner-up, from its closing to the second chance: the theorems at this saga.
use molot.Base.{◌≡◌, ◌+◌, ◌≤◌, ◌<◌, true, refl, Bool, false, ok, err}
use molot.Int64
use molot.Store
use molot.Text
use molot.Text.{text, itoa}
use molot.Settlement.Errors.{unexpected_transition}
use molot.Settlement.Money
use molot.Settlement.Money.{Money, new_currency, new_money}
use molot.Settlement.State.{
  awaiting_payment, awarding_runner_up, is_terminal, award_runner_up, relist, none_given,
}
use molot.Settlement.Closing.{new_auction_id, new_invoice_id, new_bidder_id}
use molot.Settlement.Relist.{window, window_after}
use molot.Settlement.Saga.{
  start, decide_on_payment_received, decide_on_payment_timeout, decide_on_decline,
  decide_on_winner_reassigned, decide_on_invoice_issue, can_runner_up_decline, guard_live_invoice,
  next_step_on_failure, invoice_issued, payment_received, runner_up_awarded,
  second_chance_invoice_issued, apply_next_step, unmarshal_from_database,
}
use molot.Settlement.Diagram.{◌⟶◌, forked, Commit-edge, terminal_absorbs}
use molot.Settlement.Commits.{offer_second_chance}
use molot.Settlement.Trace.{
  Reach, begins, issues, times_out, offers, IsConsistent, Reach-IsConsistent,
}
use molot.Settlement.Termination.{saga_ends}
use molot.Settlement.Ids.{invoice_id_for_attempt}
use molot.Settlement.Repository
use molot.Settlement.Repository.{Sagas, bumped, store_updated}
use molot.Settlement.Action.{World}
use molot.Settlement.Handlers.{
  parse_saga_ids, compensate, on_invoice_paid, on_invoice_expired, on_winner_reassigned,
}
use molot.Settlement.Redelivery.{alone, invoice_expired_crash, invoice_expired_again}
use molot.Settlement.Samples.{
  usd, closing, opened, awaiting, awarding, offered_again, done, policy, policy_made, uuids,
  gateways, gateways-IsIdempotent, with_saga,
}

opens : start closing ≡ ok opened
unfolding start
opens = refl

opened_issued : invoice_issued opened 31 ≡ ok awaiting
unfolding invoice_issued
opened_issued = refl

awaiting_due : decide_on_payment_timeout awaiting 31 ≡ ok award_runner_up
unfolding decide_on_payment_timeout guard_live_invoice next_step_on_failure
awaiting_due = refl

awaiting_forked : apply_next_step awaiting award_runner_up none_given ≡ ok awarding
unfolding apply_next_step
awaiting_forked = refl

awarding_offered : offer_second_chance 7 (usd 1000) 32 awarding ≡ ok offered_again
unfolding offer_second_chance runner_up_awarded second_chance_invoice_issued
    decide_on_winner_reassigned Text.eq
awarding_offered = refl

awaiting-Reach : Reach opened awaiting
awaiting-Reach = issues 31 begins opened_issued

offered-Reach : Reach opened offered_again
offered-Reach =
    offers 7 (usd 1000) 32 (times_out 31 awaiting-Reach awaiting_due awaiting-Reach awaiting_forked)
      awarding_offered

Reach-IsConsistent_example : IsConsistent opened offered_again
Reach-IsConsistent_example = Reach-IsConsistent closing opens offered-Reach

offered_due : decide_on_payment_timeout offered_again 32 ≡ ok relist
unfolding decide_on_payment_timeout guard_live_invoice next_step_on_failure
offered_due = refl

offered_declined : decide_on_decline offered_again 7 ≡ ok relist
unfolding decide_on_decline can_runner_up_decline next_step_on_failure
offered_declined = refl

saga_ends_example : 3 + 1 ≤ 4
saga_ends_example = saga_ends closing opens (
    offers 7 (usd 1000) 32
      (times_out 31 awaiting-Reach awaiting_due (issues 31 begins opened_issued) awaiting_forked)
      awarding_offered)

Commit-edge_example : awaiting_payment ⟶ awarding_runner_up
Commit-edge_example = Commit-edge (forked award_runner_up none_given awaiting_forked)

terminal_absorbs_example :
    (decide_on_invoice_issue done ≡ err unexpected_transition)
    × (decide_on_payment_received done 31 ≡ err unexpected_transition)
    × (decide_on_payment_timeout done 31 ≡ err unexpected_transition)
    × (decide_on_winner_reassigned done 7 (usd 1000) ≡ err unexpected_transition)
    × (invoice_issued done 31 ≡ err unexpected_transition)
    × (payment_received done 31 ≡ err unexpected_transition)
    × (runner_up_awarded done 7 (usd 1000) ≡ err unexpected_transition)
    × (second_chance_invoice_issued done 31 ≡ err unexpected_transition)
terminal_absorbs_example = terminal_absorbs done 31 7 (usd 1000) relist (unfold is_terminal in refl)

window_after_example :
    (1000 < (window policy 1000).0) × ((window policy 1000).0 < (window policy 1000).1)
window_after_example = window_after 60 600 1000 policy_made

abbrev before : World Bool
before = with_saga awaiting false

abbrev paid : World Bool
paid = with_saga (record done { version = 2 }) true

payment_handled : on_invoice_paid gateways uuids policy 1 31 1000 alone before ≡ (ok tt, paid)
unfolding on_invoice_paid parse_saga_ids new_auction_id new_invoice_id decide_on_payment_received
    payment_received guard_live_invoice Repository.get Repository.update bumped store_updated
    unmarshal_from_database Store.lookup Store.insert Int64.add Int64.lt
payment_handled = refl

abbrev timed_out : World Bool
timed_out = with_saga (record awarding { version = 2 }) true

timeout_handled :
    on_invoice_expired gateways uuids policy 1 31 1000 alone before ≡ (ok tt, timed_out)
unfolding on_invoice_expired parse_saga_ids new_auction_id new_invoice_id decide_on_payment_timeout
    compensate next_step_on_failure apply_next_step guard_live_invoice Repository.get
    Repository.update bumped store_updated unmarshal_from_database Store.lookup Store.insert
    Int64.add Int64.lt
timeout_handled = refl

invoice_expired_crash_example :
    on_invoice_expired gateways uuids policy 1 31 1001 alone (with_saga awaiting true)
    ≡ (ok tt, timed_out)
invoice_expired_crash_example =
    invoice_expired_crash gateways uuids policy gateways-IsIdempotent 60 600 policy_made 1 31 1000
      1001 before timeout_handled

invoice_expired_again_example :
    on_invoice_expired gateways uuids policy 1 31 1001 alone timed_out ≡ (ok tt, timed_out)
invoice_expired_again_example =
    invoice_expired_again gateways uuids policy gateways-IsIdempotent 60 600 policy_made 1 31 1000
      1001 before timeout_handled

abbrev before_offer : World Bool
before_offer = with_saga awarding false

abbrev after_offer : World Bool
after_offer = with_saga (record offered_again { version = 2 }) true

offer_handled :
    on_winner_reassigned gateways uuids policy 1 7 1000 (text "USD") 1000 alone before_offer
    ≡ (ok tt, after_offer)
unfolding on_winner_reassigned new_auction_id new_bidder_id new_currency Money.all_upper Text.len
    new_money decide_on_winner_reassigned offer_second_chance runner_up_awarded
    second_chance_invoice_issued invoice_id_for_attempt new_invoice_id itoa Repository.get
    Repository.update bumped store_updated unmarshal_from_database Store.lookup Store.insert
    Int64.add Int64.lt Text.eq
offer_handled = refl
