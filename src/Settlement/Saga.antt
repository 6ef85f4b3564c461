-- ===== src/Settlement/Saga.antt =====
-- internal/settlement/domain/settlement/settlement.go: the settlement saga. A decide-phase method
-- reads the saga only; a commit-phase method returns the new saga, and makes its checks before its
-- writes.
use molot.Base.{
  ℕ, Bool, true, false, ◌&&◌, ◌||◌, not, Result, ok, err, panic, ◌>>◌, reject_if, ◌==◌,
  if◌then◌else◌,
}
use molot.Int64
use molot.Uuid.{is_nil}
use molot.Settlement.Errors.{
  Error, unexpected_transition, not_offer_recipient, offer_already_paid, winner_mismatch,
  auction_id_required, winner_required, hammer_required, closing_required, state_required,
  invalid_attempt, invalid_version, award_with_reason, failure_without_reason,
}
use molot.Settlement.Money
use molot.Settlement.Money.{Money}
use molot.Settlement.State.{
  State, started, awaiting_payment, awarding_runner_up, second_chance_payment, settled, relisted,
  failed_unsold, is_unset, is_started, NextStep, award_runner_up, relist, fail_unsold,
  FailureReason, none_given, reason_is_zero,
}
use molot.Settlement.Closing
use molot.Settlement.Closing.{Closing, AuctionId, BidderId, InvoiceId}

pub record Settlement : Type 0 where
  pub auction_id : AuctionId
  pub state : State
  pub winner : BidderId
  pub hammer : Money
  pub runner_up : BidderId
  pub runner_up_amount : Money
  pub runner_up_qualifies : Bool
  pub relist_gen : ℕ  -- int
  pub attempt : ℕ  -- int
  pub invoice_id : InvoiceId
  pub failure_reason : FailureReason
  pub version : ℕ  -- int64

unfoldable pub start : Closing → Result Error Settlement
start c = do
  reject_if (Closing.is_zero c) closing_required
  ok (record {
    auction_id = c.auction_id;
    state = started;
    winner = c.winner;
    hammer = c.hammer;
    runner_up = c.runner_up;
    runner_up_amount = c.runner_up_amount;
    runner_up_qualifies = c.runner_up_qualifies;
    relist_gen = c.relist_gen;
    attempt = 1;
    invoice_id = c.first_invoice;
    failure_reason = none_given;
    version = 1;
  })

-- `UnmarshalFromDatabase` checks the structure of a stored row, whose fields `s` holds.
unfoldable pub unmarshal_from_database : Settlement → Result Error Settlement
unmarshal_from_database s = do
  reject_if (is_nil s.auction_id) auction_id_required
  reject_if (is_unset s.state) state_required
  reject_if (is_nil s.winner) winner_required
  reject_if (Money.is_zero s.hammer) hammer_required
  reject_if (not (s.attempt == 1) && not (s.attempt == 2)) invalid_attempt
  reject_if (Int64.lt s.version 1) invalid_version
  ok s

-- `DecideOnInvoiceIssue`: its Boolean is true whenever it returns no error.
unfoldable pub decide_on_invoice_issue : Settlement → Result Error Bool
decide_on_invoice_issue s = if is_started s.state then ok true else err unexpected_transition

-- The states that await a payment.
abbrev pub awaits_payment : State → Bool
awaits_payment started = true
awaits_payment awaiting_payment = true
awaits_payment second_chance_payment = true
awaits_payment _ = false

unfoldable pub guard_live_invoice : Settlement → InvoiceId → Result Error (Unit {0})
guard_live_invoice s inv = do
  reject_if (not (awaits_payment s.state)) unexpected_transition
  reject_if (is_nil inv || not (inv == s.invoice_id)) unexpected_transition

unfoldable pub decide_on_payment_received : Settlement → InvoiceId → Result Error (Unit {0})
unfolding guard_live_invoice
decide_on_payment_received s inv = guard_live_invoice s inv

unfoldable pub next_step_on_failure : Settlement → NextStep
next_step_on_failure s =
    if (s.attempt == 1) && s.runner_up_qualifies
    then award_runner_up
    else if s.relist_gen == 0
    then relist
    else fail_unsold

unfoldable pub decide_on_payment_timeout : Settlement → InvoiceId → Result Error NextStep
unfolding guard_live_invoice
decide_on_payment_timeout s inv = do guard_live_invoice s inv; ok (next_step_on_failure s)

-- The states in which `WinnerReassignedV1` is expected.
abbrev pub awaits_award : State → Bool
awaits_award awaiting_payment = true
awaits_award awarding_runner_up = true
awaits_award _ = false

unfoldable pub decide_on_winner_reassigned : Settlement → BidderId → Money → Result Error (Unit {0})
decide_on_winner_reassigned s new_winner price = do
  reject_if (not (awaits_award s.state)) unexpected_transition
  reject_if
      (is_nil new_winner
        || not (new_winner == s.runner_up)
        || not (Money.eq price s.runner_up_amount))
      winner_mismatch

abbrev pub is_second_chance : State → Bool
is_second_chance second_chance_payment = true
is_second_chance _ = false

unfoldable pub can_runner_up_decline : BidderId → Settlement → Result Error (Unit {0})
can_runner_up_decline actor s =
    reject_if
      (is_nil actor
        || is_nil s.runner_up
        || not (actor == s.runner_up)
        || not (is_second_chance s.state))
      not_offer_recipient

-- The refined verdict of `DecideOnDecline` for the recipient of the offer.
abbrev pub decline_refusal : State → Error → Error
decline_refusal settled e = offer_already_paid
decline_refusal relisted e = unexpected_transition
decline_refusal failed_unsold e = unexpected_transition
decline_refusal _ e = e

unfoldable pub decide_on_decline : Settlement → BidderId → Result Error NextStep
unfolding can_runner_up_decline
decide_on_decline s actor = elim (can_runner_up_decline actor s) [
  | ok u ↦ ok (next_step_on_failure s)
  | err e ↦
      err (if not (is_nil actor) && (actor == s.runner_up) then decline_refusal s.state e else e)
  | panic ↦ panic
]

unfoldable pub invoice_issued : Settlement → InvoiceId → Result Error Settlement
invoice_issued s inv = do
  reject_if (not (is_started s.state) || is_nil inv || not (inv == s.invoice_id))
      unexpected_transition
  ok (record s { state = awaiting_payment })

unfoldable pub payment_received : Settlement → InvoiceId → Result Error Settlement
unfolding guard_live_invoice
payment_received s inv = do guard_live_invoice s inv; ok (record s { state = settled })

unfoldable pub runner_up_awarded : Settlement → BidderId → Money → Result Error Settlement
unfolding decide_on_winner_reassigned
runner_up_awarded s new_winner price = do
  decide_on_winner_reassigned s new_winner price
  ok (record s { state = awarding_runner_up; winner = new_winner; attempt = 2 })

abbrev pub is_awarding : State → Bool
is_awarding awarding_runner_up = true
is_awarding _ = false

unfoldable pub second_chance_invoice_issued : Settlement → InvoiceId → Result Error Settlement
second_chance_invoice_issued s inv = do
  reject_if (not (is_awarding s.state) || is_nil inv) unexpected_transition
  ok (record s { state = second_chance_payment; invoice_id = inv })

-- The states from which the runner-up is awarded.
abbrev pub awaits_first : State → Bool
awaits_first started = true
awaits_first awaiting_payment = true
awaits_first _ = false

-- The branch of `ApplyNextStep` for the two steps that end the saga.
unfoldable pub conclude : Settlement → State → FailureReason → Result Error Settlement
conclude s target reason = do
  reject_if (reason_is_zero reason) failure_without_reason
  reject_if (not (awaits_payment s.state)) unexpected_transition
  ok (record s { state = target; failure_reason = reason })

unfoldable pub apply_next_step : Settlement → NextStep → FailureReason → Result Error Settlement
unfolding conclude
apply_next_step s award_runner_up reason = do
  reject_if (not (reason_is_zero reason)) award_with_reason
  reject_if (not (awaits_first s.state)) unexpected_transition
  ok (record s { state = awarding_runner_up })
apply_next_step s relist reason = conclude s relisted reason
apply_next_step s fail_unsold reason = conclude s failed_unsold reason
