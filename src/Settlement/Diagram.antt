-- ===== src/Settlement/Diagram.antt =====
-- The state diagram of the saga (docs/ARCHITECTURE.md, section 6.3), and its methods against it.
use molot.Base.{◌≡◌, true, arith, ok, err}
use molot.Settlement.Errors.{unexpected_transition}
use molot.Settlement.Money.{Money}
use molot.Settlement.State.{
  State, started, awaiting_payment, awarding_runner_up, second_chance_payment, settled, relisted,
  failed_unsold, is_terminal, NextStep, award_runner_up, relist, fail_unsold, FailureReason,
}
use molot.Settlement.Closing.{BidderId, InvoiceId}
use molot.Settlement.Saga.{
  Settlement, decide_on_invoice_issue, decide_on_payment_received, decide_on_payment_timeout,
  decide_on_winner_reassigned, invoice_issued, payment_received, runner_up_awarded,
  second_chance_invoice_issued, apply_next_step,
}

-- The edges. From `started` the saga may skip the states that a lost commit would have set.
infix 40 ◌⟶◌
pub data ◌⟶◌ : State → State → Type 0 where
  issue : started ⟶ awaiting_payment
  pay_started : started ⟶ settled
  pay_first : awaiting_payment ⟶ settled
  pay_second : second_chance_payment ⟶ settled
  award_started : started ⟶ awarding_runner_up
  award_first : awaiting_payment ⟶ awarding_runner_up
  award_again : awarding_runner_up ⟶ awarding_runner_up
  offer : awarding_runner_up ⟶ second_chance_payment
  relist_started : started ⟶ relisted
  relist_first : awaiting_payment ⟶ relisted
  relist_second : second_chance_payment ⟶ relisted
  fail_started : started ⟶ failed_unsold
  fail_first : awaiting_payment ⟶ failed_unsold
  fail_second : second_chance_payment ⟶ failed_unsold

ruleset edges = (
  issue, pay_started, pay_first, pay_second, award_started, award_first, award_again, offer,
  relist_started, relist_first, relist_second, fail_started, fail_first, fail_second,
)

-- A commit of the saga: one of its commit-phase methods succeeded.
pub data Commit (s t : Settlement) : Type 0 where
  issued : (inv : InvoiceId) → invoice_issued s inv ≡ ok t → Commit s t
  paid : (inv : InvoiceId) → payment_received s inv ≡ ok t → Commit s t
  awarded :
      (winner : BidderId) (price : Money) → runner_up_awarded s winner price ≡ ok t → Commit s t
  offered : (inv : InvoiceId) → second_chance_invoice_issued s inv ≡ ok t → Commit s t
  forked :
      (step : NextStep) (reason : FailureReason) → apply_next_step s step reason ≡ ok t → Commit s t

-- Every commit-phase method of the saga that succeeds moves the state along an edge of the state
-- diagram.
pub Commit-edge : {s t : Settlement} → Commit s t → s.state ⟶ t.state
unfolding invoice_issued payment_received runner_up_awarded second_chance_invoice_issued
    apply_next_step
Commit-edge (issued inv h) = grind (arith, edges)
Commit-edge (paid inv h) = grind (arith, edges)
Commit-edge (awarded winner price h) = grind (arith, edges)
Commit-edge (offered inv h) = grind (arith, edges)
Commit-edge (forked award_runner_up why h) = grind (arith, edges)
Commit-edge (forked relist why h) = grind (arith, edges)
Commit-edge (forked fail_unsold why h) = grind (arith, edges)

-- In a terminal state every event of the saga is a duplicate: each decision on it and each commit
-- for it, the fork's apart, reports unexpected_transition.
pub terminal_absorbs :
    (s : Settlement) (inv : InvoiceId) (winner : BidderId) (price : Money) (step : NextStep)
    → is_terminal s.state ≡ ok true
    → (decide_on_invoice_issue s ≡ err unexpected_transition)
      × (decide_on_payment_received s inv ≡ err unexpected_transition)
      × (decide_on_payment_timeout s inv ≡ err unexpected_transition)
      × (decide_on_winner_reassigned s winner price ≡ err unexpected_transition)
      × (invoice_issued s inv ≡ err unexpected_transition)
      × (payment_received s inv ≡ err unexpected_transition)
      × (runner_up_awarded s winner price ≡ err unexpected_transition)
      × (second_chance_invoice_issued s inv ≡ err unexpected_transition)
unfolding is_terminal decide_on_invoice_issue decide_on_payment_received decide_on_payment_timeout
    decide_on_winner_reassigned invoice_issued payment_received runner_up_awarded
    second_chance_invoice_issued
terminal_absorbs s inv winner price step h = ground arith
