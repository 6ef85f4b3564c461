-- ===== src/Settlement/Commits.antt =====
-- internal/settlement/app/handlers.go: what the handlers commit, as functions of the saga.
use molot.Base.{Result, ◌>>=◌}
use molot.Settlement.Errors.{Error}
use molot.Settlement.Money.{Money}
use molot.Settlement.State.{
  NextStep, award_runner_up, relist, fail_unsold, FailureReason, none_given, payment_timeout,
}
use molot.Settlement.Closing.{BidderId, InvoiceId}
use molot.Settlement.Saga.{Settlement, runner_up_awarded, second_chance_invoice_issued}

-- The reason that `OnInvoiceExpired` commits a step with.
abbrev pub commit_reason : NextStep → FailureReason
commit_reason award_runner_up = none_given
commit_reason relist = payment_timeout
commit_reason fail_unsold = payment_timeout

-- The commit of `OnWinnerReassigned`: two transitions in one transaction.
unfoldable pub offer_second_chance :
    BidderId → Money → InvoiceId → Settlement → Result Error Settlement
unfolding runner_up_awarded second_chance_invoice_issued
offer_second_chance winner price inv current = do
  s ← runner_up_awarded current winner price
  second_chance_invoice_issued s inv
