-- ===== src/Settlement/Termination.antt =====
-- How long a saga can run: its commits (internal/settlement/app/handlers.go,
-- internal/settlement/app/command/decline_second_chance_offer.go) count down to a terminal state.
use molot.Base.{ℕ, ◌+◌, ◌≤◌, ◌≡◌, arith, ok}
use molot.Settlement.Money.{Money}
use molot.Settlement.State.{
  State, unset, started, awaiting_payment, awarding_runner_up, second_chance_payment, settled,
  relisted, failed_unsold, NextStep, award_runner_up, relist, fail_unsold, FailureReason,
}
use molot.Settlement.Closing.{Closing, BidderId, InvoiceId}
use molot.Settlement.Commits.{offer_second_chance}
use molot.Settlement.Saga.{Settlement, start, invoice_issued, payment_received, apply_next_step}
use molot.Settlement.Trace.{Reach, begins, issues, pays, offers, times_out, declines}

-- How many commits a state has before it, at most.
abbrev pub commits_left : State → ℕ
commits_left started = 4
commits_left awaiting_payment = 3
commits_left awarding_runner_up = 2
commits_left second_chance_payment = 1
commits_left settled = 0
commits_left relisted = 0
commits_left failed_unsold = 0
commits_left unset = 0

-- The commits that a saga has behind it.
abbrev pub commits : {origin s : Settlement} → Reach origin s → ℕ
commits begins = 0
commits (issues inv r h) = commits r + 1
commits (pays inv r h) = commits r + 1
commits (offers winner price inv r h) = commits r + 1
commits (times_out inv seen d now h) = commits now + 1
commits (declines actor seen d now h) = commits now + 1

module _ (s : Settlement) where
  issued-commits_left :
      (inv : InvoiceId) {t : Settlement}
      → invoice_issued s inv ≡ ok t
      → commits_left t.state + 1 ≤ commits_left s.state
  unfolding invoice_issued
  issued-commits_left inv h = ground arith

  paid-commits_left :
      (inv : InvoiceId) {t : Settlement}
      → payment_received s inv ≡ ok t
      → commits_left t.state + 1 ≤ commits_left s.state
  unfolding payment_received
  paid-commits_left inv h = ground arith

  offered-commits_left :
      (winner : BidderId) (price : Money) (inv : InvoiceId) {t : Settlement}
      → offer_second_chance winner price inv s ≡ ok t
      → commits_left t.state + 1 ≤ commits_left s.state
  unfolding offer_second_chance
  offered-commits_left winner price inv h = ground arith

  forked-commits_left :
      (step : NextStep) (why : FailureReason) {t : Settlement}
      → apply_next_step s step why ≡ ok t
      → commits_left t.state + 1 ≤ commits_left s.state
  unfolding apply_next_step
  forked-commits_left award_runner_up why h = ground arith
  forked-commits_left relist why h = ground arith
  forked-commits_left fail_unsold why h = ground arith

commits_bound :
    {origin s : Settlement} (r : Reach origin s)
    → commits r + commits_left s.state ≤ commits_left origin.state
commits_bound begins = omega arith
commits_bound (issues inv r h) = omega (arith, commits_bound r, issued-commits_left _ inv h)
commits_bound (pays inv r h) = omega (arith, commits_bound r, paid-commits_left _ inv h)
commits_bound (offers winner price inv r h) =
    omega (arith, commits_bound r, offered-commits_left _ winner price inv h)
commits_bound (times_out inv seen d now h) =
    omega (arith, commits_bound now, forked-commits_left _ _ _ h)
commits_bound (declines actor seen d now h) =
    omega (arith, commits_bound now, forked-commits_left _ _ _ h)

start-state : (c : Closing) {s : Settlement} → start c ≡ ok s → s.state ≡ started
unfolding start
start-state c h = ground arith

-- However the events of a saga follow one another, it ends: from its start there are at most four
-- commits, and whatever state the saga has reached, the commits made and those that its state still
-- allows are four at most.
pub saga_ends :
    (c : Closing) {origin s : Settlement}
    → start c ≡ ok origin
    → (r : Reach origin s) → commits r + commits_left s.state ≤ 4
saga_ends c h r = ground (arith, start-state c h, commits_bound r)
