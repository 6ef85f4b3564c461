-- ===== src/Auction/Finality.antt =====
-- What the saga's commands settle for good (internal/auction/domain/auction/auction.go:
-- AwardToRunnerUp, ConfirmSettlement, FailSale, Close).
use molot.Base.{◌≡◌, ◌≢◌, ◌⊎◌, true, arith, ok, err}
use molot.Time.{Time}
use molot.Auction.Errors.{winner_already_reassigned, already_settled, sale_already_failed}
use molot.Auction.Bid.{Bid}
use molot.Auction.Status.{Outcome, closed, sold, not_sold, FailureReason, none_given}
use molot.Auction.Aggregate.{
  Auction, place_bid, cancel, close, award_to_runner_up, confirm_settlement, fail_sale,
}
use molot.Auction.History.{Step, bids, cancels, closes, awards, confirms, fails, stores}

-- A sequence of steps of one auction.
pub data Steps (a : Auction) : Auction → Type 0 where
  done : Steps a a
  more : {b c : Auction} → Steps a b → Step b c → Steps a c

-- A closed auction stays closed.
Step-closed : {a b : Auction} → Step a b → a.status ≡ closed → b.status ≡ closed
unfolding place_bid cancel close award_to_runner_up confirm_settlement fail_sale
Step-closed (bids id who amount now nonneg room h) c = absurd (ground arith)
Step-closed (cancels by now h) c = absurd (ground arith)
Step-closed (closes now h) c = absurd (ground arith)
Step-closed (awards now h) c = ground arith
Step-closed (confirms now h) c = ground arith
Step-closed (fails reason now h) c = ground arith
Step-closed (stores version e) c = ground arith

-- The verdict on the sale.
pub record IsFinal (a : Auction) (outcome : Outcome) (winner : Bid) : Type 0 where
  pub is_closed : a.status ≡ closed
  pub is_settled : a.settled ≡ true
  pub same_outcome : a.outcome ≡ outcome
  pub decided : (outcome ≡ sold) ⊎ (outcome ≡ not_sold)
  pub same_winner : a.leading_bid ≡ winner

Step-IsFinal :
    {a b : Auction} {outcome : Outcome} {winner : Bid}
    → Step a b
    → IsFinal a outcome winner
    → IsFinal b outcome winner
unfolding place_bid cancel close award_to_runner_up confirm_settlement fail_sale
Step-IsFinal (bids id who amount now nonneg room h) f = absurd (ground arith)
Step-IsFinal (cancels by now h) f = absurd (ground arith)
Step-IsFinal (closes now h) f = absurd (ground arith)
Step-IsFinal (awards now h) f = absurd (ground arith)
Step-IsFinal (confirms now h) f = absurd (ground arith)
Step-IsFinal (fails reason now h) f = absurd (ground arith)
Step-IsFinal (stores version e) f = ground arith

Steps-IsFinal :
    {a b : Auction} {outcome : Outcome} {winner : Bid}
    → IsFinal a outcome winner
    → Steps a b
    → IsFinal b outcome winner
Steps-IsFinal f done = f
Steps-IsFinal f (more s t) = Step-IsFinal t (Steps-IsFinal f s)

-- After ConfirmSettlement succeeded, and whatever calls of the auction's methods follow, the sale
-- stays sold to the same winner, a repeat reports already_settled, and FailSale with a reason does
-- too.
pub confirm_settlement_final :
    (a : Auction) {b c : Auction} (now later : Time) {reason : FailureReason}
    → confirm_settlement a now ≡ ok b
    → Steps b c
    → reason ≢ none_given
    → (c.outcome ≡ sold)
      × (c.leading_bid ≡ a.leading_bid)
      × (confirm_settlement c later ≡ err already_settled)
      × (fail_sale c reason later ≡ err already_settled)
unfolding confirm_settlement fail_sale
confirm_settlement_final a now later h s r =
    let f = Steps-IsFinal {outcome = sold} {winner = a.leading_bid} (ground arith) s in ground arith

-- After FailSale succeeded, and whatever calls of the auction's methods follow, the sale stays
-- failed with the same bid leading, a repeat with a reason reports sale_already_failed, and
-- ConfirmSettlement does too.
pub fail_sale_final :
    (a : Auction) (reason : FailureReason) {b c : Auction} (now later : Time)
    {again : FailureReason}
    → fail_sale a reason now ≡ ok b
    → Steps b c
    → again ≢ none_given
    → (c.outcome ≡ not_sold)
      × (c.leading_bid ≡ a.leading_bid)
      × (fail_sale c again later ≡ err sale_already_failed)
      × (confirm_settlement c later ≡ err sale_already_failed)
unfolding confirm_settlement fail_sale
fail_sale_final a reason now later h s r =
    let f = Steps-IsFinal {outcome = not_sold} {winner = a.leading_bid} (ground arith) s in
    ground arith

-- A reassigned winner.
record IsReassigned (a : Auction) (winner : Bid) : Type 0 where
  is_closed : a.status ≡ closed
  reassigned : a.winner_reassigned ≡ true
  same_winner : a.leading_bid ≡ winner

Step-IsReassigned :
    {a b : Auction} {winner : Bid} → Step a b → IsReassigned a winner → IsReassigned b winner
unfolding place_bid cancel close award_to_runner_up confirm_settlement fail_sale
Step-IsReassigned (bids id who amount now nonneg room h) f = absurd (ground arith)
Step-IsReassigned (cancels by now h) f = absurd (ground arith)
Step-IsReassigned (closes now h) f = absurd (ground arith)
Step-IsReassigned (awards now h) f = absurd (ground arith)
Step-IsReassigned (confirms now h) f = ground arith
Step-IsReassigned (fails reason now h) f = ground arith
Step-IsReassigned (stores version e) f = ground arith

Steps-IsReassigned :
    {a b : Auction} {winner : Bid} → IsReassigned a winner → Steps a b → IsReassigned b winner
Steps-IsReassigned f done = f
Steps-IsReassigned f (more s t) = Step-IsReassigned t (Steps-IsReassigned f s)

-- AwardToRunnerUp promotes the runner-up's bid, and, whatever calls of the auction's methods
-- follow, that bid stays the leading one and a repeat reports winner_already_reassigned.
pub award_to_runner_up_once :
    (a : Auction) {b c : Auction} {bid : Bid} (now later : Time)
    → award_to_runner_up a now ≡ ok (b, bid)
    → Steps b c
    → (bid ≡ a.runner_up_bid)
      × (c.leading_bid ≡ bid)
      × (award_to_runner_up c later ≡ err winner_already_reassigned)
unfolding award_to_runner_up
award_to_runner_up_once a {bid = bid} now later h s =
    let f = Steps-IsReassigned {winner = bid} (ground arith) s in ground arith
