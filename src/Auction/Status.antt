-- ===== src/Auction/Status.antt =====
-- internal/auction/domain/auction/status.go and closing.go: the closed enums, each with its zero
-- value, and the verdict of a closing.
use molot.Base.{Bool, true, false, Result, ok, err, if◌then◌else◌}
use molot.Text
use molot.Text.{Text, text}
use molot.Auction.Errors.{Error, invalid_failure_reason}
use molot.Auction.Bid.{Bid}

pub data Status : Type 0 where
  unset listed cancelled closed : Status

abbrev pub is_listed : Status → Bool
is_listed listed = true
is_listed _ = false

-- `s == Status{}`
abbrev pub is_unset : Status → Bool
is_unset unset = true
is_unset _ = false

pub data Outcome : Type 0 where
  undecided sold not_sold : Outcome

abbrev pub is_sold : Outcome → Bool
is_sold sold = true
is_sold _ = false

abbrev pub is_not_sold : Outcome → Bool
is_not_sold not_sold = true
is_not_sold _ = false

pub record ClosingResult : Type 0 where
  pub outcome : Outcome
  pub winner : Bid
  pub runner_up : Bid
  pub runner_up_qualifies : Bool

pub data FailureReason : Type 0 where
  none_given payment_timeout second_chance_declined : FailureReason

-- `r == FailureReason{}`
abbrev pub reason_is_zero : FailureReason → Bool
reason_is_zero none_given = true
reason_is_zero _ = false

unfoldable pub new_failure_reason_from_string : Text → Result Error FailureReason
new_failure_reason_from_string s =
    if Text.eq s (text "payment_timeout")
    then ok payment_timeout
    else if Text.eq s (text "second_chance_declined")
    then ok second_chance_declined
    else err invalid_failure_reason
