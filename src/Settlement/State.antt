-- ===== src/Settlement/State.antt =====
-- internal/settlement/domain/settlement/state.go, nextstep.go, reason.go: the closed enums.
use molot.Base.{Bool, true, false, Result, ok, panic}
use molot.Settlement.Errors.{Error}

-- `unset` is the zero value.
pub data State : Type 0 where
  unset started awaiting_payment awarding_runner_up second_chance_payment settled relisted : State
  failed_unsold : State

abbrev pub is_unset : State → Bool
is_unset unset = true
is_unset _ = false

abbrev pub is_started : State → Bool
is_started started = true
is_started _ = false

-- `IsTerminal`
unfoldable pub is_terminal : State → Result Error Bool
is_terminal settled = ok true
is_terminal relisted = ok true
is_terminal failed_unsold = ok true
is_terminal started = ok false
is_terminal awaiting_payment = ok false
is_terminal awarding_runner_up = ok false
is_terminal second_chance_payment = ok false
is_terminal unset = panic

-- The values from 1 to 3; the zero value is never made.
pub data NextStep : Type 0 where
  award_runner_up relist fail_unsold : NextStep

pub data FailureReason : Type 0 where
  none_given payment_timeout second_chance_declined : FailureReason

-- `r == FailureReason{}`
abbrev pub reason_is_zero : FailureReason → Bool
reason_is_zero none_given = true
reason_is_zero _ = false
