-- ===== src/Settlement/Row.antt =====
-- internal/settlement/adapters/settlement_pg_repository.go: the row of a saga, as it is written and
-- read. The store itself is not modelled.
use molot.Base.{ℕ, Bool, Option, none, some, Result, ok, err, ◌>>=◌, if◌then◌else◌}
use molot.Text
use molot.Text.{Text, text}
use molot.Uuid.{Uuid, nil, is_nil}
use molot.Settlement.Errors.{Error, unknown_state, unknown_reason}
use molot.Settlement.Money
use molot.Settlement.Money.{Money, new_currency, new_money}
use molot.Settlement.State.{
  State, unset, started, awaiting_payment, awarding_runner_up, second_chance_payment, settled,
  relisted, failed_unsold, FailureReason, none_given, payment_timeout, second_chance_declined,
}
use molot.Settlement.Closing.{BidderId, InvoiceId, new_auction_id, new_bidder_id, new_invoice_id}
use molot.Settlement.Saga.{Settlement, unmarshal_from_database}
use molot.Settlement.Adapters.{reason_string}

pub record PgSettlement : Type 0 where
  pub auction_id : Uuid
  pub state : Text
  pub winner_id : Uuid
  pub hammer_minor : ℕ
  pub currency : Text
  pub runner_up_id : Option Uuid
  pub runner_up_minor : Option ℕ
  pub runner_up_qualifies : Bool
  pub relist_generation : ℕ
  pub attempt : ℕ
  pub invoice_id : Option Uuid
  pub failure_reason : Option Text
  pub version : ℕ

unfoldable pub state_string : State → Text
state_string unset = text ""
state_string started = text "started"
state_string awaiting_payment = text "awaiting_payment"
state_string awarding_runner_up = text "awarding_runner_up"
state_string second_chance_payment = text "second_chance_payment"
state_string settled = text "settled"
state_string relisted = text "relisted"
state_string failed_unsold = text "failed_unsold"

-- `NewStateFromString`.
unfoldable pub new_state_from_string : Text → Result Error State
new_state_from_string s =
    if Text.eq s (text "started")
    then ok started
    else if Text.eq s (text "awaiting_payment")
    then ok awaiting_payment
    else if Text.eq s (text "awarding_runner_up")
    then ok awarding_runner_up
    else if Text.eq s (text "second_chance_payment")
    then ok second_chance_payment
    else if Text.eq s (text "settled")
    then ok settled
    else if Text.eq s (text "relisted")
    then ok relisted
    else if Text.eq s (text "failed_unsold")
    then ok failed_unsold
    else err unknown_state

unfoldable pub new_failure_reason_from_string : Text → Result Error FailureReason
new_failure_reason_from_string s =
    if Text.eq s (text "payment_timeout")
    then ok payment_timeout
    else if Text.eq s (text "second_chance_declined")
    then ok second_chance_declined
    else err unknown_reason

abbrev pub reason_column : FailureReason → Option Text
reason_column none_given = none
reason_column r = some (reason_string r)

unfoldable pub to_pg_settlement : Settlement → PgSettlement
to_pg_settlement s = record {
  auction_id = s.auction_id;
  state = state_string s.state;
  winner_id = s.winner;
  hammer_minor = s.hammer.amount;
  currency = s.hammer.currency;
  runner_up_id = if is_nil s.runner_up then none else some s.runner_up;
  runner_up_minor = if is_nil s.runner_up then none else some s.runner_up_amount.amount;
  runner_up_qualifies = s.runner_up_qualifies;
  relist_generation = s.relist_gen;
  attempt = s.attempt;
  invoice_id = if is_nil s.invoice_id then none else some s.invoice_id;
  failure_reason = reason_column s.failure_reason;
  version = s.version;
}

-- `t.RunnerUpMinor.Int64`
abbrev pub int64_of : Option ℕ → ℕ
int64_of none = 0
int64_of (some minor) = minor

-- The runner-up with the amount of the bid, both zero where there is none.
unfoldable pub runner_up_from_columns :
    Option Uuid → Option ℕ → Text → Result Error (BidderId × Money)
runner_up_from_columns none minor currency = ok (nil, Money.zero_money)
runner_up_from_columns (some id) minor currency = do
  runner_up ← new_bidder_id id
  amount ← new_money (int64_of minor) currency
  ok (runner_up, amount)

abbrev pub invoice_from_column : Option Uuid → Result Error InvoiceId
invoice_from_column none = ok nil
invoice_from_column (some id) = new_invoice_id id

abbrev pub reason_from_column : Option Text → Result Error FailureReason
reason_from_column none = ok none_given
reason_from_column (some s) = new_failure_reason_from_string s

unfoldable pub to_domain_settlement : PgSettlement → Result Error Settlement
to_domain_settlement t = do
  auction_id ← new_auction_id t.auction_id
  state ← new_state_from_string t.state
  winner ← new_bidder_id t.winner_id
  currency ← new_currency t.currency
  hammer ← new_money t.hammer_minor currency
  second ← runner_up_from_columns t.runner_up_id t.runner_up_minor currency
  invoice_id ← invoice_from_column t.invoice_id
  failure_reason ← reason_from_column t.failure_reason
  unmarshal_from_database (record {
    auction_id = auction_id;
    state = state;
    winner = winner;
    hammer = hammer;
    runner_up = second.0;
    runner_up_amount = second.1;
    runner_up_qualifies = t.runner_up_qualifies;
    relist_gen = t.relist_generation;
    attempt = t.attempt;
    invoice_id = invoice_id;
    failure_reason = failure_reason;
    version = t.version;
  })
