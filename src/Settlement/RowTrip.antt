-- ===== src/Settlement/RowTrip.antt =====
-- A saga that is written to its row and read again
-- (internal/settlement/adapters/settlement_pg_repository.go).
use molot.Base.{◌≡◌, ◌≢◌, refl, false, none, some, ok, ◌⊎◌, inl, inr, arith, if◌then◌else◌}
use molot.Int64
use molot.Text
use molot.Text.{Text}
use molot.Uuid.{Uuid, nil, is_nil}
use molot.Settlement.Money
use molot.Settlement.Money.{Money, new_currency, new_money}
use molot.Settlement.State.{
  State, unset, started, awaiting_payment, awarding_runner_up, second_chance_payment, settled,
  relisted, failed_unsold, FailureReason, none_given, payment_timeout, second_chance_declined,
}
use molot.Settlement.Closing.{new_auction_id, new_bidder_id, new_invoice_id}
use molot.Settlement.Saga.{Settlement, unmarshal_from_database}
use molot.Settlement.Adapters.{reason_string}
use molot.Settlement.Row.{
  to_pg_settlement, to_domain_settlement, state_string, new_state_from_string, reason_column,
  reason_from_column, new_failure_reason_from_string, runner_up_from_columns, invoice_from_column,
}

-- A saga whose parts the constructors made.
pub record IsStorable (s : Settlement) : Type 0 where
  pub has_auction : is_nil s.auction_id ≡ false
  pub known : s.state ≢ unset
  pub has_winner : is_nil s.winner ≡ false
  pub code : new_currency s.hammer.currency ≡ ok s.hammer.currency
  pub has_currency : Text.is_empty s.hammer.currency ≡ false
  pub hammer_sign : Int64.is_neg s.hammer.amount ≡ false
  pub second :
      ((s.runner_up ≡ nil) × (s.runner_up_amount ≡ Money.zero_money))
      ⊎ ((is_nil s.runner_up ≡ false)
          × (s.runner_up_amount.currency ≡ s.hammer.currency)
          × (Int64.is_neg s.runner_up_amount.amount ≡ false))
  pub tried : (s.attempt ≡ 1) ⊎ (s.attempt ≡ 2)
  pub counted : Int64.lt s.version 1 ≡ false

state_again : (s : State) → s ≢ unset → new_state_from_string (state_string s) ≡ ok s
unfolding new_state_from_string state_string Text.eq
state_again started h = refl
state_again awaiting_payment h = refl
state_again awarding_runner_up h = refl
state_again second_chance_payment h = refl
state_again settled h = refl
state_again relisted h = refl
state_again failed_unsold h = refl
state_again unset h = absurd (h refl)

reason_again : (r : FailureReason) → reason_from_column (reason_column r) ≡ ok r
unfolding new_failure_reason_from_string reason_string Text.eq
reason_again none_given = refl
reason_again payment_timeout = refl
reason_again second_chance_declined = refl

invoice_again : (id : Uuid) → invoice_from_column (if is_nil id then none else some id) ≡ ok id
unfolding new_invoice_id
invoice_again id = ground arith

second_again :
    (s : Settlement)
    → IsStorable s
    → runner_up_from_columns
        (if is_nil s.runner_up then none else some s.runner_up)
        (if is_nil s.runner_up then none else some s.runner_up_amount.amount)
        s.hammer.currency
      ≡ ok (s.runner_up, s.runner_up_amount)
unfolding runner_up_from_columns new_bidder_id new_money
second_again s v = elim v.second [
  | inl (nobody, nothing) ↦ ground (arith, nobody, nothing)
  | inr (someone, same, sign) ↦ ground (arith, someone, same, sign, v.has_currency)
]

-- toDomainSettlement makes of the row that toPgSettlement makes of a saga that saga again, state,
-- reason, runner-up, invoice and version included, where its parts are such as the constructors
-- make.
pub saga_row_trip :
    (s : Settlement) → IsStorable s → to_domain_settlement (to_pg_settlement s) ≡ ok s
unfolding to_domain_settlement to_pg_settlement new_auction_id new_bidder_id new_money
    unmarshal_from_database
saga_row_trip s v =
    let auction_ok : new_auction_id s.auction_id ≡ ok s.auction_id =
      ground (arith, v.has_auction) in
    let winner_ok : new_bidder_id s.winner ≡ ok s.winner = ground (arith, v.has_winner) in
    let hammer_ok : new_money s.hammer.amount s.hammer.currency ≡ ok s.hammer =
      ground (arith, v.has_currency, v.hammer_sign) in
    let whole : unmarshal_from_database s ≡ ok s =
      ground (arith, v.has_auction, v.known, v.has_winner, v.has_currency, v.tried, v.counted) in
    rw
      (
        auction_ok,
        state_again s.state v.known,
        winner_ok,
        v.code,
        hammer_ok,
        second_again s v,
        invoice_again s.invoice_id,
        reason_again s.failure_reason,
      )
      whole
