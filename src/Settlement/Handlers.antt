-- ===== src/Settlement/Handlers.antt =====
-- internal/settlement/app/handlers.go: the saga's event handlers. Each reads and decides, calls the
-- gateways, and commits. Its argument `meanwhile` is what other handlers do to the world between the
-- effect and the commit, and `now` is what the clocks show.
use molot.Base.{ℕ, Bool, true, false, Result, ok, err, panic, if◌then◌else◌}
use molot.Base
use molot.Text.{Text}
use molot.Time.{Time}
use molot.Uuid.{Uuid, is_nil, nil}
use molot.Settlement.Errors.{Error}
use molot.Settlement.Money
use molot.Settlement.Money.{Money, Currency, new_currency, new_money}
use molot.Settlement.State.{
  NextStep, award_runner_up, relist, fail_unsold, FailureReason, payment_timeout,
}
use molot.Settlement.Closing.{
  Closing, AuctionId, BidderId, InvoiceId, new_auction_id, new_bidder_id, new_invoice_id,
  new_outcome_from_string, requires_settlement, new_closing,
}
use molot.Settlement.Relist.{RelistPolicy, window}
use molot.Settlement.Saga.{
  start, decide_on_invoice_issue, decide_on_payment_received, decide_on_payment_timeout,
  decide_on_winner_reassigned, invoice_issued, payment_received, apply_next_step,
}
use molot.Settlement.Commits.{commit_reason, offer_second_chance}
use molot.Settlement.Ids.{UuidLib, invoice_id_for_attempt, relist_id_for}
use molot.Settlement.Gateways.{Gateways, Call, then_call, with_result}
use molot.Settlement.Action.{
  World, Action, pure, lift, ◌>>=◌, ◌>>◌, load, add_saga, call, interrupt, update, ack, decided,
}

-- The payload of `AuctionClosedV1`; an absent winner or runner-up is nil.
pub record ClosedAuction : Type 0 where
  pub auction_id : Uuid
  pub outcome : Text
  pub winner_id : Uuid
  pub hammer_minor : ℕ  -- int64
  pub currency : Text
  pub runner_up_id : Uuid
  pub runner_up_minor : ℕ  -- int64
  pub runner_up_qualifies : Bool
  pub relist_generation : ℕ  -- int

-- The runner-up of the payload, with the zero values for none.
unfoldable pub runner_up_of : ClosedAuction → Currency → Result Error (BidderId × Money)
runner_up_of e currency =
    if is_nil e.runner_up_id
    then ok (nil, Money.zero_money)
    else Base.◌>>=◌ (new_bidder_id e.runner_up_id)
        λ id. Base.◌>>=◌ (new_money e.runner_up_minor currency) λ amount. ok (id, amount)

-- `parseSagaIDs`
unfoldable pub parse_saga_ids : Uuid → Uuid → Result Error (AuctionId × InvoiceId)
parse_saga_ids auction_id invoice_id =
    Base.◌>>=◌ (new_auction_id auction_id)
      λ auc. Base.◌>>=◌ (new_invoice_id invoice_id) λ inv. ok (auc, inv)

unfoldable pub build_closing : UuidLib → ClosedAuction → Result Error Closing
unfolding runner_up_of
build_closing lib e = Base.◌>>=◌ (new_auction_id e.auction_id) λ auction_id.
    Base.◌>>=◌ (new_bidder_id e.winner_id) λ winner.
      Base.◌>>=◌ (new_currency e.currency) λ currency.
        Base.◌>>=◌ (new_money e.hammer_minor currency) λ hammer.
          Base.◌>>=◌ (runner_up_of e currency) λ second.
            Base.◌>>=◌ (invoice_id_for_attempt lib auction_id 1) λ first_invoice.
              new_closing auction_id winner hammer second.0 second.1 e.runner_up_qualifies
                e.relist_generation first_invoice

module _ {W : Type 0} (g : Gateways W) (lib : UuidLib) (policy : RelistPolicy) where
  unfoldable pub on_auction_closed :
      ClosedAuction → Time → (World W → World W) → Action W (Unit {0})
  on_auction_closed e now meanwhile = do
    outcome ← lift (new_outcome_from_string e.outcome)
    if requires_settlement outcome
        then (do
          closing ← lift (build_closing lib e)
          started ← lift (start closing)
          add_saga started
          current ← load closing.auction_id
          decided (decide_on_invoice_issue current) λ need_issue.
              if need_issue
              then (do
                call (
                    g.issue_invoice current.invoice_id current.auction_id current.winner
                      current.hammer current.attempt now)
                interrupt meanwhile
                ack (update closing.auction_id (λ s. invoice_issued s current.invoice_id)))
              else pure tt)
        else pure tt

  unfoldable pub on_invoice_paid : Uuid → Uuid → Time → (World W → World W) → Action W (Unit {0})
  on_invoice_paid auction_id invoice_id now meanwhile = do
    ids ← lift (parse_saga_ids auction_id invoice_id)
    s ← load ids.0
    decided (decide_on_payment_received s ids.1) λ _. do
      call (g.confirm_settlement ids.0 now)
      interrupt meanwhile
      ack (update ids.0 (λ current. payment_received current ids.1))

  -- `compensate`: the effects of a fork.
  unfoldable pub compensate : AuctionId → NextStep → FailureReason → Time → Call W
  compensate id award_runner_up why now = g.award_to_runner_up id now
  compensate id relist why now = then_call (g.mark_sale_failed id why now) (
      with_result (relist_id_for lib id)
        λ new_id. g.relist id new_id (window policy now).0 (window policy now).1 now)
  compensate id fail_unsold why now = g.mark_sale_failed id why now

  unfoldable pub on_invoice_expired : Uuid → Uuid → Time → (World W → World W) → Action W (Unit {0})
  on_invoice_expired auction_id invoice_id now meanwhile = do
    ids ← lift (parse_saga_ids auction_id invoice_id)
    s ← load ids.0
    decided (decide_on_payment_timeout s ids.1) λ step. do
      call (compensate ids.0 step payment_timeout now)
      interrupt meanwhile
      ack (update ids.0 (λ current. apply_next_step current step (commit_reason step)))

  unfoldable pub on_winner_reassigned :
      Uuid → Uuid → ℕ → Text → Time → (World W → World W) → Action W (Unit {0})
  unfolding offer_second_chance
  on_winner_reassigned auction_id new_winner_id price_minor currency now meanwhile = do
    id ← lift (new_auction_id auction_id)
    winner ← lift (new_bidder_id new_winner_id)
    cur ← lift (new_currency currency)
    price ← lift (new_money price_minor cur)
    s ← load id
    decided (decide_on_winner_reassigned s winner price) λ _. do
      second_invoice ← lift (invoice_id_for_attempt lib id 2)
      call (g.issue_invoice second_invoice id s.runner_up s.runner_up_amount 2 now)
      interrupt meanwhile
      ack (update id (offer_second_chance winner price second_invoice))
