-- ===== src/Settlement/Decline.antt =====
-- internal/settlement/app/command/decline_second_chance_offer.go: the runner-up declines the offer.
-- `meanwhile` is what other handlers do between the effects and the commit.
use molot.Base.{Result, ok, err, panic}
use molot.Slug.{new_conflict_error, new_forbidden_error, new_not_found_error}
use molot.Time.{Time}
use molot.Settlement.Errors.{
  Error, unexpected_transition, not_offer_recipient, offer_already_paid, not_found, foreign,
}
use molot.Settlement.State.{NextStep, award_runner_up, relist, fail_unsold, second_chance_declined}
use molot.Settlement.Closing.{AuctionId, BidderId}
use molot.Settlement.Relist.{RelistPolicy, window}
use molot.Settlement.Saga.{decide_on_decline, apply_next_step}
use molot.Settlement.Ids.{UuidLib, relist_id_for}
use molot.Settlement.Gateways.{Gateways, Call, then_call, with_result}
use molot.Settlement.Repository
use molot.Settlement.Action.{World, Action, call, interrupt, update, ◌>>◌, on_error}

-- `mapNotFound`
unfoldable pub map_not_found : Error → Error
map_not_found (not_found id) = foreign (new_not_found_error "settlement-not-found")
map_not_found e = e

-- `declineOutcome`, of an error.
unfoldable pub decline_outcome : Error → Result Error (Unit {0})
decline_outcome unexpected_transition = ok tt
decline_outcome offer_already_paid = err (foreign (new_conflict_error "offer-already-paid"))
decline_outcome not_offer_recipient = err (foreign (new_forbidden_error "not-offer-recipient"))
decline_outcome e = err e

-- What `Handle` makes of an error of `VoidInvoice`.
unfoldable pub void_refusal : Error → Error
void_refusal offer_already_paid = foreign (new_conflict_error "offer-already-paid")
void_refusal e = e

module _ {W : Type 0} (g : Gateways W) (lib : UuidLib) (policy : RelistPolicy) where
  -- `compensate`: a second award is a panic.
  unfoldable pub compensate : AuctionId → NextStep → Time → Call W
  compensate id relist now = then_call (g.mark_sale_failed id second_chance_declined now) (
      with_result (relist_id_for lib id)
        λ new_id. g.relist id new_id (window policy now).0 (window policy now).1 now)
  compensate id fail_unsold now = g.mark_sale_failed id second_chance_declined now
  compensate id award_runner_up now = λ w. (panic, w)

  -- After a lost race: the answer by the final state.
  unfoldable pub answer_by_state : AuctionId → BidderId → Action W (Unit {0})
  unfolding map_not_found decline_outcome
  answer_by_state id actor w = elim (Repository.get id w.sagas) [
    | ok current ↦ elim (decide_on_decline current actor) [
      | ok step ↦ (ok tt, w)
      | err e ↦ (decline_outcome e, w)
      | panic ↦ (panic, w)
    ]
    | err e ↦ (err (map_not_found e), w)
    | panic ↦ (panic, w)
  ]

  -- What `Handle` makes of an error of the commit.
  unfoldable pub commit_failed : AuctionId → BidderId → Error → Action W (Unit {0})
  unfolding answer_by_state
  commit_failed id actor unexpected_transition w = answer_by_state id actor w
  commit_failed id actor e w = (err e, w)

  -- `Handle`
  unfoldable pub handle : AuctionId → BidderId → Time → (World W → World W) → Action W (Unit {0})
  unfolding map_not_found decline_outcome void_refusal compensate commit_failed
  handle id actor now meanwhile w = elim (Repository.get id w.sagas) [
    | ok s ↦ elim (decide_on_decline s actor) [
      | ok step ↦
          (on_error (λ e v. (err (void_refusal e), v)) (call (g.void_invoice s.invoice_id now))
              >> (call (compensate id step now)
                  >> (interrupt meanwhile
                      >> on_error (commit_failed id actor) (
                          update id
                            (λ current. apply_next_step current step second_chance_declined)))))
            w
      | err e ↦ (decline_outcome e, w)
      | panic ↦ (panic, w)
    ]
    | err e ↦ (err (map_not_found e), w)
    | panic ↦ (panic, w)
  ]
