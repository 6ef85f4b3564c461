-- ===== src/Settlement/Races.antt =====
-- The decline of the second chance against the payment and the expiry of its invoice
-- (docs/ARCHITECTURE.md, section 6.4; internal/settlement/app/command/decline_second_chance_offer.go).
use molot.Base.{◌≡◌, ◌≢◌, ◌⊎◌, inl, inr, refl, arith, Result, ok, err, Result-cases, sym, ap, ◌∙◌}
use molot.Slug.{new_conflict_error}
use molot.Uuid.{nil}
use molot.Time.{Time}
use molot.Settlement.Errors.{Error, unexpected_transition, offer_already_paid, foreign}
use molot.Settlement.State.{
  NextStep, award_runner_up, relist, fail_unsold, second_chance_declined, settled, relisted,
  failed_unsold, second_chance_payment,
}
use molot.Settlement.Closing.{AuctionId, BidderId}
use molot.Settlement.Relist.{RelistPolicy}
use molot.Settlement.Saga.{
  Settlement, decide_on_decline, can_runner_up_decline, apply_next_step, conclude,
}
use molot.Settlement.Ids.{UuidLib}
use molot.Settlement.Gateways.{Gateways}
use molot.Settlement.Repository
use molot.Settlement.Repository.{next_version}
use molot.Settlement.Action.{World, on_error, update}
use molot.Settlement.Redelivery.{alone}
use molot.Settlement.Decline.{
  compensate, handle, decline_outcome, commit_failed, answer_by_state, void_refusal,
}

-- Who may decline, and when.
decline_allowed :
    (s : Settlement) (actor : BidderId) {step : NextStep}
    → decide_on_decline s actor ≡ ok step
    → (actor ≢ nil) × (actor ≡ s.runner_up) × (s.state ≡ second_chance_payment)
unfolding decide_on_decline can_runner_up_decline
decline_allowed s actor h = ground arith

-- The verdict on the recipient's decline of a concluded saga.
decline_after :
    (t : Settlement) (actor : BidderId)
    → actor ≢ nil
    → actor ≡ t.runner_up
    → (t.state ≡ settled → decide_on_decline t actor ≡ err offer_already_paid)
      × ((t.state ≡ relisted) ⊎ (t.state ≡ failed_unsold)
          → decide_on_decline t actor ≡ err unexpected_transition)
unfolding decide_on_decline can_runner_up_decline
decline_after t actor set e = (λ p. ground arith, λ p. ground arith)

-- A fork that is committed too late.
fork_late :
    (t : Settlement) (step : NextStep)
    → step ≢ award_runner_up
    → (t.state ≡ settled) ⊎ (t.state ≡ relisted) ⊎ (t.state ≡ failed_unsold)
    → apply_next_step t step second_chance_declined ≡ err unexpected_transition
unfolding apply_next_step conclude
fork_late t award_runner_up n h = absurd (n refl)
fork_late t relist n h = ground arith
fork_late t fail_unsold n h = ground arith

fork_due :
    (s : Settlement) (step : NextStep)
    → step ≢ award_runner_up
    → s.state ≡ second_chance_payment
    → apply_next_step s step second_chance_declined ≢ err unexpected_transition
unfolding apply_next_step conclude
fork_due s award_runner_up n at = absurd (n refl)
fork_due s relist n at = λ e. ground arith
fork_due s fail_unsold n at = λ e. ground arith

module _ {W : Type 0} (g : Gateways W) (lib : UuidLib) (policy : RelistPolicy) where
  not_award :
      (id : AuctionId) (step : NextStep) (now : Time) (v : W) {w : W}
      → compensate g lib policy id step now v ≡ (ok tt, w)
      → step ≢ award_runner_up
  unfolding compensate
  not_award id step now v h e = ground arith

  module _ (id : AuctionId) (actor : BidderId) (now : Time) (meanwhile : World W → World W)
      (v : World W) {s t : Settlement} {step : NextStep} {voided far : W}
      (found : Repository.get id v.sagas ≡ ok s) (decided : decide_on_decline s actor ≡ ok step)
      (is_void : g.void_invoice s.invoice_id now v.far ≡ (ok tt, voided))
      (done : compensate g lib policy id step now voided ≡ (ok tt, far))
      (later : Repository.get id (meanwhile (record { sagas = v.sagas; far = far })).sagas ≡ ok t)
      (same : t.runner_up ≡ s.runner_up) where
    -- A decline that was decided and whose effects succeeded answers with success, and leaves the
    -- table of sagas as the other handlers left it, where meanwhile they relisted the lot of the
    -- same runner-up's saga or gave it up.
    pub decline_expires :
        (t.state ≡ relisted) ⊎ (t.state ≡ failed_unsold)
        → handle g lib policy id actor now meanwhile v
          ≡ (ok tt, meanwhile (record { sagas = v.sagas; far = far }))
    unfolding handle commit_failed answer_by_state decline_outcome
    decline_expires at =
        let (set, is_actor, open_offer) = decline_allowed s actor decided in
        let late = fork_late t step (not_award id step now voided done) (inr at) in
        let refused =
          Repository.update_refused id
            (λ current. apply_next_step current step second_chance_declined)
            (meanwhile (record { sagas = v.sagas; far = far })).sagas later late in
        let verdict = (decline_after t actor set (is_actor ∙ sym same)).1 at in
        ground (arith, found, decided, is_void, done, later, refused, verdict)

  -- Where billing answers the void of a decided decline with offer_already_paid, the decline
  -- answers with the conflict offer-already-paid; the sagas stay as they are and no call of the
  -- auction context is made.
  pub decline_void_paid :
      (id : AuctionId) (actor : BidderId) (now : Time) (meanwhile : World W → World W) (v : World W)
      {s : Settlement} {step : NextStep} {seen : W}
      → Repository.get id v.sagas ≡ ok s
      → decide_on_decline s actor ≡ ok step
      → g.void_invoice s.invoice_id now v.far ≡ (err offer_already_paid, seen)
      → handle g lib policy id actor now meanwhile v
        ≡ (err (foreign (new_conflict_error "offer-already-paid")), record v { far = seen })
  unfolding handle void_refusal
  decline_void_paid id actor now meanwhile v found decided paid =
      ground (arith, found, decided, paid)

  -- A saga after its decline.
  declined_state :
      (s : Settlement) (step : NextStep) {t : Settlement}
      → apply_next_step s step second_chance_declined ≡ ok t
      → ((t.state ≡ relisted) ⊎ (t.state ≡ failed_unsold)) × (t.runner_up ≡ s.runner_up)
  unfolding apply_next_step conclude
  declined_state s award_runner_up h = ground arith
  declined_state s relist h = ground arith
  declined_state s fail_unsold h = ground arith

  -- What a decline that succeeded went through.
  effects_ok :
      (id : AuctionId) (actor : BidderId) (now : Time) (v : World W) {w : World W} {s : Settlement}
      {step : NextStep}
      → Repository.get id v.sagas ≡ ok s
      → decide_on_decline s actor ≡ ok step
      → handle g lib policy id actor now alone v ≡ (ok tt, w)
      → (step ≢ award_runner_up)
        × ((far : W) × (on_error
                (commit_failed g lib policy id actor)
                (update id (λ current. apply_next_step current step second_chance_declined))
                (record v { far = far })
              ≡ (ok tt, w)))
  unfolding handle
  effects_ok id actor now v {w} {s} {step} found decided h =
      let voided = (g.void_invoice s.invoice_id now v.far).1 in
      let effect = compensate g lib policy id step now voided in
      elim (Result-cases (g.void_invoice s.invoice_id now v.far).0) [
        | inl (u, is_void) ↦ elim (Result-cases effect.0) [
          | inl (u', done) ↦ (
            not_award id step now voided {w = effect.1} (ground (arith, done)),
            (effect.1, ground (arith, found, decided, is_void, done)),
          )
          | inr failed ↦ absurd (ground (arith, found, decided, is_void, failed))
        ]
        | inr (inl (e, failed)) ↦ absurd (ground (arith, found, decided, failed))
        | inr (inr panics) ↦ absurd (ground (arith, found, decided, panics))
      ]

  -- Where no other handler runs meanwhile: once a decided decline succeeded, its retry by the same
  -- runner-up succeeds and changes nothing.
  pub decline_again :
      (id : AuctionId) (actor : BidderId) (now later : Time) (v : World W) {w : World W}
      {s : Settlement} {step : NextStep}
      → Repository.get id v.sagas ≡ ok s
      → decide_on_decline s actor ≡ ok step
      → handle g lib policy id actor now alone v ≡ (ok tt, w)
      → handle g lib policy id actor later alone w ≡ (ok tt, w)
  unfolding handle
  decline_again id actor now later v {w} {s} {step} found decided h =
      let f : Settlement → Result Error Settlement =
        λ current. apply_next_step current step second_chance_declined in
      let (set, is_actor, offered) = decline_allowed s actor decided in
      let (n, ran) = effects_ok id actor now v found decided h in
      elim (Result-cases (Repository.update id f v.sagas).0) [
        | inl (u, stored) ↦
            let (s', t, found', forked, there) =
              Repository.update_ok id f v.sagas {m' = (Repository.update id f v.sagas).1}
                (ground arith) in
            let same : s' ≡ s = ground (arith, found, found') in
            let (at, runner_up) = declined_state s' step forked in
            let verdict =
              (decline_after (next_version t) actor set
                  (is_actor ∙ sym (ap (λ (x : Settlement). x.runner_up) same) ∙ sym runner_up)).1
                at in
            ground (arith, ran, stored, there, verdict)
        | inr (inl (e, failed)) ↦
            let due = fork_due s step n offered in
            ground (arith, ran, failed, found, due, Repository.update_unexpected id f v.sagas)
        | inr (inr panics) ↦ absurd (ground (arith, ran, panics))
      ]
