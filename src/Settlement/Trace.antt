-- ===== src/Settlement/Trace.antt =====
-- What holds of a saga along any sequence of the commits that its handlers make
-- (internal/settlement/app/handlers.go, internal/settlement/app/command/decline_second_chance_offer.go).
use molot.Base.{◌≡◌, ◌≢◌, ◌⊎◌, refl, arith, ok, ◌==◌, if◌then◌else◌, sym, ◌∙◌}
use molot.Settlement.Money.{Money}
use molot.Settlement.State.{
  unset, started, awaiting_payment, second_chance_payment, relisted, failed_unsold, NextStep,
  award_runner_up, relist, fail_unsold, FailureReason, none_given, second_chance_declined,
}
use molot.Settlement.Closing.{Closing, BidderId, InvoiceId}
use molot.Settlement.Commits.{commit_reason, offer_second_chance}
use molot.Settlement.Saga.{
  Settlement, start, next_step_on_failure, decide_on_payment_timeout, decide_on_decline,
  invoice_issued, payment_received, apply_next_step,
}

-- A saga that began as `origin`. A fork is decided on a saga that was read before, at any time.
pub data Reach (origin : Settlement) : Settlement → Type 0 where
  begins : Reach origin origin
  issues :
      {s t : Settlement} (inv : InvoiceId)
      → Reach origin s
      → invoice_issued s inv ≡ ok t
      → Reach origin t
  pays :
      {s t : Settlement} (inv : InvoiceId)
      → Reach origin s
      → payment_received s inv ≡ ok t
      → Reach origin t
  offers :
      {s t : Settlement} (winner : BidderId) (price : Money) (inv : InvoiceId)
      → Reach origin s
      → offer_second_chance winner price inv s ≡ ok t
      → Reach origin t
  times_out :
      {r s t : Settlement} {step : NextStep} (inv : InvoiceId)
      → Reach origin r
      → decide_on_payment_timeout r inv ≡ ok step
      → Reach origin s
      → apply_next_step s step (commit_reason step) ≡ ok t
      → Reach origin t
  declines :
      {r s t : Settlement} {step : NextStep} (actor : BidderId)
      → Reach origin r
      → decide_on_decline r actor ≡ ok step
      → Reach origin s
      → apply_next_step s step second_chance_declined ≡ ok t
      → Reach origin t

-- A saga in a state that its origin can have led to.
pub record IsConsistent (origin s : Settlement) : Type 0 where
  pub same_auction : s.auction_id ≡ origin.auction_id
  pub same_hammer : s.hammer ≡ origin.hammer
  pub same_runner_up : s.runner_up ≡ origin.runner_up
  pub same_amount : s.runner_up_amount ≡ origin.runner_up_amount
  pub same_verdict : s.runner_up_qualifies ≡ origin.runner_up_qualifies
  pub same_gen : s.relist_gen ≡ origin.relist_gen
  pub known : s.state ≢ unset
  pub attempts : (s.attempt ≡ 1) ⊎ (s.attempt ≡ 2)
  pub first_winner : s.attempt ≡ 1 → s.winner ≡ origin.winner
  pub first_invoice : s.attempt ≡ 1 → s.invoice_id ≡ origin.invoice_id
  pub second_winner : s.attempt ≡ 2 → s.winner ≡ origin.runner_up
  pub started_first : s.state ≡ started → s.attempt ≡ 1
  pub awaiting_first : s.state ≡ awaiting_payment → s.attempt ≡ 1
  pub offer_second : s.state ≡ second_chance_payment → s.attempt ≡ 2
  pub relisted_gen : s.state ≡ relisted → s.relist_gen ≡ 0
  pub failed_gen : s.state ≡ failed_unsold → s.relist_gen ≢ 0
  pub failure_reason :
      s.failure_reason ≢ none_given → (s.state ≡ relisted) ⊎ (s.state ≡ failed_unsold)
  pub relisted_reason : s.state ≡ relisted → s.failure_reason ≢ none_given
  pub failed_reason : s.state ≡ failed_unsold → s.failure_reason ≢ none_given

start-IsConsistent : (c : Closing) {s : Settlement} → start c ≡ ok s → IsConsistent s s
unfolding start
start-IsConsistent c h = ground arith

module _ (origin s : Settlement) (v : IsConsistent origin s) where
  issued-IsConsistent :
      (inv : InvoiceId) {t : Settlement} → invoice_issued s inv ≡ ok t → IsConsistent origin t
  unfolding invoice_issued
  issued-IsConsistent inv h = ground arith

  paid-IsConsistent :
      (inv : InvoiceId) {t : Settlement} → payment_received s inv ≡ ok t → IsConsistent origin t
  unfolding payment_received
  paid-IsConsistent inv h = ground arith

  offered-IsConsistent :
      (winner : BidderId) (price : Money) (inv : InvoiceId) {t : Settlement}
      → offer_second_chance winner price inv s ≡ ok t
      → IsConsistent origin t
  unfolding offer_second_chance
  offered-IsConsistent winner price inv h = ground arith

  -- What a step has to meet, to be committed.
  forked-IsConsistent :
      (step : NextStep) (why : FailureReason) {t : Settlement}
      → (step ≡ relist → origin.relist_gen ≡ 0)
      → (step ≡ fail_unsold → origin.relist_gen ≢ 0)
      → apply_next_step s step why ≡ ok t
      → IsConsistent origin t
  unfolding apply_next_step
  forked-IsConsistent award_runner_up why r f h = ground arith
  forked-IsConsistent relist why r f h = ground (arith, r refl)
  forked-IsConsistent fail_unsold why r f h = ground (arith, f refl)

  next_step_gen :
      (next_step_on_failure s ≡ relist → origin.relist_gen ≡ 0)
      × (next_step_on_failure s ≡ fail_unsold → origin.relist_gen ≢ 0)
  unfolding next_step_on_failure
  next_step_gen = (λ e. ground arith, λ e. ground arith)

-- The decisions answer with `next_step_on_failure`.
decided_timeout :
    (s : Settlement) (inv : InvoiceId) {step : NextStep}
    → decide_on_payment_timeout s inv ≡ ok step
    → step ≡ next_step_on_failure s
unfolding decide_on_payment_timeout
decided_timeout s inv h = ground arith

decided_decline :
    (s : Settlement) (actor : BidderId) {step : NextStep}
    → decide_on_decline s actor ≡ ok step
    → (step ≡ next_step_on_failure s) × (s.state ≡ second_chance_payment)
unfolding decide_on_decline
decided_decline s actor h = ground arith

Reach-steps :
    {origin s : Settlement} → IsConsistent origin origin → Reach origin s → IsConsistent origin s
Reach-steps v begins = v
Reach-steps v (issues inv r h) = issued-IsConsistent _ _ (Reach-steps v r) inv h
Reach-steps v (pays inv r h) = paid-IsConsistent _ _ (Reach-steps v r) inv h
Reach-steps v (offers winner price inv r h) =
    offered-IsConsistent _ _ (Reach-steps v r) winner price inv h
Reach-steps v (times_out {r = r} {step = step} inv seen d now h) =
    let g = next_step_gen _ r (Reach-steps v seen) in
    let e = sym (decided_timeout r inv d) in
    forked-IsConsistent _ _ (Reach-steps v now) step _ (λ q. g.0 (e ∙ q)) (λ q. g.1 (e ∙ q)) h
Reach-steps v (declines {r = r} {step = step} actor seen d now h) =
    let g = next_step_gen _ r (Reach-steps v seen) in
    let e = sym (decided_decline r actor d).0 in
    forked-IsConsistent _ _ (Reach-steps v now) step _ (λ q. g.0 (e ∙ q)) (λ q. g.1 (e ∙ q)) h

-- Every saga that commits lead to from a start, in whatever order and however old the read on which
-- a fork was decided, is consistent: the terms of the closing are unchanged, the attempt is 1 or 2
-- and agrees with winner, invoice and state, a relisted saga is of an original listing, a failed
-- one is of a relisting, and a failure reason is there exactly in these two states.
pub Reach-IsConsistent :
    (c : Closing) {origin s : Settlement}
    → start c ≡ ok origin
    → Reach origin s
    → IsConsistent origin s
Reach-IsConsistent c h r = Reach-steps (start-IsConsistent c h) r

start_gen : (c : Closing) {s : Settlement} → start c ≡ ok s → s.relist_gen ≡ c.relist_gen
unfolding start
start_gen c h = ground arith

-- Of a saga that commits led to from a start and that awaits the second payment, a timeout and a
-- decline decide on the same step where both are decided: to relist an original listing, and to
-- give up a relisted one; the runner-up is awarded no second time.
pub second_chance_is_last :
    (c : Closing) {origin s : Settlement} (inv : InvoiceId) (actor : BidderId)
    {step again : NextStep}
    → start c ≡ ok origin
    → Reach origin s
    → s.state ≡ second_chance_payment
    → decide_on_payment_timeout s inv ≡ ok step
    → decide_on_decline s actor ≡ ok again
    → (step ≡ (if c.relist_gen == 0 then relist else fail_unsold)) × (again ≡ step)
unfolding next_step_on_failure
second_chance_is_last c {origin} {s} inv actor h r at d k =
    let v = Reach-IsConsistent c h r in
    let e = decided_timeout s inv d in
    let f = (decided_decline s actor k).0 in
    (ground (arith, start_gen c h, v.same_gen, v.offer_second at), f ∙ sym e)
