-- ===== src/Settlement/Redelivery.antt =====
-- Crashes and redeliveries of the saga's events (docs/ARCHITECTURE.md, section 6.7).
use molot.Base.{subst, sym, ℕ, ◌≡◌, ◌≢◌, Result, ok, err, arith, ◌⊎◌, inl, inr, Result-cases}
use molot.Text.{Text}
use molot.Time.{Time, Duration}
use molot.Uuid.{Uuid}
use molot.Settlement.Errors.{Error, unexpected_transition}
use molot.Settlement.Repository
use molot.Settlement.Repository.{next_version}
use molot.Settlement.Money.{new_currency, new_money}
use molot.Settlement.Saga.{
  Settlement, decide_on_winner_reassigned, decide_on_payment_received, payment_received,
  decide_on_payment_timeout, apply_next_step, guard_live_invoice,
}
use molot.Settlement.Relist.{RelistPolicy, window, new_relist_policy, window_after}
use molot.Settlement.State.{
  NextStep, award_runner_up, relist, fail_unsold, FailureReason, payment_timeout,
}
use molot.Settlement.Commits.{commit_reason, offer_second_chance}
use molot.Settlement.Ids.{UuidLib, invoice_id_for_attempt_lem, relist_id_for_lem}
use molot.Settlement.Gateways.{Gateways, Call, IsIdempotent}
use molot.Settlement.Action.{World, Action, ◌>>◌, call, interrupt, update, ack}
use molot.Settlement.Closing.{AuctionId, InvoiceId, new_auction_id, new_bidder_id, new_invoice_id}
use molot.Settlement.Handlers.{
  parse_saga_ids, on_invoice_paid, on_invoice_expired, on_winner_reassigned, compensate,
}

-- No other handler runs meanwhile.
abbrev pub alone : {W : Type 0} → World W → World W
alone w = w

-- The end that the four handlers share: an effect, and a commit that is acknowledged.
abbrev pub effect_commit :
    {W : Type 0} → Call W → AuctionId → (Settlement → Result Error Settlement) → Action W (Unit {0})
effect_commit c id f = call c >> (interrupt alone >> ack (update id f))

-- The commit was stored, or another handler's was and this one is acknowledged.
pub effect_commit_ok :
    {W : Type 0} (c : Call W) (id : AuctionId) (f : Settlement → Result Error Settlement)
    (v : World W) {w : World W}
    → effect_commit c id f v ≡ (ok tt, w)
    → ((s t : Settlement) × (Repository.get id v.sagas ≡ ok s)
        × (f s ≡ ok t)
        × (Repository.get id w.sagas ≡ ok (next_version t)))
      ⊎ ((s : Settlement) × (Repository.get id v.sagas ≡ ok s)
          × (f s ≡ err unexpected_transition)
          × (w.sagas ≡ v.sagas))
effect_commit_ok c id f v {w} h = elim (Result-cases (Repository.update id f v.sagas).0) [
  | inl (u, done) ↦ inl (Repository.update_ok id f v.sagas {m' = w.sagas} (ground arith))
  | inr (inl (e, failed)) ↦
      let (s, found, refused) = Repository.update_unexpected id f v.sagas (ground arith) in
      inr (s, found, refused, ground (arith, Repository.update_err id f v.sagas failed))
  | inr (inr panics) ↦ absurd (ground arith)
]

-- A fork that was committed is not decided again.
timeout_once :
    (s : Settlement) (inv : InvoiceId) (step : NextStep) {t : Settlement}
    → decide_on_payment_timeout s inv ≡ ok step
    → apply_next_step s step (commit_reason step) ≡ ok t
    → decide_on_payment_timeout (next_version t) inv ≡ err unexpected_transition
unfolding decide_on_payment_timeout apply_next_step guard_live_invoice
timeout_once s inv award_runner_up d h = ground arith
timeout_once s inv relist d h = ground arith
timeout_once s inv fail_unsold d h = ground arith

module _ {W : Type 0} (g : Gateways W) (lib : UuidLib) (policy : RelistPolicy)
    (idem : IsIdempotent g) where
  -- Where no other handler runs meanwhile and the gateways' calls are idempotent: if OnInvoicePaid
  -- succeeded, then the same event handled after a crash between the effect and the commit succeeds
  -- and ends in the same world.
  pub invoice_paid_crash :
      (auction_id invoice_id : Uuid) (now later : Time) (v : World W) {w : World W}
      → on_invoice_paid g lib policy auction_id invoice_id now alone v ≡ (ok tt, w)
      → on_invoice_paid g lib policy auction_id invoice_id later alone
          (record w { sagas = v.sagas })
        ≡ (ok tt, w)
  unfolding on_invoice_paid parse_saga_ids new_auction_id new_invoice_id
  invoice_paid_crash auction_id invoice_id now later v {w} h =
      ground (arith, idem.confirm_again auction_id now later v.far w.far)

  -- Where no other handler runs meanwhile and the gateways' calls are idempotent: once
  -- OnInvoicePaid succeeded, the same event delivered again succeeds and changes nothing.
  pub invoice_paid_again :
      (auction_id invoice_id : Uuid) (now later : Time) (v : World W) {w : World W}
      → on_invoice_paid g lib policy auction_id invoice_id now alone v ≡ (ok tt, w)
      → on_invoice_paid g lib policy auction_id invoice_id later alone w ≡ (ok tt, w)
  unfolding on_invoice_paid parse_saga_ids new_auction_id new_invoice_id decide_on_payment_received
      payment_received
  invoice_paid_again auction_id invoice_id now later v {w} h = ground (
    arith,
    effect_commit_ok (g.confirm_settlement auction_id now) auction_id
        (λ current. payment_received current invoice_id) v {w = w},
  )

  -- Where no other handler runs meanwhile the gateways' calls are idempotent, and the later time is
  -- not the zero time: if OnWinnerReassigned succeeded, then the same event handled after a crash
  -- between the effect and the commit succeeds and ends in the same world.
  pub winner_reassigned_crash :
      (auction_id winner_id : Uuid) (price : ℕ) (currency : Text) (now later : Time) (v : World W)
      {w : World W}
      → later ≢ 0
      → on_winner_reassigned g lib policy auction_id winner_id price currency now alone v
        ≡ (ok tt, w)
      → on_winner_reassigned g lib policy auction_id winner_id price currency later alone
          (record w { sagas = v.sagas })
        ≡ (ok tt, w)
  unfolding on_winner_reassigned new_auction_id
  winner_reassigned_crash auction_id winner_id price currency now later v {w} clock h =
      elim (Result-cases (Repository.get auction_id v.sagas)) [
        | inl (s, e) ↦
            let (inv, made, set) = invoice_id_for_attempt_lem lib auction_id 2 in
            ground (
              arith,
              e,
              made,
              idem.issue_again inv auction_id s.runner_up s.runner_up_amount 2 now later v.far w.far
                  clock,
            )
        | inr missing ↦ ground arith
      ]

  -- Where no other handler runs meanwhile and the gateways' calls are idempotent: once
  -- OnWinnerReassigned succeeded, the same event delivered again succeeds and changes nothing.
  pub winner_reassigned_again :
      (auction_id winner_id : Uuid) (price : ℕ) (currency : Text) (now later : Time) (v : World W)
      {w : World W}
      → on_winner_reassigned g lib policy auction_id winner_id price currency now alone v
        ≡ (ok tt, w)
      → on_winner_reassigned g lib policy auction_id winner_id price currency later alone w
        ≡ (ok tt, w)
  unfolding on_winner_reassigned new_auction_id new_bidder_id offer_second_chance
      decide_on_winner_reassigned
  winner_reassigned_again auction_id winner_id price currency now later v {w} h =
      let (inv, made, set) = invoice_id_for_attempt_lem lib auction_id 2 in
      elim (Result-cases (new_currency currency)) [
        | inl (c, is_currency) ↦ elim (Result-cases (new_money price c)) [
          | inl (m, is_money) ↦ elim (Result-cases (Repository.get auction_id v.sagas)) [
            | inl (s, found) ↦ ground (
              arith,
              is_currency,
              is_money,
              found,
              made,
              effect_commit_ok (g.issue_invoice inv auction_id s.runner_up s.runner_up_amount 2 now)
                  auction_id (offer_second_chance winner_id m inv) v {w = w},
            )
            | inr missing ↦ absurd (ground arith)
          ]
          | inr failed ↦ absurd (ground arith)
        ]
        | inr failed ↦ absurd (ground arith)
      ]

  -- The effects of a fork, once they succeeded, do nothing when they are repeated.
  compensate_again :
      (delay duration : Duration) (made : new_relist_policy delay duration ≡ ok policy)
      (id : AuctionId) (step : NextStep) (why : FailureReason) (now later : Time) (v : W) {w : W}
      → compensate g lib policy id step why now v ≡ (ok tt, w)
      → compensate g lib policy id step why later w ≡ (ok tt, w)
  unfolding compensate
  compensate_again delay duration made id award_runner_up why now later v {w} h =
      idem.award_again id now later v w h
  compensate_again delay duration made id fail_unsold why now later v {w} h =
      idem.fail_again id why now later v w h
  compensate_again delay duration made id relist why now later v {w} h =
      let (new_id, is_id, set) = relist_id_for_lem lib id in
      let (after, open_window) = window_after delay duration later made in
      let (r, u) = g.mark_sale_failed id why now v in
      ground (
        arith,
        is_id,
        idem.fail_after_relist id new_id why (window policy now).0 (window policy now).1 now now
            later v (g.mark_sale_failed id why now v).1 w,
        idem.relist_again id new_id (window policy now).0 (window policy now).1
            (window policy later).0 (window policy later).1 now later
            (g.mark_sale_failed id why now v).1 w open_window after,
      )

  -- Where no other handler runs meanwhile, the relist policy is one that the constructor made and
  -- the gateways' calls are idempotent: if OnInvoiceExpired succeeded, then the same event handled
  -- by a process that crashed after the effect and before the commit (the gateways' new state, the
  -- old table of sagas) succeeds and ends in the same world.
  pub invoice_expired_crash :
      (delay duration : Duration) (made : new_relist_policy delay duration ≡ ok policy)
      (auction_id invoice_id : Uuid) (now later : Time) (v : World W) {w : World W}
      → on_invoice_expired g lib policy auction_id invoice_id now alone v ≡ (ok tt, w)
      → on_invoice_expired g lib policy auction_id invoice_id later alone
          (record w { sagas = v.sagas })
        ≡ (ok tt, w)
  unfolding on_invoice_expired parse_saga_ids new_auction_id new_invoice_id
  invoice_expired_crash delay duration made auction_id invoice_id now later v {w} h =
      elim (Result-cases (Repository.get auction_id v.sagas)) [
        | inl (s, found) ↦ elim (Result-cases (decide_on_payment_timeout s invoice_id)) [
          | inl (step, due) ↦ ground (
            arith,
            found,
            due,
            compensate_again delay duration made auction_id step payment_timeout now later v.far
                {w = w.far},
          )
          | inr refused ↦ ground arith
        ]
        | inr missing ↦ ground arith
      ]

  -- Where no other handler runs meanwhile, the relist policy is one that the constructor made and
  -- the gateways' calls are idempotent: once OnInvoiceExpired succeeded, the same event delivered
  -- again succeeds and changes nothing.
  pub invoice_expired_again :
      (delay duration : Duration) (made : new_relist_policy delay duration ≡ ok policy)
      (auction_id invoice_id : Uuid) (now later : Time) (v : World W) {w : World W}
      → on_invoice_expired g lib policy auction_id invoice_id now alone v ≡ (ok tt, w)
      → on_invoice_expired g lib policy auction_id invoice_id later alone w ≡ (ok tt, w)
  unfolding on_invoice_expired parse_saga_ids new_auction_id new_invoice_id
  invoice_expired_again delay duration made auction_id invoice_id now later v {w} h =
      elim (Result-cases (Repository.get auction_id v.sagas)) [
        | inl (s, found) ↦ elim (Result-cases (decide_on_payment_timeout s invoice_id)) [
          | inl (step, due) ↦
              elim (effect_commit_ok (compensate g lib policy auction_id step payment_timeout now)
                auction_id (λ current. apply_next_step current step (commit_reason step)) v {w = w}
                (ground (arith, found, due))) [
                  | inl (s', t, found', applied, there) ↦
                      let once =
                        timeout_once s invoice_id step {t = t} due
                          (ground (arith, found, found', applied)) in
                      ground (arith, there, once)
                  | inr (s', found', refused, same) ↦
                      let again =
                        invoice_expired_crash delay duration made auction_id invoice_id now later v
                          {w = w} h in
                      subst
                        (λ m.
                          on_invoice_expired g lib policy auction_id invoice_id later alone
                            (record w { sagas = m })
                          ≡ (ok tt, w))
                        (sym same) again
                ]
          | inr refused ↦ ground arith
        ]
        | inr missing ↦ absurd (ground arith)
      ]
