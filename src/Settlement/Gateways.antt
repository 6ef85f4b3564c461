-- ===== src/Settlement/Gateways.antt =====
-- The interfaces through which the saga calls the other contexts (`auctionGateway` and
-- `billingGateway` of internal/settlement/app/handlers.go and
-- internal/settlement/app/command/decline_second_chance_offer.go), with the promise that they make.
use molot.Base.{ℕ, ◌≡◌, ◌≢◌, ◌<◌, Result, ok, err, panic}
use molot.Time.{Time}
use molot.Settlement.Errors.{Error}
use molot.Settlement.Money.{Money}
use molot.Settlement.State.{FailureReason}
use molot.Settlement.Closing.{AuctionId, BidderId, InvoiceId}

-- The result of a call, and the state that it leaves.
abbrev pub Call : Type 0 → Type 0
Call W = W → Result Error (Unit {0}) × W

-- One call after another; the second is made if the first succeeds.
abbrev pub then_call : {W : Type 0} → Call W → Call W → Call W
then_call c d w =
    let (r, v) = c w in elim r [ ok u ↦ d v | err e ↦ (err e, v) | panic ↦ (panic, v) ]

-- A call with a computed argument.
abbrev pub with_result : {W A : Type 0} → Result Error A → (A → Call W) → Call W
with_result (ok a) c w = c a w
with_result (err e) c w = (err e, w)
with_result panic c w = (panic, w)

-- The calls; `W` is the state of the other contexts, and the `Time` is what their clocks show.
pub record Gateways (W : Type 0) : Type 0 where
  pub award_to_runner_up : AuctionId → Time → Call W
  pub relist : AuctionId → AuctionId → Time → Time → Time → Call W
  pub mark_sale_failed : AuctionId → FailureReason → Time → Call W
  pub confirm_settlement : AuctionId → Time → Call W
  pub issue_invoice : InvoiceId → AuctionId → BidderId → Money → ℕ → Time → Call W
  pub void_invoice : InvoiceId → Time → Call W

-- A call that succeeded does nothing when it is repeated. A relisting also leaves the failure that
-- came before it in place; its repeat may ask for a later window. The clock that repeats an issue is
-- not the zero time.
pub record IsIdempotent {W : Type 0} (g : Gateways W) : Type 0 where
  pub award_again :
      (id : AuctionId) (now later : Time) (v w : W)
      → g.award_to_runner_up id now v ≡ (ok tt, w)
      → g.award_to_runner_up id later w ≡ (ok tt, w)
  pub confirm_again :
      (id : AuctionId) (now later : Time) (v w : W)
      → g.confirm_settlement id now v ≡ (ok tt, w)
      → g.confirm_settlement id later w ≡ (ok tt, w)
  pub fail_again :
      (id : AuctionId) (reason : FailureReason) (now later : Time) (v w : W)
      → g.mark_sale_failed id reason now v ≡ (ok tt, w)
      → g.mark_sale_failed id reason later w ≡ (ok tt, w)
  pub relist_again :
      (id new_id : AuctionId) (s e s' e' : Time) (now later : Time) (v w : W)
      → s' < e'
      → later < s'
      → g.relist id new_id s e now v ≡ (ok tt, w)
      → g.relist id new_id s' e' later w ≡ (ok tt, w)
  pub fail_after_relist :
      (id new_id : AuctionId) (reason : FailureReason) (s e : Time) (now later last : Time)
      (u v w : W)
      → g.mark_sale_failed id reason now u ≡ (ok tt, v)
      → g.relist id new_id s e later v ≡ (ok tt, w)
      → g.mark_sale_failed id reason last w ≡ (ok tt, w)
  pub issue_again :
      (inv : InvoiceId) (id : AuctionId) (debtor : BidderId) (amount : Money) (attempt : ℕ)
      (now later : Time) (v w : W)
      → later ≢ 0
      → g.issue_invoice inv id debtor amount attempt now v ≡ (ok tt, w)
      → g.issue_invoice inv id debtor amount attempt later w ≡ (ok tt, w)
  pub void_again :
      (inv : InvoiceId) (now later : Time) (v w : W)
      → g.void_invoice inv now v ≡ (ok tt, w)
      → g.void_invoice inv later w ≡ (ok tt, w)
