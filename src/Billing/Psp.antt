-- ===== src/Billing/Psp.antt =====
-- internal/billing/adapters/psp_fake.go: the payment provider that the billing context talks to, and
-- the interface of it in internal/billing/app/command/pay_invoice.go. The keys of its maps are the
-- texts of invoice identities, one for each identity, so the identity stands for its text.
use molot.Base.{
  Bool, true, false, Option, none, some, [], ◌++◌, Result, ok, err, panic, if◌then◌else◌,
}
use molot.Store
use molot.Store.{Store}
use molot.Text
use molot.Text.{Text, text}
use molot.Billing.Errors.{Error, payment_declined, psp_unavailable}
use molot.Billing.Money.{Money}
use molot.Billing.Values.{InvoiceId, PaymentReference, new_payment_reference}

-- `paymentGateway`, over the provider's state.
pub record PaymentGateway (P : Type 0) : Type 0 where
  pub charge : InvoiceId → Money → P → Result Error PaymentReference × P
  pub refund : InvoiceId → P → Result Error (Unit {0}) × P

-- `PSPModeSuccess`, `PSPModeDecline` and `PSPModeFlaky`
pub data PspMode : Type 0 where
  success decline flaky : PspMode

pub record FakePsp : Type 0 where
  pub mode : PspMode
  pub charges : Store PaymentReference
  pub failed_once : Store Bool
  pub refunded : Store Bool

abbrev of_mode : PspMode → FakePsp
of_mode m = record { mode = m; charges = []; failed_once = []; refunded = [] }

-- `NewFakePSP`; `none` is its error.
unfoldable pub new_fake_psp : Text → Option FakePsp
new_fake_psp m =
    if Text.eq m (text "success")
    then some (of_mode success)
    else if Text.eq m (text "decline")
    then some (of_mode decline)
    else if Text.eq m (text "flaky")
    then some (of_mode flaky)
    else none

-- `m[k]` of a map to bool, whose zero value is false.
abbrev pub is_set : InvoiceId → Store Bool → Bool
is_set k m = elim (Store.lookup k m) [ none ↦ false | some b ↦ b ]

-- The last lines of `Charge`, with the text of the new UUID.
unfoldable pub accept : Text → InvoiceId → FakePsp → Result Error PaymentReference × FakePsp
accept fresh k p = elim (new_payment_reference (text "psp-" ++ fresh)) [
  | ok ref ↦ (ok ref, record p { charges = Store.insert k ref p.charges })
  | err e ↦ (err e, p)
  | panic ↦ (panic, p)
]

-- `Charge` for a key that has no charge.
unfoldable pub charge_new :
    PspMode → Text → InvoiceId → FakePsp → Result Error PaymentReference × FakePsp
unfolding accept
charge_new success fresh k p = accept fresh k p
charge_new decline fresh k p = (err payment_declined, p)
charge_new flaky fresh k p =
    if is_set k p.failed_once
    then accept fresh k p
    else (err psp_unavailable, record p { failed_once = Store.insert k true p.failed_once })

unfoldable pub charge : Text → InvoiceId → FakePsp → Result Error PaymentReference × FakePsp
unfolding charge_new
charge fresh k p = elim (Store.lookup k p.charges) [
  | some ref ↦ (ok ref, p)
  | none ↦ charge_new p.mode fresh k p
]

unfoldable pub refund : InvoiceId → FakePsp → Result Error (Unit {0}) × FakePsp
refund k p = elim (Store.lookup k p.charges) [
  | none ↦ (ok tt, p)
  | some ref ↦ (ok tt, record p { refunded = Store.insert k true p.refunded })
]

-- The provider as the handler sees it; `fresh` is the text of the UUID that a new charge gets.
abbrev pub fake : Text → PaymentGateway FakePsp
fake fresh = record { charge = λ k amount. charge fresh k; refund = refund }
