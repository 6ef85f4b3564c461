-- ===== src/Billing/Pay.antt =====
-- internal/billing/app/command/pay_invoice.go: the payment of an invoice. The provider and the table
-- of invoices are not locked together, so other handlers run between the calls: `meanwhile` is what
-- they do.
use molot.Base.{Result, ok, err, panic}
use molot.Slug.{Fault, slug, new_conflict_error, new_unavailable_error}
use molot.Time.{Time}
use molot.Billing.Errors.{
  Error, invoice_already_paid, invoice_expired, invoice_voided, payment_declined,
}
use molot.Billing.Values.{
  InvoiceId, BidderId, PaymentReference, InvoiceStatus, unset, pending, paid, expired, voided,
}
use molot.Billing.Invoice.{Invoice, mark_paid}
use molot.Billing.Repository
use molot.Billing.Repository.{Invoices}
use molot.Billing.Commands.{map_not_found}
use molot.Billing.Psp.{PaymentGateway}

-- The table of invoices and the provider's state.
pub record Till (P : Type 0) : Type 0 where
  pub invoices : Invoices
  pub psp : P

-- Before which call of the handler the others run.
pub data Moment : Type 0 where
  charging committing refunding : Moment

abbrev pub Answer : Type 0 → Type 0
Answer P = Result (Fault Error) (Unit {0}) × Till P

-- What `Handle` makes of an error of `Charge`.
unfoldable pub charge_refused : Error → Fault Error
charge_refused payment_declined = slug (new_conflict_error "payment-declined")
charge_refused e = slug (new_unavailable_error "psp-unavailable")

module _ {P : Type 0} (g : PaymentGateway P) (id : InvoiceId) (payer : BidderId) (now : Time)
    (meanwhile : Moment → Till P → Till P) where
  -- `Refund`, and the conflict that it ends in.
  unfoldable pub give_back : Till P → Answer P
  give_back w =
      let (r, p) = g.refund id w.psp in
      let left : Till P = record w { psp = p } in
      elim r [
        | ok u ↦ (err (slug (new_conflict_error "invoice-no-longer-payable")), left)
        | err e ↦ (err (slug (new_unavailable_error "psp-unavailable")), left)
        | panic ↦ (panic, left)
      ]

  -- Step 4: the outcome of the race.
  unfoldable pub settle_race : Result Error (Unit {0}) → Till P → Answer P
  unfolding give_back map_not_found
  settle_race (ok u) w = (ok tt, w)
  settle_race (err invoice_already_paid) w = (ok tt, w)
  settle_race (err invoice_expired) w = give_back (meanwhile refunding w)
  settle_race (err invoice_voided) w = give_back (meanwhile refunding w)
  settle_race (err e) w = (map_not_found e, w)
  settle_race panic w = (panic, w)

  -- Step 3: `MarkPaid` under the row's lock.
  unfoldable pub commit_payment : PaymentReference → Till P → Answer P
  unfolding settle_race
  commit_payment ref w =
      let (r, m) = Repository.update id payer (λ i. mark_paid i ref now) w.invoices in
      settle_race r (record w { invoices = m })

  -- Step 2: `Charge`.
  unfoldable pub charge_first : Invoice → Till P → Answer P
  unfolding commit_payment charge_refused
  charge_first i w =
      let (r, p) = g.charge id i.total w.psp in
      let left : Till P = record w { psp = p } in
      elim r [
        | ok ref ↦ commit_payment ref (meanwhile committing left)
        | err e ↦ (err (charge_refused e), left)
        | panic ↦ (panic, left)
      ]

  -- The `switch` of step 1.
  unfoldable pub pay_by_status : InvoiceStatus → Invoice → Till P → Answer P
  unfolding give_back charge_first
  pay_by_status paid i w = (ok tt, w)
  pay_by_status expired i w = give_back (meanwhile refunding w)
  pay_by_status voided i w = give_back (meanwhile refunding w)
  pay_by_status pending i w = charge_first i (meanwhile charging w)
  pay_by_status unset i w = (panic, w)

  unfoldable pub pay_invoice : Till P → Answer P
  unfolding pay_by_status map_not_found
  pay_invoice w = elim (Repository.get id payer w.invoices) [
    | ok i ↦ pay_by_status i.status i w
    | err e ↦ (map_not_found e, w)
    | panic ↦ (panic, w)
  ]
