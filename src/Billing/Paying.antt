-- ===== src/Billing/Paying.antt =====
-- `PayInvoiceHandler.Handle` among other handlers (internal/billing/app/command/pay_invoice.go).
use molot.Base.{
  ◌≡◌, subst, ◌≢◌, ◌⊎◌, inl, inr, refl, sym, ap, arith, Bool, true, false, none, some, Result, ok,
  err, panic, Result-cases,
}
use text.Mathlib.Text.{◌==◌ as str_eq}
use molot.Slug.{Fault, slug, new_conflict_error}
use molot.Store
use molot.Store.{Store}
use molot.Text.{Text}
use molot.Time.{Time}
use molot.Billing.Errors.{
  Error, invoice_already_paid, invoice_expired, invoice_voided, payment_declined,
}
use molot.Billing.Values.{
  InvoiceId, BidderId, PaymentReference, InvoiceStatus, unset, pending, paid, expired, voided,
}
use molot.Billing.Invoice.{Invoice, mark_paid}
use molot.Billing.Repository
use molot.Billing.Repository.{Invoices, drained}
use molot.Billing.Commands.{map_not_found}
use molot.Billing.Psp
use molot.Billing.Psp.{FakePsp, is_set, fake}
use molot.Billing.Pay.{
  Till, Moment, charging, committing, refunding, pay_invoice, give_back, settle_race,
  commit_payment, charge_first, charge_refused, pay_by_status, Answer,
}
use molot.Billing.Payments.{is_lost, charges, commits, refunds, Steps, here, onward, Steps-trans}
use molot.Billing.Ledger.{IsBalanced, charge_ok}
use molot.Billing.Final.{Steps-IsBalanced, IsLost, IsPaid, IsLost-stays, charge_stays, unrefunded}
use molot.Billing.Race.{Race, refund_ok, update-Race, get-lookup}

-- The answer of the conflict.
abbrev pub no_longer_payable : Result (Fault Error) (Unit {0})
no_longer_payable = err (slug (new_conflict_error "invoice-no-longer-payable"))

-- What the answer of the handler says of the world that it leaves: the calls that it made with those
-- of the others are calls of the billing context, and a success means that the invoice is paid, and
-- the conflict that the invoice is lost and a charge of it given back.
pub record Answers (id : InvoiceId) (w : Till FakePsp) (a : Answer FakePsp) : Type 0 where
  pub runs : Steps w a.1
  pub success_paid : a.0 ≡ ok tt → IsPaid id a.1
  pub conflict_lost :
      a.0 ≡ no_longer_payable
      → IsLost id a.1
        × ((Store.lookup id a.1.psp.charges ≡ none) ⊎ (is_set id a.1.psp.refunded ≡ true))

after_steps :
    {id : InvoiceId} {w v : Till FakePsp} {a : Answer FakePsp}
    → Steps w v
    → Answers id v a
    → Answers id w a
after_steps p q = record {
  runs = Steps-trans p q.runs;
  success_paid = q.success_paid;
  conflict_lost = q.conflict_lost;
}

-- Any other error says nothing of the invoice.
silent :
    {id : InvoiceId} {w v : Till FakePsp} {r : Result (Fault Error) (Unit {0})}
    → Steps w v
    → r ≢ ok tt
    → r ≢ no_longer_payable
    → Answers id w (r, v)
silent p failed other = record {
  runs = p;
  success_paid = λ h. absurd (failed h);
  conflict_lost = λ h. absurd (other h);
}

-- Does the answer carry the slug of a declined payment?
abbrev names_declined : Result (Fault Error) (Unit {0}) → Bool
names_declined (err (slug s)) = str_eq s.slug "payment-declined"
names_declined _ = false

charge_refused_other : (x : Error) → err (charge_refused x) ≢ no_longer_payable
unfolding charge_refused
charge_refused_other payment_declined = λ h. ground (arith, ap names_declined h)
charge_refused_other x = λ h. ground arith

map_not_found_other :
    (x : Error) → (map_not_found x ≢ ok tt) × (map_not_found x ≢ no_longer_payable)
unfolding map_not_found
map_not_found_other x = (λ h. ground arith, λ h. ground arith)

module _ (fresh : Text) (id : InvoiceId) (payer : BidderId) (now : Time)
    (meanwhile : Moment → Till FakePsp → Till FakePsp)
    (fair : (k : Moment) (w : Till FakePsp) → Steps w (meanwhile k w)) where
  give_back-Answers :
      (w : Till FakePsp)
      → IsLost id w
      → Answers id w (give_back (fake fresh) id payer now meanwhile w)
  unfolding give_back
  give_back-Answers w (i, there, lost) =
      let left : Till FakePsp = record w { psp = (Psp.refund id w.psp).1 } in
      let a : Answer FakePsp =
        (err (slug (new_conflict_error "invoice-no-longer-payable")), left) in
      let e : give_back (fake fresh) id payer now meanwhile w ≡ a =
        ground (arith, (refund_ok id w.psp).0) in
      let fine : Answers id w a = record {
        runs = onward here (refunds id i there lost);
        success_paid = λ h. absurd (ground arith);
        conflict_lost = λ h. ((i, there, lost), (refund_ok id w.psp).1);
      } in
      subst (Answers id w) (sym e) fine

  settle_race-Answers :
      (r : Result Error (Unit {0})) (w : Till FakePsp) {m : Invoices}
      → Race id m (r, w.invoices)
      → Answers id w (settle_race (fake fresh) id payer now meanwhile r w)
  unfolding settle_race
  settle_race-Answers (ok u) w race = record {
    runs = here;
    success_paid = λ h. race.won (ground arith);
    conflict_lost = λ h. absurd (ground arith);
  }
  settle_race-Answers (err invoice_already_paid) w race = record {
    runs = here;
    success_paid = λ h. race.won_before refl;
    conflict_lost = λ h. absurd (ground arith);
  }
  settle_race-Answers (err invoice_expired) w race = after_steps (fair refunding w) (
      give_back-Answers (meanwhile refunding w)
        (IsLost-stays id (fair refunding w) (race.lost_race (inl refl))))
  settle_race-Answers (err invoice_voided) w race = after_steps (fair refunding w) (
      give_back-Answers (meanwhile refunding w)
        (IsLost-stays id (fair refunding w) (race.lost_race (inr refl))))
  settle_race-Answers (err e) w race = record {
    runs = here;
    success_paid = λ h. absurd (ground arith);
    conflict_lost = λ h. absurd (ground arith);
  }
  settle_race-Answers panic w race = record {
    runs = here;
    success_paid = λ h. absurd (ground arith);
    conflict_lost = λ h. absurd (ground arith);
  }

  commit_payment-Answers :
      (ref : PaymentReference) (w : Till FakePsp)
      → Store.lookup id w.psp.charges ≡ some ref
      → Answers id w (commit_payment (fake fresh) id payer now meanwhile ref w)
  unfolding commit_payment
  commit_payment-Answers ref w charged =
      let a = Repository.update id payer (λ i. mark_paid i ref now) w.invoices in
      after_steps (onward here (commits id payer ref now charged)) (
        settle_race-Answers a.0 (record w { invoices = a.1 })
          (update-Race id payer ref now w.invoices))

  charge_first-Answers :
      (i : Invoice) (w : Till FakePsp)
      → Answers id w (charge_first (fake fresh) id payer now meanwhile i w)
  unfolding charge_first charge_refused
  charge_first-Answers i w =
      let left : Till FakePsp = record w { psp = (Psp.charge fresh id w.psp).1 } in
      let charged : Steps w left = onward here (charges fresh id) in
      elim (Result-cases (Psp.charge fresh id w.psp).0) [
        | inl (ref, made) ↦
            let e : charge_first (fake fresh) id payer now meanwhile i w
                ≡ commit_payment (fake fresh) id payer now meanwhile ref
                    (meanwhile committing left) =
              ground (arith, made) in
            let kept =
              charge_stays id ref (fair committing left)
                (charge_ok fresh id w.psp {ref = ref} made) in
            subst (Answers id w) (sym e) (
              after_steps (Steps-trans charged (fair committing left))
                (commit_payment-Answers ref (meanwhile committing left) kept))
        | inr (inl (x, failed)) ↦
            let e : charge_first (fake fresh) id payer now meanwhile i w
                ≡ (err (charge_refused x), left) =
              ground (arith, failed) in
            subst (Answers id w) (sym e)
              (silent charged (λ h. ground arith) (charge_refused_other x))
        | inr (inr panics) ↦
            let e : charge_first (fake fresh) id payer now meanwhile i w ≡ (panic, left) =
              ground (arith, panics) in
            subst (Answers id w) (sym e) (silent charged (λ h. ground arith) λ h. ground arith)
      ]

  pay_by_status-Answers :
      (i : Invoice) (w : Till FakePsp) (s : InvoiceStatus)
      → Store.lookup id w.invoices ≡ some i
      → i.status ≡ s
      → Answers id w (pay_by_status (fake fresh) id payer now meanwhile s i w)
  unfolding pay_by_status
  pay_by_status-Answers i w paid there at = record {
    runs = here;
    success_paid = λ h. (i, there, at);
    conflict_lost = λ h. absurd (ground arith);
  }
  pay_by_status-Answers i w expired there at = after_steps (fair refunding w) (
      give_back-Answers (meanwhile refunding w)
        (IsLost-stays id (fair refunding w) (i, there, ap is_lost at)))
  pay_by_status-Answers i w voided there at = after_steps (fair refunding w) (
      give_back-Answers (meanwhile refunding w)
        (IsLost-stays id (fair refunding w) (i, there, ap is_lost at)))
  pay_by_status-Answers i w pending there at =
      after_steps (fair charging w) (charge_first-Answers i (meanwhile charging w))
  pay_by_status-Answers i w unset there at = record {
    runs = here;
    success_paid = λ h. absurd (ground arith);
    conflict_lost = λ h. absurd (ground arith);
  }

  pub pay_invoice-Answers :
      (w : Till FakePsp) → Answers id w (pay_invoice (fake fresh) id payer now meanwhile w)
  unfolding pay_invoice
  pay_invoice-Answers w =
      let a = pay_invoice (fake fresh) id payer now meanwhile w in
      elim (Result-cases (Repository.get id payer w.invoices)) [
        | inl (i, found) ↦
            let e : a ≡ pay_by_status (fake fresh) id payer now meanwhile i.status i w =
              ground (arith, found) in
            subst (Answers id w) (sym e)
              (pay_by_status-Answers i w i.status (get-lookup id payer w.invoices found) refl)
        | inr (inl (x, failed)) ↦
            let e : a ≡ (map_not_found x, w) = ground (arith, failed) in
            let (failing, other) = map_not_found_other x in
            subst (Answers id w) (sym e) (silent here failing other)
        | inr (inr panics) ↦
            let e : a ≡ (panic, w) = ground (arith, panics) in
            subst (Answers id w) (sym e) (silent here (λ h. ground arith) λ h. ground arith)
      ]

  -- Where the other handlers that run between the calls of PayInvoice make calls of the billing
  -- context only, and the ledger is balanced before: if PayInvoice answers with success, then in
  -- the end the invoice is paid, the provider holds a charge for it with the reference that the
  -- invoice carries, and that charge is not refunded.
  pub pay_success :
      (w : Till FakePsp)
      → IsBalanced w
      → (pay_invoice (fake fresh) id payer now meanwhile w).0 ≡ ok tt
      → (i : Invoice) × (Store.lookup id
            (pay_invoice (fake fresh) id payer now meanwhile w).1.invoices
          ≡ some i)
        × (i.status ≡ paid)
        × (Store.lookup id (pay_invoice (fake fresh) id payer now meanwhile w).1.psp.charges
            ≡ some i.psp_ref)
        × (is_set id (pay_invoice (fake fresh) id payer now meanwhile w).1.psp.refunded ≡ false)
  pay_success w b h =
      let v = (pay_invoice (fake fresh) id payer now meanwhile w).1 in
      let answers = pay_invoice-Answers w in
      let (i, there, settled) = answers.success_paid h in
      let after : IsBalanced v = Steps-IsBalanced answers.runs b in
      (
        i,
        there,
        settled,
        after.paid_charged id i there settled,
        unrefunded v after id i there settled,
      )

  -- Where the other handlers that run between the calls of PayInvoice make calls of the billing
  -- context only: if PayInvoice answers that the invoice is no longer payable, then in the end the
  -- invoice is expired or voided, and the provider has no charge for it or has refunded it.
  pub pay_conflict :
      (w : Till FakePsp)
      → (pay_invoice (fake fresh) id payer now meanwhile w).0 ≡ no_longer_payable
      → IsLost id (pay_invoice (fake fresh) id payer now meanwhile w).1
        × ((Store.lookup id (pay_invoice (fake fresh) id payer now meanwhile w).1.psp.charges
              ≡ none)
            ⊎ (is_set id (pay_invoice (fake fresh) id payer now meanwhile w).1.psp.refunded ≡ true))
  pay_conflict w = (pay_invoice-Answers w).conflict_lost
