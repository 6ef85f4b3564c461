-- ===== src/Billing/Race.antt =====
-- The commit of a payment against the expiry and the voiding of its invoice
-- (internal/billing/domain/invoice/invoice.go and internal/billing/adapters/invoice_inmem_repository.go).
use molot.Base.{
  ◌≡◌, ◌⊎◌, inl, inr, ap, ◌∙◌, arith, true, none, some, Result, ok, err, panic, Option-cases,
  Result-cases,
}
use molot.Store
use molot.Store.{Store}
use molot.Time.{Time}
use molot.Billing.Errors.{Error, invoice_already_paid, invoice_expired, invoice_voided, not_found}
use molot.Billing.Values.{InvoiceId, BidderId, PaymentReference, paid}
use molot.Billing.Invoice.{
  Invoice, mark_paid, pay_status, pull_domain_events, can_debtor_access_invoice,
}
use molot.Billing.Repository
use molot.Billing.Repository.{Invoices, drained}
use molot.Table.{store_updated}
use molot.Billing.Psp
use molot.Billing.Psp.{FakePsp, is_set, fake}
use molot.Billing.Payments.{is_lost}

-- A refund does not fail, and leaves no charge that is kept.
pub refund_ok :
    (id : InvoiceId) (p : FakePsp)
    → ((Psp.refund id p).0 ≡ ok tt)
      × ((Store.lookup id (Psp.refund id p).1.charges ≡ none)
          ⊎ (is_set id (Psp.refund id p).1.refunded ≡ true))
unfolding Psp.refund
refund_ok id p = elim (Option-cases (Store.lookup id p.charges)) [
  | inl absent ↦ (ground (arith, absent), inl (ground (arith, absent)))
  | inr (ref, there) ↦ (
    ground (arith, there),
    inr (ground (arith, there, Store.lookup-insert_self id true p.refunded)),
  )
]

-- How the commit of a payment ends.
pub record Race (id : InvoiceId) (m : Invoices) (a : Result Error (Unit {0}) × Invoices)
    : Type 0 where
  pub won : a.0 ≡ ok tt → (i : Invoice) × (Store.lookup id a.1 ≡ some i) × (i.status ≡ paid)
  pub won_before :
      a.0 ≡ err invoice_already_paid
      → (i : Invoice) × (Store.lookup id a.1 ≡ some i) × (i.status ≡ paid)
  pub lost_race :
      (a.0 ≡ err invoice_expired) ⊎ (a.0 ≡ err invoice_voided)
      → (i : Invoice) × (Store.lookup id a.1 ≡ some i) × (is_lost i.status ≡ true)

marked :
    (i : Invoice) (ref : PaymentReference) (now : Time)
    → ((j : Invoice) → mark_paid i ref now ≡ ok j → j.status ≡ paid)
      × (mark_paid i ref now ≡ err invoice_already_paid → i.status ≡ paid)
      × ((mark_paid i ref now ≡ err invoice_expired) ⊎ (mark_paid i ref now ≡ err invoice_voided)
          → is_lost i.status ≡ true)
unfolding mark_paid pay_status
marked i ref now = (λ j h. ground arith, λ h. ground arith, λ h. ground arith)

-- An update that stored nothing and did not find an invoice.
other_end :
    (id : InvoiceId) (m : Invoices) (a : Result Error (Unit {0}) × Invoices)
    → (a.0 ≡ err (not_found id)) ⊎ (a.0 ≡ panic)
    → Race id m a
other_end id m a h = record {
  won = λ e. absurd (ground arith);
  won_before = λ e. absurd (ground arith);
  lost_race = λ e. absurd (ground arith);
}

pub update-Race :
    (id : InvoiceId) (payer : BidderId) (ref : PaymentReference) (now : Time) (m : Invoices)
    → Race id m (Repository.update id payer (λ i. mark_paid i ref now) m)
unfolding Repository.update store_updated drained
update-Race id payer ref now m =
    let a = Repository.update id payer (λ i. mark_paid i ref now) m in
    elim (Option-cases (Store.lookup id m)) [
      | inl absent ↦ other_end id m a (inl (ground (arith, absent)))
      | inr (i, there) ↦ elim (Result-cases (can_debtor_access_invoice payer i)) [
        | inl (u, own) ↦
            let (pays, paid_before, gone) = marked i ref now in
            elim (Result-cases (mark_paid i ref now)) [
              | inl (j, made) ↦
                  let e : a ≡ (ok tt, Store.insert id (pull_domain_events j) m) =
                    ground (arith, there, own, made) in
                  record {
                    won = λ h. (
                      pull_domain_events j,
                      ap (λ x. Store.lookup id x.1) e
                          ∙ Store.lookup-insert_self id (pull_domain_events j) m,
                      pays j made,
                    );
                    won_before = λ h. absurd (ground (arith, e));
                    lost_race = λ h. absurd (ground (arith, e));
                  }
              | inr (inl (x, failed)) ↦
                  let e : a ≡ (err x, m) = ground (arith, there, own, failed) in
                  let at : Store.lookup id a.1 ≡ some i = ap (λ x. Store.lookup id x.1) e ∙ there in
                  record {
                    won = λ h. absurd (ground (arith, e));
                    won_before = λ h. (i, at, paid_before (ground (arith, e)));
                    lost_race = λ h. (i, at, gone (ground (arith, e)));
                  }
              | inr (inr panics) ↦ other_end id m a (inr (ground (arith, there, own, panics)))
            ]
        | inr foreign ↦ other_end id m a (ground (arith, there, foreign))
      ]
    ]

pub get-lookup :
    (id : InvoiceId) (payer : BidderId) (m : Invoices) {i : Invoice}
    → Repository.get id payer m ≡ ok i
    → Store.lookup id m ≡ some i
unfolding Repository.get
get-lookup id payer m h = elim (Option-cases (Store.lookup id m)) [
  | inl absent ↦ absurd (ground (arith, absent))
  | inr (j, there) ↦ elim (Result-cases (can_debtor_access_invoice payer j)) [
    | inl (u, own) ↦ ground (arith, there, own)
    | inr foreign ↦ absurd (ground (arith, there, foreign))
  ]
]
