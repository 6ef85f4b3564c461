-- ===== src/Billing/Retry.antt =====
-- The payment of a pending invoice by its debtor, with nobody else about
-- (internal/billing/app/command/pay_invoice.go and internal/billing/adapters/psp_fake.go).
use molot.Base.{
  ◌≡◌, ◌⊎◌, inl, inr, refl, sym, ap, ◌∙◌, arith, true, false, none, some, ok, err, Bool-cases, ◌++◌,
  Result-cases,
}
use molot.Slug.{slug, new_unavailable_error}
use molot.Store
use molot.Text
use molot.Text.{Text, text}
use molot.Time.{Time}
use molot.Billing.Values.{InvoiceId, PaymentReference, pending, paid, new_payment_reference}
use molot.Billing.Invoice.{
  Invoice, mark_paid, pay_status, can_debtor_access_invoice, pull_domain_events,
}
use molot.Table.{store_updated}
use molot.Billing.Repository
use molot.Billing.Repository.{drained}
use molot.Billing.Psp
use molot.Billing.Psp.{FakePsp, PspMode, success, decline, flaky, is_set, fake, accept, charge_new}
use molot.Billing.Pay.{
  Till, Moment, pay_invoice, pay_by_status, charge_first, charge_refused, commit_payment,
  settle_race,
}

-- No other handler runs meanwhile.
abbrev pub alone : Moment → Till FakePsp → Till FakePsp
alone k w = w

-- A provider that takes the next charge for the key.
abbrev pub WillAccept : InvoiceId → FakePsp → Type 0
WillAccept id p = (p.mode ≡ success) ⊎ ((p.mode ≡ flaky) × (is_set id p.failed_once ≡ true))

accepts_now :
    (id : InvoiceId) (w : Till FakePsp)
    → (w.psp.mode ≡ success) ⊎ (w.psp.mode ≡ flaky)
    → WillAccept id w.psp ⊎ ((w.psp.mode ≡ flaky) × (is_set id w.psp.failed_once ≡ false))
accepts_now id w (inl m) = inl (inl m)
accepts_now id w (inr m) = elim (Bool-cases (is_set id w.psp.failed_once)) [
  | inl failed ↦ inl (inr (m, failed))
  | inr first ↦ inr (m, first)
]

-- The debtor reads an invoice that is there.
got :
    (id : InvoiceId) (i : Invoice) (w : Till FakePsp)
    → Store.lookup id w.invoices ≡ some i
    → Repository.get id i.debtor w.invoices ≡ ok i
unfolding Repository.get can_debtor_access_invoice
got id i w there = ground (arith, there)

module _ (id : InvoiceId) (now : Time) (i : Invoice) (w : Till FakePsp)
    (there : Store.lookup id w.invoices ≡ some i) (open_invoice : i.status ≡ pending)
    (new_key : Store.lookup id w.psp.charges ≡ none) where
  charge_accepted :
      (fresh : Text)
      → WillAccept id w.psp
      → Psp.charge fresh id w.psp ≡ (
        ok (text "psp-" ++ fresh),
        record w.psp { charges = Store.insert id (text "psp-" ++ fresh) w.psp.charges },
      )
  unfolding Psp.charge charge_new accept new_payment_reference
  charge_accepted fresh (inl m) = ground (arith, new_key, m)
  charge_accepted fresh (inr (m, failed)) = ground (arith, new_key, m, failed)

  marks :
      (ref : PaymentReference)
      → Text.is_empty ref ≡ false
      → (j : Invoice) × (mark_paid i ref now ≡ ok j) × (j.status ≡ paid) × (j.debtor ≡ i.debtor)
  unfolding mark_paid pay_status
  marks ref set = elim (Result-cases (mark_paid i ref now)) [
    | inl (j, made) ↦ (j, made, ground arith, ground arith)
    | inr failed ↦ absurd (ground arith)
  ]

  committed :
      (ref : PaymentReference)
      → Text.is_empty ref ≡ false
      → (j : Invoice) × (Repository.update id i.debtor (λ x. mark_paid x ref now) w.invoices
          ≡ (ok tt, Store.insert id j w.invoices))
        × (j.status ≡ paid)
        × (j.debtor ≡ i.debtor)
  unfolding Repository.update can_debtor_access_invoice store_updated drained
  committed ref set =
      let (j, made, settled, own) = marks ref set in
      (pull_domain_events j, ground (arith, there, made), settled, own)

  -- The payment succeeds where the provider takes the charge.
  pay_accepted :
      (fresh : Text)
      → WillAccept id w.psp
      → (j : Invoice) × (v : Till FakePsp) × (pay_invoice (fake fresh) id i.debtor now alone w
          ≡ (ok tt, v))
        × (Store.lookup id v.invoices ≡ some j)
        × (j.status ≡ paid)
        × (j.debtor ≡ i.debtor)
  unfolding pay_invoice pay_by_status charge_first commit_payment settle_race
  pay_accepted fresh ready =
      let ref : PaymentReference = text "psp-" ++ fresh in
      let (j, stored, settled, own) = committed ref refl in
      let v : Till FakePsp = record {
        invoices = Store.insert id j w.invoices;
        psp = record w.psp { charges = Store.insert id ref w.psp.charges };
      } in
      (
        j,
        v,
        ground (arith, got id i w there, charge_accepted fresh ready, stored, open_invoice),
        Store.lookup-insert_self id j w.invoices,
        settled,
        own,
      )

  -- The first charge of a flaky provider.
  pay_flaky :
      (fresh : Text)
      → w.psp.mode ≡ flaky
      → is_set id w.psp.failed_once ≡ false
      → pay_invoice (fake fresh) id i.debtor now alone w ≡ (
        err (slug (new_unavailable_error "psp-unavailable")),
        record w { psp = record w.psp { failed_once = Store.insert id true w.psp.failed_once } },
      )
  unfolding pay_invoice pay_by_status charge_first Psp.charge charge_new charge_refused
  pay_flaky fresh m first = ground (arith, got id i w there, new_key, m, first, open_invoice)

-- The payment of a paid invoice.
pay_paid :
    (fresh : Text) (id : InvoiceId) (now : Time) (j : Invoice) (v : Till FakePsp)
    → Store.lookup id v.invoices ≡ some j
    → j.status ≡ paid
    → pay_invoice (fake fresh) id j.debtor now alone v ≡ (ok tt, v)
unfolding pay_invoice pay_by_status
pay_paid fresh id now j v there settled = ground (arith, got id j v there, settled)

-- A pending invoice that the provider has no charge for is paid by its debtor within two tries,
-- where no other handler runs meanwhile and the provider is in the mode success or flaky: the
-- second try succeeds and leaves the invoice paid.
pub paid_within_two :
    (id : InvoiceId) (first_ref second_ref : Text) (now later : Time) (i : Invoice)
    (w : Till FakePsp)
    → Store.lookup id w.invoices ≡ some i
    → i.status ≡ pending
    → Store.lookup id w.psp.charges ≡ none
    → (w.psp.mode ≡ success) ⊎ (w.psp.mode ≡ flaky)
    → (j : Invoice) × (v : Till FakePsp) × (pay_invoice
          (fake second_ref)
          id
          i.debtor
          later
          alone
          (pay_invoice (fake first_ref) id i.debtor now alone w).1
        ≡ (ok tt, v))
      × (Store.lookup id v.invoices ≡ some j)
      × (j.status ≡ paid)
paid_within_two id first_ref second_ref now later i w there open_invoice new_key mode =
    elim (accepts_now id w mode) [
      | inl ready ↦
          let (j, v, pays, found, settled, own) =
            pay_accepted id now i w there open_invoice new_key first_ref ready in
          let again : pay_invoice (fake second_ref) id i.debtor later alone v ≡ (ok tt, v) =
            ap (λ d. pay_invoice (fake second_ref) id d later alone v) (sym own)
            ∙ pay_paid second_ref id later j v found settled in
          (
            j,
            v,
            ap (λ a. pay_invoice (fake second_ref) id i.debtor later alone a.1) pays ∙ again,
            found,
            settled,
          )
      | inr (m, first) ↦
          let u : Till FakePsp = record w {
            psp = record w.psp { failed_once = Store.insert id true w.psp.failed_once };
          } in
          let ready : WillAccept id u.psp =
            inr (m, ground (arith, Store.lookup-insert_self id true w.psp.failed_once)) in
          let (j, v, pays, found, settled, own) =
            pay_accepted id later i u there open_invoice new_key second_ref ready in
          (
            j,
            v,
            ap (λ a. pay_invoice (fake second_ref) id i.debtor later alone a.1)
                  (pay_flaky id now i w there open_invoice new_key first_ref m first)
                ∙ pays,
            found,
            settled,
          )
    ]
