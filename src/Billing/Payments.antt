-- ===== src/Billing/Payments.antt =====
-- What the handlers of the billing context do to the table of invoices and to the provider, one call
-- at a time and in any order (internal/billing/app/command).
use molot.Base.{
  ◌≡◌, subst, ◌⊎◌, inl, inr, refl, sym, arith, Bool, true, false, none, some, Result, ok,
  Option-cases, Result-cases, Bool-cases,
}
use molot.Store
use molot.Store.{Store}
use molot.Table
use molot.Text.{Text}
use molot.Time.{Time}
use molot.Billing.Errors.{Error, not_found}
use molot.Billing.Money.{Money, CommissionPolicy}
use molot.Billing.Values.{
  InvoiceId, AuctionId, BidderId, Attempt, PaymentTerm, PaymentReference, InvoiceStatus, pending,
  paid, expired, voided,
}
use molot.Billing.Invoice
use molot.Billing.Invoice.{
  Invoice, new_invoice, issued, mark_paid, pay_status, expire_status, void_status,
  pull_domain_events, can_debtor_access_invoice,
}
use molot.Billing.Repository
use molot.Billing.Repository.{Invoices, drained, same_attempt}
use molot.Billing.Commands
use molot.Billing.Psp
use molot.Billing.Psp.{FakePsp, is_set}
use molot.Billing.Pay.{Till}

-- The statuses of an invoice that can no longer be paid.
abbrev pub is_lost : InvoiceStatus → Bool
is_lost expired = true
is_lost voided = true
is_lost _ = false

-- One call of a handler. A payment is committed with a reference that the provider gave out, and a
-- refund is asked for an invoice that was found expired or voided.
pub data Step (w : Till FakePsp) : Till FakePsp → Type 0 where
  issues :
      (policy : CommissionPolicy) (term : PaymentTerm) (id : InvoiceId) (auction_id : AuctionId)
      (debtor : BidderId) (hammer : Money) (attempt : Attempt) (now : Time)
      → Step w (record w {
        invoices =
            (Commands.issue_invoice policy term id auction_id debtor hammer attempt now
              w.invoices).1;
      })
  expires :
      (id : InvoiceId) (now : Time)
      → Step w (record w { invoices = (Commands.expire_invoice id now w.invoices).1 })
  voids :
      (id : InvoiceId) (now : Time)
      → Step w (record w { invoices = (Commands.void_invoice id now w.invoices).1 })
  charges :
      (fresh : Text) (id : InvoiceId) → Step w (record w { psp = (Psp.charge fresh id w.psp).1 })
  commits :
      (id : InvoiceId) (payer : BidderId) (ref : PaymentReference) (now : Time)
      → Store.lookup id w.psp.charges ≡ some ref
      → Step w (record w {
        invoices = (Repository.update id payer (λ i. mark_paid i ref now) w.invoices).1;
      })
  refunds :
      (id : InvoiceId) (i : Invoice)
      → Store.lookup id w.invoices ≡ some i
      → is_lost i.status ≡ true
      → Step w (record w { psp = (Psp.refund id w.psp).1 })

pub data Steps (w : Till FakePsp) : Till FakePsp → Type 0 where
  here : Steps w w
  onward : {v u : Till FakePsp} → Steps w v → Step v u → Steps w u

pub Steps-trans : {u v w : Till FakePsp} → Steps u v → Steps v w → Steps u w
Steps-trans p here = p
Steps-trans p (onward q s) = onward (Steps-trans p q) s

-- What a call does to the table of invoices: nothing, or it adds a pending invoice, or it moves a
-- pending one to a final status, to `paid` only with the reference of its charge.
pub data Change (charges : Store PaymentReference) (m m' : Invoices) : Type 0 where
  same : m' ≡ m → Change charges m m'
  added :
      (id : InvoiceId) (j : Invoice)
      → Store.lookup id m ≡ none
      → j.status ≡ pending
      → m' ≡ Store.insert id j m
      → Change charges m m'
  moved :
      (id : InvoiceId) (i j : Invoice)
      → Store.lookup id m ≡ some i
      → i.status ≡ pending
      → (is_lost j.status ≡ true) ⊎ ((j.status ≡ paid) × (Store.lookup id charges ≡ some j.psp_ref))
      → m' ≡ Store.insert id j m
      → Change charges m m'

module _ (c : Store PaymentReference) (id : InvoiceId) (m : Invoices) where
  -- An update function that only moves a pending invoice.
  abbrev Moves : (Invoice → Result Error Invoice) → Type 0
  Moves f =
      (i j : Invoice)
      → f i ≡ ok j
      → (i.status ≡ pending)
        × ((is_lost j.status ≡ true) ⊎ ((j.status ≡ paid) × (Store.lookup id c ≡ some j.psp_ref)))

  Change-stored :
      (f : Invoice → Result Error Invoice) (i : Invoice)
      → Moves f
      → Store.lookup id m ≡ some i
      → Change c m (Table.store_updated not_found drained id m (f i)).1
  unfolding Table.store_updated drained
  Change-stored f i moves there = elim (Result-cases (f i)) [
    | inl (j, made) ↦
        let (from, to) = moves i j made in
        moved id i (pull_domain_events j) there from to (ground (arith, made))
    | inr failed ↦ same (ground (arith, failed))
  ]

  Change-system :
      (f : Invoice → Result Error Invoice)
      → Moves f
      → Change c m (Repository.update_as_system id f m).1
  unfolding Repository.update_as_system Table.update
  Change-system f moves = elim (Option-cases (Store.lookup id m)) [
    | inl absent ↦ same (ground (arith, absent))
    | inr (i, there) ↦
        let e : (Repository.update_as_system id f m).1
            ≡ (Table.store_updated not_found drained id m (f i)).1 =
          ground (arith, there) in
        subst (Change c m) (sym e) (Change-stored f i moves there)
  ]

  Change-user :
      (payer : BidderId) (f : Invoice → Result Error Invoice)
      → Moves f
      → Change c m (Repository.update id payer f m).1
  unfolding Repository.update
  Change-user payer f moves = elim (Option-cases (Store.lookup id m)) [
    | inl absent ↦ same (ground (arith, absent))
    | inr (i, there) ↦ elim (Result-cases (can_debtor_access_invoice payer i)) [
      | inl (u, own) ↦
          let e : (Repository.update id payer f m).1
              ≡ (Table.store_updated not_found drained id m (f i)).1 =
            ground (arith, there, own) in
          subst (Change c m) (sym e) (Change-stored f i moves there)
      | inr foreign ↦ same (ground (arith, there, foreign))
    ]
  ]

  expire-Moves : (now : Time) → Moves (λ i. Invoice.expire i now)
  unfolding Invoice.expire expire_status
  expire-Moves now i j h = (ground arith, inl (ground arith))

  void-Moves : (now : Time) → Moves (λ i. Invoice.void i now)
  unfolding Invoice.void void_status
  void-Moves now i j h = (ground arith, inl (ground arith))

  pay-Moves :
      (ref : PaymentReference) (now : Time)
      → Store.lookup id c ≡ some ref
      → Moves (λ i. mark_paid i ref now)
  unfolding mark_paid pay_status
  pay-Moves ref now charged i j h = (ground arith, inr (ground arith, ground arith))

Change-issue :
    (c : Store PaymentReference) (policy : CommissionPolicy) (term : PaymentTerm) (id : InvoiceId)
    (auction_id : AuctionId) (debtor : BidderId) (hammer : Money) (attempt : Attempt) (now : Time)
    (m : Invoices)
    → Change c m (Commands.issue_invoice policy term id auction_id debtor hammer attempt now m).1
unfolding Commands.issue_invoice Repository.add new_invoice issued
Change-issue c policy term id auction_id debtor hammer attempt now m =
    elim (Result-cases (new_invoice id auction_id debtor hammer policy term attempt now)) [
      | inl (i, made) ↦
          let fresh : i.status ≡ pending = ground arith in
          elim (Option-cases (Store.lookup i.id m)) [
            | inl absent ↦ elim (Bool-cases (Store.any_value (same_attempt i) m)) [
              | inl taken ↦ same (ground (arith, made, absent, taken))
              | inr free ↦
                  added i.id (pull_domain_events i) absent fresh
                    (ground (arith, made, absent, free))
            ]
            | inr (t, there) ↦ same (ground (arith, made, there))
          ]
      | inr failed ↦ same (ground (arith, failed))
    ]

-- Every call but those of the provider changes the table so.
pub Step-Change : {w v : Till FakePsp} → Step w v → Change w.psp.charges w.invoices v.invoices
unfolding Commands.expire_invoice Commands.void_invoice
Step-Change {w} (issues policy term id auction_id debtor hammer attempt now) =
    Change-issue w.psp.charges policy term id auction_id debtor hammer attempt now w.invoices
Step-Change {w} (expires id now) =
    Change-system w.psp.charges id w.invoices (λ i. Invoice.expire i now)
      (expire-Moves w.psp.charges id w.invoices now)
Step-Change {w} (voids id now) =
    Change-system w.psp.charges id w.invoices (λ i. Invoice.void i now)
      (void-Moves w.psp.charges id w.invoices now)
Step-Change {w} (charges fresh id) = same refl
Step-Change {w} (commits id payer ref now charged) =
    Change-user w.psp.charges id w.invoices payer (λ i. mark_paid i ref now)
      (pay-Moves w.psp.charges id w.invoices ref now charged)
Step-Change {w} (refunds id i there lost) = same refl
