-- ===== src/Billing/Idempotence.antt =====
-- The saga's commands, repeated (internal/billing/app/command/issue_invoice.go and void_invoice.go).
use molot.Base.{
  ◌≡◌, ◌≢◌, refl, ap, ◌∙◌, sym, subst, inl, inr, true, false, arith, none, some, ok, err,
  Result-cases, Option-cases, Bool-cases, ◌&&◌, ◌==◌,
}
use molot.Store
use molot.Table
use molot.Time.{Time}
use molot.Billing.Errors.{Error, not_found, invoice_already_voided, invoice_already_issued}
use molot.Billing.Money.{Money, CommissionPolicy}
use molot.Billing.Values.{InvoiceId, AuctionId, BidderId, Attempt, PaymentTerm}
use molot.Billing.Invoice
use molot.Billing.Invoice.{Invoice, new_invoice, issued, pull_domain_events, void_status}
use molot.Billing.Repository
use molot.Billing.Repository.{Invoices, drained, same_attempt}
use molot.Billing.Commands
use molot.Billing.Commands.{map_issue_error, map_void_error}

drained_err : (t : Invoice) (e : Error) → drained t ≡ err e → map_void_error e ≢ ok tt
unfolding drained
drained_err t e h = ground arith

void_stored :
    (later : Time) (s t u : Invoice) (now : Time)
    → Invoice.void s now ≡ ok t
    → drained t ≡ ok u
    → Invoice.void u later ≡ err invoice_already_voided
unfolding Invoice.void drained void_status
void_stored later s t u now h k = ground arith

void_refused :
    (later now : Time) (s : Invoice) (e : Error)
    → Invoice.void s now ≡ err e
    → Invoice.void s later ≡ err e
unfolding Invoice.void void_status
void_refused later now s e h = ground arith

pub void_again :
    (id : InvoiceId) (now later : Time) (m : Invoices) {m' : Invoices}
    → Commands.void_invoice id now m ≡ (ok tt, m')
    → Commands.void_invoice id later m' ≡ (ok tt, m')
unfolding Commands.void_invoice Repository.update_as_system map_void_error
void_again id now later m h =
    Table.update_again not_found drained map_void_error invoice_already_voided id
      (λ a. Invoice.void a now) (λ a. Invoice.void a later) m refl (λ p. ground arith) drained_err
      (λ s t u. void_stored later s t u now) (λ s e p k. void_refused later now s e p) h

-- What an invoice has, whenever it is issued.
new_fields :
    (id : InvoiceId) (auction_id : AuctionId) (debtor : BidderId) (hammer : Money)
    (policy : CommissionPolicy) (term : PaymentTerm) (attempt : Attempt) (now : Time) {i : Invoice}
    → new_invoice id auction_id debtor hammer policy term attempt now ≡ ok i
    → (i.id ≡ id) × (i.auction_id ≡ auction_id) × (i.attempt ≡ attempt)
unfolding new_invoice issued
new_fields id auction_id debtor hammer policy term attempt now h = ground arith

new_later :
    (id : InvoiceId) (auction_id : AuctionId) (debtor : BidderId) (hammer : Money)
    (policy : CommissionPolicy) (term : PaymentTerm) (attempt : Attempt) (now later : Time)
    {i : Invoice}
    → later ≢ 0
    → new_invoice id auction_id debtor hammer policy term attempt now ≡ ok i
    → (j : Invoice) × (new_invoice id auction_id debtor hammer policy term attempt later ≡ ok j)
unfolding new_invoice
new_later id auction_id debtor hammer policy term attempt now later z h =
    elim (Result-cases (new_invoice id auction_id debtor hammer policy term attempt later)) [
      | inl made ↦ made
      | inr failed ↦ absurd (ground arith)
    ]

-- An invoice whose identity or attempt is in the table is not added.
add_there :
    (i : Invoice) (m : Invoices) {t : Invoice}
    → Store.lookup i.id m ≡ some t
    → Repository.add i m ≡ (err invoice_already_issued, m)
unfolding Repository.add
add_there i m h = ground (arith, h)

add_taken :
    (i : Invoice) (m : Invoices)
    → Store.lookup i.id m ≡ none
    → Store.any_value (same_attempt i) m ≡ true
    → Repository.add i m ≡ (err invoice_already_issued, m)
unfolding Repository.add
add_taken i m h r = ground (arith, h, r)

add_new :
    (i : Invoice) (m : Invoices)
    → Store.lookup i.id m ≡ none
    → Store.any_value (same_attempt i) m ≡ false
    → Repository.add i m ≡ (ok tt, Store.insert i.id (pull_domain_events i) m)
unfolding Repository.add
add_new i m h r = ground (arith, h, r)

-- An invoice that is in the table, or another of its attempt, is found again by an invoice of the
-- same identity and attempt.
module _ (i j : Invoice) (same_id : j.id ≡ i.id) (same_auction : j.auction_id ≡ i.auction_id)
    (same_number : j.attempt ≡ i.attempt) where
  taken_by :
      (m : Invoices)
      → Store.any_value (same_attempt i) m ≡ true
      → Store.any_value (same_attempt j) m ≡ true
  unfolding same_attempt
  taken_by m h =
      ap (λ k. Store.any_value (λ old. (old.auction_id == k) && (old.attempt == j.attempt)) m)
        same_auction
      ∙ ap (λ k. Store.any_value (λ old. (old.auction_id == i.auction_id) && (old.attempt == k)) m)
          same_number
      ∙ h

  add_again :
      (m : Invoices)
      → (Repository.add j (Repository.add i m).1)
        ≡ (err invoice_already_issued, (Repository.add i m).1)
  add_again m = elim (Option-cases (Store.lookup i.id m)) [
    | inr (t, there) ↦
        subst (λ x. Repository.add j x ≡ (err invoice_already_issued, x))
          (sym (ap (λ r. r.1) (add_there i m there)))
          (add_there j m {t = t} (ap (λ k. Store.lookup k m) same_id ∙ there))
    | inl absent ↦ elim (Bool-cases (Store.any_value (same_attempt i) m)) [
      | inl taken ↦
          subst (λ x. Repository.add j x ≡ (err invoice_already_issued, x))
            (sym (ap (λ r. r.1) (add_taken i m absent taken)))
            (add_taken j m (ap (λ k. Store.lookup k m) same_id ∙ absent) (taken_by m taken))
      | inr free ↦
          let placed : Invoices = Store.insert i.id (pull_domain_events i) m in
          subst (λ x. Repository.add j x ≡ (err invoice_already_issued, x))
            (sym (ap (λ r. r.1) (add_new i m absent free)))
            (add_there j placed {t = pull_domain_events i} (
              ap (λ k. Store.lookup k placed) same_id
              ∙ Store.lookup-insert_self i.id (pull_domain_events i) m))
    ]
  ]

pub issue_again :
    (policy : CommissionPolicy) (term : PaymentTerm) (id : InvoiceId) (auction_id : AuctionId)
    (debtor : BidderId) (hammer : Money) (attempt : Attempt) (now later : Time) (m : Invoices)
    {m' : Invoices}
    → later ≢ 0
    → Commands.issue_invoice policy term id auction_id debtor hammer attempt now m ≡ (ok tt, m')
    → Commands.issue_invoice policy term id auction_id debtor hammer attempt later m' ≡ (ok tt, m')
unfolding Commands.issue_invoice map_issue_error
issue_again policy term id auction_id debtor hammer attempt now later m {m'} z h =
    elim (Result-cases (new_invoice id auction_id debtor hammer policy term attempt now)) [
      | inl (i, made) ↦
          let (j, made') =
            new_later id auction_id debtor hammer policy term attempt now later z made in
          let (id_i, of_i, n_i) =
            new_fields id auction_id debtor hammer policy term attempt now made in
          let (id_j, of_j, n_j) =
            new_fields id auction_id debtor hammer policy term attempt later made' in
          let left : m' ≡ (Repository.add i m).1 = ground (arith, made) in
          let again = add_again i j (id_j ∙ sym id_i) (of_j ∙ sym of_i) (n_j ∙ sym n_i) m in
          ground (arith, made', left, again)
      | inr failed ↦ absurd (ground (arith, failed))
    ]
