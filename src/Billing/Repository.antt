-- ===== src/Billing/Repository.antt =====
-- internal/billing/adapters/invoice_inmem_repository.go: the table of invoices. Its lock makes each
-- operation one step; an aggregate that is added is not a nil pointer.
use molot.Base.{
  ℕ, Bool, not, List, [], ◌∷◌, map, take, ◌&&◌, none, some, Result, ok, err, panic, if◌then◌else◌,
  ◌==◌,
}
use molot.Store
use molot.Store.{Store}
use molot.Table
use molot.Billing.Errors.{Error, not_found, invoice_already_issued}
use molot.Time
use molot.Time.{Time}
use molot.Billing.Values.{InvoiceId, BidderId, is_pending}
use molot.Billing.Invoice.{Invoice, pull_domain_events, can_debtor_access_invoice}

abbrev pub Invoices : Type 0
Invoices = Store Invoice

-- The test of the loop of `Add`.
unfoldable pub same_attempt : Invoice → Invoice → Bool
same_attempt i old = (old.auction_id == i.auction_id) && (old.attempt == i.attempt)

unfoldable pub add : Invoice → Invoices → Result Error (Unit {0}) × Invoices
unfolding same_attempt
add i m = elim (Store.lookup i.id m) [
  | some old ↦ (err invoice_already_issued, m)
  | none ↦
      if Store.any_value (same_attempt i) m
      then (err invoice_already_issued, m)
      else (ok tt, Store.insert i.id (pull_domain_events i) m)
]

-- A foreign invoice is a missing one.
unfoldable pub get : InvoiceId → BidderId → Invoices → Result Error Invoice
get id actor m = elim (Store.lookup id m) [
  | none ↦ err (not_found id)
  | some i ↦ elim (can_debtor_access_invoice actor i) [
    | ok u ↦ ok i
    | err e ↦ err (not_found id)
    | panic ↦ panic
  ]
]

-- What `update` does to an invoice before it is stored: it drains the events.
unfoldable pub drained : Invoice → Result Error Invoice
drained i = ok (pull_domain_events i)

-- `update` without an actor.
unfoldable pub update_as_system :
    InvoiceId → (Invoice → Result Error Invoice) → Invoices → Result Error (Unit {0}) × Invoices
unfolding Table.update drained
update_as_system id f m = Table.update not_found drained id f m

-- `update` with an actor.
unfoldable pub update :
    InvoiceId
    → BidderId
    → (Invoice → Result Error Invoice)
    → Invoices
    → Result Error (Unit {0}) × Invoices
unfolding Table.store_updated drained
update id actor f m = elim (Store.lookup id m) [
  | none ↦ (err (not_found id), m)
  | some i ↦ elim (can_debtor_access_invoice actor i) [
    | ok u ↦ Table.store_updated not_found drained id m (f i)
    | err e ↦ (err (not_found id), m)
    | panic ↦ (panic, m)
  ]
]

-- The test of the loop of `PendingDueBefore`.
abbrev pub is_due : Time → Invoice → Bool
is_due t i = is_pending i.status && not (Time.after i.due_at t)

-- The candidates that the loop collects, with their deadlines.
unfoldable pub due_at_before : Time → Invoices → List (InvoiceId × Time)
due_at_before t [] = []
due_at_before t ((id, i) ∷ m) =
    let rest = due_at_before t m in if is_due t i then (id, i.due_at) ∷ rest else rest

-- `PendingDueBefore`; `arrange` is the order in which the loop meets the candidates and `sort.Slice`
-- leaves them.
unfoldable pub pending_due_before :
    (List (InvoiceId × Time) → List (InvoiceId × Time)) → Time → ℕ → Invoices → List InvoiceId
unfolding due_at_before
pending_due_before arrange t limit m = map (λ c. c.0) (take limit (arrange (due_at_before t m)))
