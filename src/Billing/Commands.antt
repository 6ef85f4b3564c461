-- ===== src/Billing/Commands.antt =====
-- internal/billing/app/command: the handlers that change one invoice. Each takes the time that its
-- clock shows, and maps the errors of the domain to slugs; `ok` is a nil error.
use molot.Base.{Result, ok, err, panic}
use molot.Slug.{
  Fault, domain, slug, new_incorrect_input_error, new_not_found_error, new_conflict_error,
}
use molot.Table.{answer}
use molot.Time.{Time}
use molot.Billing.Errors.{
  Error, invoice_already_paid, invoice_already_expired, invoice_voided, invoice_already_voided,
  invoice_not_due, invoice_already_issued, not_found,
}
use molot.Billing.Money.{Money, CommissionPolicy}
use molot.Billing.Values.{InvoiceId, AuctionId, BidderId, Attempt, PaymentTerm}
use molot.Billing.Invoice
use molot.Billing.Invoice.{new_invoice}
use molot.Billing.Repository
use molot.Billing.Repository.{Invoices}

-- A handler: the error or nil that it returns, and the table that it leaves.
abbrev pub Handler : Type 0
Handler = Invoices → Result (Fault Error) (Unit {0}) × Invoices

-- What `IssueInvoiceHandler.Handle` makes of an error of `Add`.
unfoldable pub map_issue_error : Error → Result (Fault Error) (Unit {0})
map_issue_error invoice_already_issued = ok tt
map_issue_error e = err (domain e)

unfoldable pub issue_invoice :
    CommissionPolicy
    → PaymentTerm
    → InvoiceId
    → AuctionId
    → BidderId
    → Money
    → Attempt
    → Time
    → Handler
unfolding map_issue_error Repository.add
issue_invoice policy term id auction_id debtor hammer attempt now m =
    elim (new_invoice id auction_id debtor hammer policy term attempt now) [
      | ok i ↦ answer map_issue_error (Repository.add i m)
      | err e ↦ (err (slug (new_incorrect_input_error "invalid-invoice")), m)
      | panic ↦ (panic, m)
    ]

-- The last lines of the handlers: anything but a missing invoice passes through.
unfoldable pub map_not_found : Error → Result (Fault Error) (Unit {0})
map_not_found (not_found id) = err (slug (new_not_found_error "invoice-not-found"))
map_not_found e = err (domain e)

-- The `switch` of `ExpireInvoiceHandler.Handle`.
unfoldable pub map_expire_error : Error → Result (Fault Error) (Unit {0})
unfolding map_not_found
map_expire_error invoice_already_paid = ok tt
map_expire_error invoice_already_expired = ok tt
map_expire_error invoice_voided = ok tt
map_expire_error invoice_not_due = err (slug (new_conflict_error "invoice-not-due"))
map_expire_error e = map_not_found e

unfoldable pub expire_invoice : InvoiceId → Time → Handler
unfolding map_expire_error
expire_invoice id now m =
    answer map_expire_error (Repository.update_as_system id (λ i. Invoice.expire i now) m)

-- The `switch` of `VoidInvoiceHandler.Handle`.
unfoldable pub map_void_error : Error → Result (Fault Error) (Unit {0})
unfolding map_not_found
map_void_error invoice_already_voided = ok tt
map_void_error invoice_already_expired = ok tt
map_void_error invoice_already_paid = err (slug (new_conflict_error "invoice-already-paid"))
map_void_error e = map_not_found e

unfoldable pub void_invoice : InvoiceId → Time → Handler
unfolding map_void_error
void_invoice id now m =
    answer map_void_error (Repository.update_as_system id (λ i. Invoice.void i now) m)
