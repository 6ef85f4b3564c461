-- ===== src/Billing/Http.antt =====
-- internal/billing/ports/http.go, and the queries behind it (internal/billing/app/query/invoice.go).
-- The read model is a parameter: `by_id` answers for the debtor's own invoices, `pending_of` for all
-- that wait.
use molot.Base.{
  Bool, false, not, Option, none, some, List, Result, ok, err, panic, ◌>>=◌, ◌>>◌, reject_if, ◌==◌,
}
use molot.Slug.{
  Fault, domain, slug, new_forbidden_error, new_not_found_error, new_incorrect_input_error,
}
use molot.Text
use molot.Text.{Text, text}
use molot.Time.{Time}
use molot.Uuid.{Uuid}
use molot.Common.Auth.{User}
use molot.Common.Http.{caller, argument, identity, given}
use molot.Billing.Errors.{Error, not_found}
use molot.Billing.Values.{InvoiceId, BidderId, new_invoice_id, new_bidder_id}
use molot.Billing.Psp.{PaymentGateway}
use molot.Billing.Pay.{Till, Moment, Answer, pay_invoice}

-- `actorFromCtx`
unfoldable pub actor_from_ctx : Option User → Result (Fault Error) BidderId
actor_from_ctx user = do u ← caller user; identity (new_bidder_id u.id) "invalid-user-id"

-- What `InvoiceByIDHandler.Handle` makes of an error of the read model.
abbrev pub map_query_error : Error → Fault Error
map_query_error (not_found id) = slug (new_not_found_error "invoice-not-found")
map_query_error e = domain e

unfoldable pub invoice_by_id : {V : Type 0} → Result Error V → Result (Fault Error) V
invoice_by_id (ok view) = ok view
invoice_by_id (err e) = err (map_query_error e)
invoice_by_id panic = panic

-- The arguments of `GetInvoice` and `PayInvoice`.
unfoldable pub own_invoice : Option User → Uuid → Result (Fault Error) (BidderId × InvoiceId)
own_invoice user id = do
  actor ← actor_from_ctx user
  invoice ← argument (new_invoice_id id) "invalid-invoice-id"
  ok (actor, invoice)

module _ {V : Type 0} (by_id : InvoiceId → BidderId → Result Error V)
    (pending_of : BidderId → Result Error (List V)) where
  unfoldable pub get_invoice : Option User → Uuid → Result (Fault Error) V
  get_invoice user id = do own ← own_invoice user id; invoice_by_id (by_id own.1 own.0)

  -- `status` is the filter of the query.
  abbrev unsupported : Option Text → Bool
  unsupported none = false
  unsupported (some s) = not (Text.eq s (text "pending"))

  unfoldable pub get_bidder_pending_invoices :
      Option User → Uuid → Option Text → Result (Fault Error) (List V)
  get_bidder_pending_invoices user bidder_id status = do
    u ← caller user
    reject_if (not (u.id == bidder_id)) (slug (new_forbidden_error "not-own-invoices"))
    reject_if (unsupported status) (slug (new_incorrect_input_error "unsupported-status-filter"))
    bidder ← argument (new_bidder_id bidder_id) "invalid-bidder-id"
    elim (pending_of bidder) [ ok views ↦ ok views | err e ↦ err (domain e) | panic ↦ panic ]

-- `PayInvoice`
unfoldable pub pay_invoice_request :
    {P : Type 0}
    → PaymentGateway P
    → Option User
    → Uuid
    → Time
    → (Moment → Till P → Till P)
    → Till P
    → Answer P
pay_invoice_request g user id now meanwhile =
    given (own_invoice user id) λ own. pay_invoice g own.1 own.0 now meanwhile
