-- ===== src/Billing/Views.antt =====
-- The views of invoices that their debtor gets: internal/billing/app/query/invoice.go,
-- `toInvoiceView` (internal/billing/adapters/invoice_pg_repository.go) and `toAPIInvoice`
-- (internal/billing/ports/http.go).
use molot.Base.{
  ℕ, ◌≡◌, refl, false, Option, none, some, List, [], ◌∷◌, map, Result, ok, ◌>>=◌, arith,
}
use molot.Slug.{Fault}
use molot.Text.{Text}
use molot.Time.{Time}
use molot.Uuid.{Uuid, UuidText, is_nil, must_parse, must_parse-to_string}
use molot.Common.Auth.{User, user_from_ctx}
use molot.Billing.Errors.{Error}
use molot.Billing.Values.{InvoiceId, BidderId, new_invoice_id, new_bidder_id}
use molot.Billing.Invoice.{Invoice}
use molot.Billing.Http.{
  actor_from_ctx, own_invoice, invoice_by_id, get_invoice, get_bidder_pending_invoices,
}
use molot.Billing.Row.{PgInvoice, to_pg_invoice, status_string}

pub record InvoiceView : Type 0 where
  pub invoice_id : Text
  pub auction_id : Text
  pub status : Text
  pub hammer_minor : ℕ
  pub commission_minor : ℕ
  pub total_minor : ℕ
  pub currency : Text
  pub due_at : Time
  pub attempt : ℕ

-- The body of the answer, of the schema `Invoice`.
pub record ApiInvoice : Type 0 where
  pub invoice_id : Uuid
  pub auction_id : Uuid
  pub status : Text
  pub hammer_minor : ℕ
  pub commission_minor : ℕ
  pub total_minor : ℕ
  pub currency : Text
  pub due_at : Time
  pub attempt : ℕ

-- What the debtor sees of an invoice.
abbrev pub bill_of : Invoice → ApiInvoice
bill_of i = record {
  invoice_id = i.id;
  auction_id = i.auction_id;
  status = status_string i.status;
  hammer_minor = i.hammer.amount;
  commission_minor = i.commission.amount;
  total_minor = i.total.amount;
  currency = i.total.currency;
  due_at = i.due_at;
  attempt = i.attempt;
}

module _ (texts : UuidText) where
  open texts use {to_string}

  unfoldable pub to_invoice_view : PgInvoice → InvoiceView
  to_invoice_view t = record {
    invoice_id = to_string t.id;
    auction_id = to_string t.auction_id;
    status = t.status;
    hammer_minor = t.hammer_minor;
    commission_minor = t.commission_minor;
    total_minor = t.total_minor;
    currency = t.currency;
    due_at = t.due_at;
    attempt = t.attempt;
  }

  unfoldable pub to_api_invoice : {E : Type 0} → InvoiceView → Result E ApiInvoice
  to_api_invoice v = do
    invoice_id ← must_parse texts v.invoice_id
    auction_id ← must_parse texts v.auction_id
    ok (record {
      invoice_id = invoice_id;
      auction_id = auction_id;
      status = v.status;
      hammer_minor = v.hammer_minor;
      commission_minor = v.commission_minor;
      total_minor = v.total_minor;
      currency = v.currency;
      due_at = v.due_at;
      attempt = v.attempt;
    })

  -- The loop of `GetBidderPendingInvoices`.
  unfoldable pub to_api_invoices : {E : Type 0} → List InvoiceView → Result E (List ApiInvoice)
  to_api_invoices [] = ok []
  to_api_invoices (v ∷ views) = do
    invoice ← to_api_invoice v
    invoices ← to_api_invoices views
    ok (invoice ∷ invoices)

  -- The view of an invoice that is stored.
  abbrev pub view_of : Invoice → InvoiceView
  unfolding to_invoice_view to_pg_invoice
  view_of i = to_invoice_view (to_pg_invoice i)

  view_shows : {E : Type 0} → (i : Invoice) → to_api_invoice {E = E} (view_of i) ≡ ok (bill_of i)
  unfolding to_api_invoice to_invoice_view to_pg_invoice
  view_shows i = rw (must_parse-to_string texts i.id, must_parse-to_string texts i.auction_id) refl

  views_show :
      {E : Type 0}
      → (is : List Invoice) → to_api_invoices {E = E} (map view_of is) ≡ ok (map bill_of is)
  unfolding to_api_invoices
  views_show [] = refl
  views_show {E = E} (i ∷ is) = ground (arith, view_shows {E = E} i, views_show {E = E} is)

  module _ (by_id : InvoiceId → BidderId → Result Error InvoiceView)
      (pending_of : BidderId → Result Error (List InvoiceView)) where
    -- `GetInvoice`
    unfoldable pub invoice_request : Option User → Uuid → Result (Fault Error) ApiInvoice
    invoice_request user id = do view ← get_invoice by_id pending_of user id; to_api_invoice view

    -- `GetBidderPendingInvoices`
    unfoldable pub pending_request :
        Option User → Uuid → Option Text → Result (Fault Error) (List ApiInvoice)
    pending_request user bidder_id status = do
      views ← get_bidder_pending_invoices by_id pending_of user bidder_id status
      to_api_invoices views

    pub invoice_shown :
        (user : User) (i : Invoice)
        → is_nil user.id ≡ false
        → is_nil i.id ≡ false
        → by_id i.id user.id ≡ ok (view_of i)
        → invoice_request (some user) i.id ≡ ok (bill_of i)
    unfolding invoice_request get_invoice own_invoice actor_from_ctx invoice_by_id user_from_ctx
        new_bidder_id new_invoice_id
    invoice_shown user i someone set stored =
        ground (arith, someone, set, stored, view_shows {E = Fault Error} i)

    pub pending_shown :
        (user : User) (is : List Invoice)
        → is_nil user.id ≡ false
        → pending_of user.id ≡ ok (map view_of is)
        → pending_request (some user) user.id none ≡ ok (map bill_of is)
    unfolding pending_request get_bidder_pending_invoices user_from_ctx new_bidder_id
    pending_shown user is someone stored =
        ground (arith, someone, stored, views_show {E = Fault Error} is)
