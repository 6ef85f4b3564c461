-- ===== src/Billing/Invoice.antt =====
-- internal/billing/domain/invoice/invoice.go: the Invoice aggregate. A method that mutates `*Invoice`
-- returns the new record; an error leaves the receiver as it was.
use molot.Base.{ℕ, not, List, [], ◌∷◌, ◌++◌, Result, ok, err, panic, ◌>>=◌, ◌>>◌, reject_if, ◌==◌}
use molot.Int64
use molot.Text
use molot.Time
use molot.Time.{Time}
use molot.Uuid.{is_nil}
use molot.Billing.Errors.{
  Error, invoice_already_paid, invoice_expired as expired_error, invoice_already_expired,
  invoice_voided as voided_error, invoice_already_voided, invoice_not_due, empty_payment_reference,
  invoice_id_required, auction_id_required, debtor_required, hammer_required, total_required,
  status_required, due_at_required, payment_term_required, attempt_required, now_required,
  invalid_version, forbidden_invoice_access,
}
use molot.Billing.Money
use molot.Billing.Money.{Money, CommissionPolicy, commission_for}
use molot.Billing.Values.{
  InvoiceId, AuctionId, BidderId, Attempt, PaymentTerm, PaymentReference, InvoiceStatus, unset,
  pending, paid, expired, voided, is_unset, DomainEvent, invoice_issued, invoice_paid,
  invoice_expired, invoice_voided,
}

pub record Invoice : Type 0 where
  pub id : InvoiceId
  pub auction_id : AuctionId
  pub debtor : BidderId
  pub hammer : Money
  pub commission : Money
  pub total : Money
  pub status : InvoiceStatus
  pub due_at : Time
  pub attempt : Attempt
  pub psp_ref : PaymentReference
  pub version : ℕ  -- int64
  pub events : List DomainEvent

-- `i.record(e)`
abbrev pub recorded : DomainEvent → Invoice → Invoice
recorded e i = record i { events = i.events ++ e ∷ [] }

-- `PullDomainEvents`: the receiver that it leaves.
abbrev pub pull_domain_events : Invoice → Invoice
pull_domain_events i = record i { events = [] }

-- The literal that `NewInvoice` builds, and the event that it records.
unfoldable pub issued :
    InvoiceId → AuctionId → BidderId → Money → Money → Money → Time → Attempt → Time → Invoice
issued id auction_id debtor hammer commission total due_at attempt now = record {
  id = id;
  auction_id = auction_id;
  debtor = debtor;
  hammer = hammer;
  commission = commission;
  total = total;
  status = pending;
  due_at = due_at;
  attempt = attempt;
  psp_ref = [];
  version = 1;
  events = invoice_issued id auction_id debtor hammer commission total due_at attempt now ∷ [];
}

unfoldable pub new_invoice :
    InvoiceId
    → AuctionId
    → BidderId
    → Money
    → CommissionPolicy
    → PaymentTerm
    → Attempt
    → Time
    → Result Error Invoice
new_invoice id auction_id debtor hammer cp pt attempt now = do
  reject_if (is_nil id) invoice_id_required
  reject_if (is_nil auction_id) auction_id_required
  reject_if (is_nil debtor) debtor_required
  reject_if (Money.is_zero hammer) hammer_required
  reject_if (pt == 0) payment_term_required
  reject_if (attempt == 0) attempt_required
  reject_if (Time.is_zero now) now_required
  let commission = commission_for hammer cp
  total ← Money.add hammer commission
  ok (issued id auction_id debtor hammer commission total (Time.add now pt) attempt now)

-- `UnmarshalFromDatabase` checks the structure of a stored row, whose fields `i` holds.
unfoldable pub unmarshal_from_database : Invoice → Result Error Invoice
unmarshal_from_database i = do
  reject_if (is_nil i.id) invoice_id_required
  reject_if (is_nil i.auction_id) auction_id_required
  reject_if (is_nil i.debtor) debtor_required
  reject_if (Money.is_zero i.hammer) hammer_required
  reject_if (Money.is_zero i.total) total_required
  reject_if (is_unset i.status) status_required
  reject_if (Time.is_zero i.due_at) due_at_required
  reject_if (i.attempt == 0) attempt_required
  reject_if (Int64.lt i.version 1) invalid_version
  ok (record i { events = [] })

-- The `switch` of `MarkPaid`.
unfoldable pub pay_status : InvoiceStatus → Result Error (Unit {0})
pay_status pending = ok tt
pay_status paid = err invoice_already_paid
pay_status expired = err expired_error
pay_status voided = err voided_error
pay_status unset = panic

unfoldable pub mark_paid : Invoice → PaymentReference → Time → Result Error Invoice
unfolding pay_status
mark_paid i ref now = do
  reject_if (Text.is_empty ref) empty_payment_reference
  pay_status i.status
  ok (
      recorded (invoice_paid i.id i.auction_id i.debtor i.total ref now)
        (record i { status = paid; psp_ref = ref }))

-- The `switch` of `Expire`.
unfoldable pub expire_status : InvoiceStatus → Result Error (Unit {0})
expire_status pending = ok tt
expire_status paid = err invoice_already_paid
expire_status expired = err invoice_already_expired
expire_status voided = err voided_error
expire_status unset = panic

unfoldable pub expire : Invoice → Time → Result Error Invoice
unfolding expire_status
expire i now = do
  expire_status i.status
  reject_if (Time.before now i.due_at) invoice_not_due
  ok (
      recorded (invoice_expired i.id i.auction_id i.debtor i.attempt now)
        (record i { status = expired }))

-- The `switch` of `Void`.
unfoldable pub void_status : InvoiceStatus → Result Error (Unit {0})
void_status pending = ok tt
void_status paid = err invoice_already_paid
void_status expired = err invoice_already_expired
void_status voided = err invoice_already_voided
void_status unset = panic

unfoldable pub void : Invoice → Time → Result Error Invoice
unfolding void_status
void i now = do
  void_status i.status
  ok (recorded (invoice_voided i.id now) (record i { status = voided }))

unfoldable pub can_debtor_access_invoice : BidderId → Invoice → Result Error (Unit {0})
can_debtor_access_invoice actor i =
    reject_if (not (actor == i.debtor)) (forbidden_invoice_access actor i.debtor)
