-- ===== src/Billing/Values.antt =====
-- internal/billing/domain/invoice/invoice.go, its value objects, and events.go.
use molot.Base.{ℕ, Bool, true, false, not, ◌||◌, Result, ok, ◌>>◌, reject_if, ◌==◌}
use molot.Int64
use molot.Text
use molot.Text.{Text}
use molot.Time.{Time, Duration}
use molot.Uuid.{Uuid, is_nil}
use molot.Billing.Errors.{
  Error, nil_id, invalid_attempt, invalid_payment_term, empty_payment_reference,
}
use molot.Billing.Money.{Money}

abbrev pub InvoiceId : Type 0
InvoiceId = Uuid

abbrev pub AuctionId : Type 0
AuctionId = Uuid

abbrev pub BidderId : Type 0
BidderId = Uuid

unfoldable pub new_invoice_id : Uuid → Result Error InvoiceId
new_invoice_id id = do reject_if (is_nil id) nil_id; ok id

unfoldable pub new_auction_id : Uuid → Result Error AuctionId
new_auction_id id = do reject_if (is_nil id) nil_id; ok id

unfoldable pub new_bidder_id : Uuid → Result Error BidderId
new_bidder_id id = do reject_if (is_nil id) nil_id; ok id

-- 1 for the winner, 2 for the second chance, 0 for the zero value.
abbrev pub Attempt : Type 0
Attempt = ℕ

unfoldable pub new_attempt : ℕ → Result Error Attempt
new_attempt n = do reject_if (not ((n == 1) || (n == 2))) invalid_attempt; ok n

-- The duration until an invoice is due; 0 for the zero value.
abbrev pub PaymentTerm : Type 0
PaymentTerm = Duration

unfoldable pub new_payment_term : Duration → Result Error PaymentTerm
new_payment_term d = do reject_if (not (Int64.is_pos d)) invalid_payment_term; ok d

-- The PSP's charge reference, empty until paid.
abbrev pub PaymentReference : Type 0
PaymentReference = Text

unfoldable pub new_payment_reference : Text → Result Error PaymentReference
new_payment_reference ref = do reject_if (Text.is_empty ref) empty_payment_reference; ok ref

-- `unset` is the zero value.
pub data InvoiceStatus : Type 0 where
  unset pending paid expired voided : InvoiceStatus

abbrev pub is_unset : InvoiceStatus → Bool
is_unset unset = true
is_unset _ = false

abbrev pub is_pending : InvoiceStatus → Bool
is_pending pending = true
is_pending _ = false

pub data DomainEvent : Type 0 where
  invoice_issued :
      (invoice_id : InvoiceId) (auction_id : AuctionId) (debtor : BidderId)
      (hammer commission total : Money) (due_at : Time) (attempt : Attempt) (occurred_at : Time)
      → DomainEvent
  invoice_paid :
      (invoice_id : InvoiceId) (auction_id : AuctionId) (debtor : BidderId) (total : Money)
      (reference : PaymentReference) (occurred_at : Time)
      → DomainEvent
  invoice_expired :
      (invoice_id : InvoiceId) (auction_id : AuctionId) (debtor : BidderId) (attempt : Attempt)
      (occurred_at : Time)
      → DomainEvent
  invoice_voided : (invoice_id : InvoiceId) (occurred_at : Time) → DomainEvent
