-- ===== src/Billing/Row.antt =====
-- internal/billing/adapters/invoice_pg_repository.go: the row of an invoice, as it is written and read.
-- The store itself is not modelled.
use molot.Base.{
  ℕ, ◌≡◌, ◌≢◌, refl, false, Option, none, some, [], ◌∷◌, Result, ok, err, ◌>>=◌, ◌⊎◌, arith,
  if◌then◌else◌,
}
use molot.Int64
use molot.Text
use molot.Text.{Text, text}
use molot.Time
use molot.Time.{Time}
use molot.Uuid.{Uuid, is_nil}
use molot.Billing.Errors.{Error, unknown_status}
use molot.Billing.Money.{new_currency, new_money}
use molot.Billing.Values.{
  InvoiceStatus, unset, pending, paid, expired, voided, PaymentReference, new_invoice_id,
  new_auction_id, new_bidder_id, new_attempt, new_payment_reference,
}
use molot.Billing.Invoice.{Invoice, unmarshal_from_database}

pub record PgInvoice : Type 0 where
  pub id : Uuid
  pub auction_id : Uuid
  pub debtor_id : Uuid
  pub hammer_minor : ℕ
  pub commission_minor : ℕ
  pub total_minor : ℕ
  pub currency : Text
  pub status : Text
  pub due_at : Time
  pub attempt : ℕ
  pub psp_ref : Option Text
  pub version : ℕ

unfoldable pub status_string : InvoiceStatus → Text
status_string unset = text ""
status_string pending = text "pending"
status_string paid = text "paid"
status_string expired = text "expired"
status_string voided = text "voided"

-- `NewInvoiceStatusFromString`.
unfoldable pub new_invoice_status_from_string : Text → Result Error InvoiceStatus
new_invoice_status_from_string s =
    if Text.eq s (text "pending")
    then ok pending
    else if Text.eq s (text "paid")
    then ok paid
    else if Text.eq s (text "expired")
    then ok expired
    else if Text.eq s (text "voided")
    then ok voided
    else err unknown_status

abbrev pub nullable_psp_ref : PaymentReference → Option Text
nullable_psp_ref [] = none
nullable_psp_ref (r ∷ s) = some (r ∷ s)

-- What `Add` writes.
unfoldable pub to_pg_invoice : Invoice → PgInvoice
to_pg_invoice i = record {
  id = i.id;
  auction_id = i.auction_id;
  debtor_id = i.debtor;
  hammer_minor = i.hammer.amount;
  commission_minor = i.commission.amount;
  total_minor = i.total.amount;
  currency = i.total.currency;
  status = status_string i.status;
  due_at = i.due_at;
  attempt = i.attempt;
  psp_ref = nullable_psp_ref i.psp_ref;
  version = i.version;
}

abbrev pub reference_from_column : Option Text → Result Error PaymentReference
reference_from_column none = ok []
reference_from_column (some s) = new_payment_reference s

unfoldable pub to_domain_invoice : PgInvoice → Result Error Invoice
to_domain_invoice t = do
  id ← new_invoice_id t.id
  auction_id ← new_auction_id t.auction_id
  debtor ← new_bidder_id t.debtor_id
  currency ← new_currency t.currency
  hammer ← new_money t.hammer_minor currency
  commission ← new_money t.commission_minor currency
  total ← new_money t.total_minor currency
  status ← new_invoice_status_from_string t.status
  attempt ← new_attempt t.attempt
  psp_ref ← reference_from_column t.psp_ref
  unmarshal_from_database (record {
    id = id;
    auction_id = auction_id;
    debtor = debtor;
    hammer = hammer;
    commission = commission;
    total = total;
    status = status;
    due_at = t.due_at;
    attempt = attempt;
    psp_ref = psp_ref;
    version = t.version;
    events = [];
  })

-- An invoice whose parts the constructors made.
pub record IsStorable (i : Invoice) : Type 0 where
  pub has_id : is_nil i.id ≡ false
  pub has_auction : is_nil i.auction_id ≡ false
  pub has_debtor : is_nil i.debtor ≡ false
  pub code : new_currency i.total.currency ≡ ok i.total.currency
  pub has_currency : Text.is_empty i.total.currency ≡ false
  pub hammer_currency : i.hammer.currency ≡ i.total.currency
  pub commission_currency : i.commission.currency ≡ i.total.currency
  pub hammer_sign : Int64.is_neg i.hammer.amount ≡ false
  pub commission_sign : Int64.is_neg i.commission.amount ≡ false
  pub total_sign : Int64.is_neg i.total.amount ≡ false
  pub known : i.status ≢ unset
  pub due : Time.is_zero i.due_at ≡ false
  pub tried : (i.attempt ≡ 1) ⊎ (i.attempt ≡ 2)
  pub counted : Int64.lt i.version 1 ≡ false
  pub drained : i.events ≡ []

status_again :
    (s : InvoiceStatus) → s ≢ unset → new_invoice_status_from_string (status_string s) ≡ ok s
unfolding new_invoice_status_from_string status_string Text.eq
status_again pending h = refl
status_again paid h = refl
status_again expired h = refl
status_again voided h = refl
status_again unset h = absurd (h refl)

reference_again : (r : PaymentReference) → reference_from_column (nullable_psp_ref r) ≡ ok r
unfolding new_payment_reference
reference_again [] = refl
reference_again (c ∷ r) = refl

unmarshal_again :
    (i : Invoice) → IsStorable i → unmarshal_from_database (record i { events = [] }) ≡ ok i
unfolding unmarshal_from_database
unmarshal_again i v = ground (
  arith, v.has_id, v.has_auction, v.has_debtor, v.has_currency, v.hammer_currency, v.known, v.due,
  v.tried, v.counted, v.drained,
)

pub invoice_row_trip : (i : Invoice) → IsStorable i → to_domain_invoice (to_pg_invoice i) ≡ ok i
unfolding to_domain_invoice to_pg_invoice new_invoice_id new_auction_id new_bidder_id new_money
    new_attempt
invoice_row_trip i v =
    let hammer_ok : new_money i.hammer.amount i.total.currency ≡ ok i.hammer =
      ground (arith, v.has_currency, v.hammer_sign, v.hammer_currency) in
    let commission_ok : new_money i.commission.amount i.total.currency ≡ ok i.commission =
      ground (arith, v.has_currency, v.commission_sign, v.commission_currency) in
    let total_ok : new_money i.total.amount i.total.currency ≡ ok i.total =
      ground (arith, v.has_currency, v.total_sign) in
    let id_ok : new_invoice_id i.id ≡ ok i.id = ground (arith, v.has_id) in
    let auction_ok : new_auction_id i.auction_id ≡ ok i.auction_id =
      ground (arith, v.has_auction) in
    let debtor_ok : new_bidder_id i.debtor ≡ ok i.debtor = ground (arith, v.has_debtor) in
    let attempt_ok : new_attempt i.attempt ≡ ok i.attempt = ground (arith, v.tried) in
    rw
      (
        id_ok,
        auction_ok,
        debtor_ok,
        v.code,
        hammer_ok,
        commission_ok,
        total_ok,
        status_again i.status v.known,
        attempt_ok,
        reference_again i.psp_ref,
      )
      (unmarshal_again i v)
