-- ===== src/Billing/Guards.antt =====
-- The guard table of an invoice: one way out of `pending`, whatever is tried and in whatever order
-- (internal/billing/domain/invoice/invoice.go: MarkPaid, Expire, Void).
use molot.Base.{ℕ, suc, ◌+◌, ◌≡◌, ◌⊎◌, false, List, [], ◌∷◌, ◌++◌, arith, Result, ok, err, panic}
use molot.Text
use molot.Time.{Time}
use molot.Billing.Errors.{
  Error, invoice_already_paid, invoice_expired as expired_error, invoice_already_expired,
  invoice_voided as voided_error, invoice_already_voided,
}
use molot.Billing.Values.{
  PaymentReference, InvoiceStatus, pending, paid, expired, voided, DomainEvent, invoice_issued,
  invoice_paid, invoice_expired, invoice_voided,
}
use molot.Billing.Invoice.{Invoice, mark_paid, expire, void}

-- An attempt at one of the three transitions.
pub data Try : Type 0 where
  pays : PaymentReference → Time → Try
  expires : Time → Try
  voids : Time → Try

-- An error, and a panic, leave the invoice as it was.
abbrev pub or_same : Invoice → Result Error Invoice → Invoice
or_same i (ok j) = j
or_same i (err e) = i
or_same i panic = i

pub attempt : Invoice → Try → Invoice
attempt i (pays ref now) = or_same i (mark_paid i ref now)
attempt i (expires now) = or_same i (expire i now)
attempt i (voids now) = or_same i (void i now)

pub run : Invoice → List Try → Invoice
run i [] = i
run i (t ∷ ts) = run (attempt i t) ts

-- The events that tell of a transition.
abbrev pub transitions : List DomainEvent → ℕ
transitions [] = 0
transitions (invoice_issued a b c d e f g h j ∷ es) = transitions es
transitions (e ∷ es) = suc (transitions es)

pub transitions-append :
    (xs ys : List DomainEvent) → transitions (xs ++ ys) ≡ transitions xs + transitions ys
transitions-append [] ys = omega arith
transitions-append (invoice_issued a b c d e f g h j ∷ es) ys = transitions-append es ys
transitions-append (e ∷ es) ys = omega (arith, transitions-append es ys)

abbrev pub left_pending : InvoiceStatus → ℕ
left_pending pending = 0
left_pending _ = 1

-- What is recorded agrees with the status.
abbrev pub IsAccounted : Invoice → Type 0
IsAccounted i = transitions i.events ≡ left_pending i.status

attempt-IsAccounted : (i : Invoice) (t : Try) → IsAccounted i → IsAccounted (attempt i t)
unfolding attempt mark_paid expire void
attempt-IsAccounted i (pays ref now) h = ground (
  arith,
  transitions-append i.events (invoice_paid i.id i.auction_id i.debtor i.total ref now ∷ []),
)
attempt-IsAccounted i (expires now) h = ground (
  arith,
  transitions-append i.events (invoice_expired i.id i.auction_id i.debtor i.attempt now ∷ []),
)
attempt-IsAccounted i (voids now) h =
    ground (arith, transitions-append i.events (invoice_voided i.id now ∷ []))

-- Whatever payments, expiries and voids are tried on an invoice, and in whatever order, if its
-- events told of one transition where it had left pending, and of none where it had not, they still
-- do.
pub run-IsAccounted : (i : Invoice) (ts : List Try) → IsAccounted i → IsAccounted (run i ts)
unfolding run
run-IsAccounted i [] h = h
run-IsAccounted i (t ∷ ts) h = run-IsAccounted (attempt i t) ts (attempt-IsAccounted i t h)

-- What each of the three calls answers about an invoice that has left `pending`.
pub record IsFinal (s : InvoiceStatus) (ref : PaymentReference) (i : Invoice) : Type 0 where
  pub same_status : i.status ≡ s
  pub same_ref : i.psp_ref ≡ ref
  pub left : (s ≡ paid) ⊎ (s ≡ expired) ⊎ (s ≡ voided)

attempt-IsFinal :
    {s : InvoiceStatus} {ref : PaymentReference} (i : Invoice) (t : Try)
    → IsFinal s ref i
    → IsFinal s ref (attempt i t)
unfolding attempt mark_paid expire void
attempt-IsFinal i (pays ref now) f = ground arith
attempt-IsFinal i (expires now) f = ground arith
attempt-IsFinal i (voids now) f = ground arith

run-IsFinal :
    {s : InvoiceStatus} {ref : PaymentReference} (i : Invoice) (ts : List Try)
    → IsFinal s ref i
    → IsFinal s ref (run i ts)
unfolding run
run-IsFinal i [] f = f
run-IsFinal i (t ∷ ts) f = run-IsFinal (attempt i t) ts (attempt-IsFinal i t f)

-- After MarkPaid succeeded, and whatever is tried next, the invoice is paid with the same
-- reference, and MarkPaid, Expire and Void all report invoice_already_paid.
pub mark_paid_final :
    (i : Invoice) {j : Invoice} (ref : PaymentReference) (now later : Time) (ts : List Try)
    → mark_paid i ref now ≡ ok j
    → ((run j ts).status ≡ paid)
      × ((run j ts).psp_ref ≡ ref)
      × (mark_paid (run j ts) ref later ≡ err invoice_already_paid)
      × (expire (run j ts) later ≡ err invoice_already_paid)
      × (void (run j ts) later ≡ err invoice_already_paid)
unfolding mark_paid expire void
mark_paid_final i {j} ref now later ts h =
    let f = run-IsFinal {s = paid} {ref = ref} j ts (ground arith) in ground arith

-- After Expire succeeded, and whatever is tried next, the invoice is expired: a payment with a
-- reference is refused as expired, and Expire and Void report invoice_already_expired.
pub expire_final :
    (i : Invoice) {j : Invoice} (ref : PaymentReference) (now later : Time) (ts : List Try)
    → expire i now ≡ ok j
    → Text.is_empty ref ≡ false
    → ((run j ts).status ≡ expired)
      × (mark_paid (run j ts) ref later ≡ err expired_error)
      × (expire (run j ts) later ≡ err invoice_already_expired)
      × (void (run j ts) later ≡ err invoice_already_expired)
unfolding mark_paid expire void
expire_final i {j} ref now later ts h r =
    let f = run-IsFinal {s = expired} {ref = i.psp_ref} j ts (ground arith) in ground arith

-- After Void succeeded, and whatever is tried next, the invoice is voided: a payment with a
-- reference and an expiry are refused as voided, and Void reports invoice_already_voided.
pub void_final :
    (i : Invoice) {j : Invoice} (ref : PaymentReference) (now later : Time) (ts : List Try)
    → void i now ≡ ok j
    → Text.is_empty ref ≡ false
    → ((run j ts).status ≡ voided)
      × (mark_paid (run j ts) ref later ≡ err voided_error)
      × (expire (run j ts) later ≡ err voided_error)
      × (void (run j ts) later ≡ err invoice_already_voided)
unfolding mark_paid expire void
void_final i {j} ref now later ts h r =
    let f = run-IsFinal {s = voided} {ref = i.psp_ref} j ts (ground arith) in ground arith
