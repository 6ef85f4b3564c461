-- ===== src/Billing/Final.antt =====
-- What no later call undoes (internal/billing/app/command): an expired or voided invoice, and a charge.
use molot.Base.{◌≡◌, inl, inr, arith, true, false, some, Bool-cases}
use molot.Store
use molot.Store.{Store}
use molot.Billing.Values.{InvoiceId, PaymentReference, paid}
use molot.Billing.Invoice.{Invoice}
use molot.Billing.Psp.{FakePsp, is_set}
use molot.Billing.Pay.{Till}
use molot.Billing.Payments.{is_lost, Steps, here, onward, Step-Change}
use molot.Billing.Ledger.{IsBalanced, lost_kept, charges_kept, Step-IsBalanced}

-- Whatever calls of the billing context follow one another (issues, expiries, voids, charges,
-- commits of a payment with the reference of its charge, refunds of invoices found expired or
-- voided), a balanced ledger stays balanced: every paid invoice has a charge with its reference,
-- and every refund is of an expired or voided invoice.
pub Steps-IsBalanced : {w v : Till FakePsp} → Steps w v → IsBalanced w → IsBalanced v
Steps-IsBalanced here b = b
Steps-IsBalanced (onward p s) b = Step-IsBalanced s (Steps-IsBalanced p b)

-- An invoice that is expired or voided.
abbrev pub IsLost : InvoiceId → Till FakePsp → Type 0
IsLost id w = (i : Invoice) × (Store.lookup id w.invoices ≡ some i) × (is_lost i.status ≡ true)

abbrev pub IsPaid : InvoiceId → Till FakePsp → Type 0
IsPaid id w = (i : Invoice) × (Store.lookup id w.invoices ≡ some i) × (i.status ≡ paid)

pub IsLost-stays : {w v : Till FakePsp} (id : InvoiceId) → Steps w v → IsLost id w → IsLost id v
IsLost-stays id here lost = lost
IsLost-stays {v = u} id (onward {v = m} p s) lost =
    let (i, there, gone) = IsLost-stays id p lost in
    lost_kept m.psp.charges m.invoices u.invoices (Step-Change s) id i there gone

pub charge_stays :
    {w v : Till FakePsp} (id : InvoiceId) (ref : PaymentReference)
    → Steps w v
    → Store.lookup id w.psp.charges ≡ some ref
    → Store.lookup id v.psp.charges ≡ some ref
charge_stays id ref here there = there
charge_stays id ref (onward p s) there = charges_kept s id ref (charge_stays id ref p there)

-- What is paid is not given back.
pub unrefunded :
    (w : Till FakePsp)
    → IsBalanced w
    → (id : InvoiceId) (i : Invoice) → Store.lookup id w.invoices ≡ some i
    → i.status ≡ paid
    → is_set id w.psp.refunded ≡ false
unrefunded w b id i there settled = elim (Bool-cases (is_set id w.psp.refunded)) [
  | inl back ↦ let (j, found, lost) = b.refunded_lost id back in absurd (ground arith)
  | inr kept ↦ kept
]
