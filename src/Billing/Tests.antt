-- ===== src/Billing/Tests.antt =====
-- An invoice over 1,000.00 at a commission of 8.75 %: the theorems at this invoice.
use molot.Base.{ℕ, ◌+◌, ◌*◌, ◌/◌, ◌≤◌, ◌≡◌, true, refl, arith, ok, [], ◌∷◌, ◌++◌}
use molot.Int64
use molot.Text
use molot.Text.{text}
use molot.Time
use molot.Billing.Money
use molot.Billing.Money.{Money, CommissionPolicy, commission_for, mul_basis_points}
use molot.Billing.Values.{
  pending, paid, expired, voided, invoice_issued, invoice_paid, invoice_expired, invoice_voided,
}
use molot.Billing.Invoice.{
  Invoice, new_invoice, issued, mark_paid, pay_status, expire, expire_status, void, void_status,
}
use molot.Billing.Amounts.{new_invoice_amounts, commission_wraps}
use molot.Billing.Guards.{pays, expires, voids, run, IsAccounted, run-IsAccounted}

abbrev eur : ℕ → Money
eur n = record { amount = n; currency = text "EUR" }

abbrev fee : CommissionPolicy
fee = record { basis_points = 875 }

abbrev bill : Invoice
bill = record {
  id = 31;
  auction_id = 1;
  debtor = 7;
  hammer = eur 100000;
  commission = eur 8750;
  total = eur 108750;
  status = pending;
  due_at = 1500;
  attempt = 1;
  psp_ref = [];
  version = 1;
  events = invoice_issued 31 1 7 (eur 100000) (eur 8750) (eur 108750) 1500 1 500 ∷ [];
}

bill_issued : new_invoice 31 1 7 (eur 100000) fee 1000 1 500 ≡ ok bill
unfolding new_invoice issued commission_for mul_basis_points Int64.mul Int64.quot Int64.add
    Money.add Time.add Text.eq
bill_issued = refl

new_invoice_amounts_example :
    (bill.commission.amount ≡ 100000 * 875 / 10000)
    × (bill.total.amount ≡ 100000 + 8750)
    × (8750 ≤ 100000)
    × (bill.total.currency ≡ text "EUR")
new_invoice_amounts_example =
    new_invoice_amounts 31 1 7 (eur 100000) fee 1000 1 500 bill_issued (omega arith) (omega arith)

-- 2 ^ 63 / 10,000 rounded up, at 100 %.
commission_wraps_example :
    Int64.is_neg (commission_for (eur 922337203685478) (record { basis_points = 10000 })).amount
    ≡ true
commission_wraps_example =
    commission_wraps (eur 922337203685478) (record { basis_points = 10000 }) (omega arith)
      (omega arith)

run-IsAccounted_example :
    IsAccounted (run bill (expires 600 ∷ pays (text "psp") 700 ∷ voids 800 ∷ []))
run-IsAccounted_example =
    run-IsAccounted bill (expires 600 ∷ pays (text "psp") 700 ∷ voids 800 ∷ []) refl

abbrev paid_bill : Invoice
paid_bill = record bill {
  status = paid;
  psp_ref = text "psp";
  events = bill.events ++ invoice_paid 31 1 7 (eur 108750) (text "psp") 600 ∷ [];
}

bill_paid : mark_paid bill (text "psp") 600 ≡ ok paid_bill
unfolding mark_paid pay_status
bill_paid = refl

abbrev late : Invoice
late = run paid_bill (expires 2000 ∷ [])

abbrev expired_bill : Invoice
expired_bill = record bill {
  status = expired;
  events = bill.events ++ invoice_expired 31 1 7 1 1500 ∷ [];
}

bill_expired : expire bill 1500 ≡ ok expired_bill
unfolding expire expire_status
bill_expired = refl

abbrev voided_bill : Invoice
voided_bill = record bill { status = voided; events = bill.events ++ invoice_voided 31 700 ∷ [] }

bill_voided : void bill 700 ≡ ok voided_bill
unfolding void void_status
bill_voided = refl
