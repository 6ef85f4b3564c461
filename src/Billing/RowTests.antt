-- ===== src/Billing/RowTests.antt =====
-- A paid invoice as a row.
use molot.Base.{ℕ, ◌≡◌, refl, inl, [], ok, arith}
use molot.Int64
use molot.Text
use molot.Text.{text}
use molot.Billing.Money.{Money, new_currency, all_upper}
use molot.Billing.Values.{paid}
use molot.Billing.Invoice.{Invoice}
use molot.Billing.Row.{IsStorable, to_pg_invoice, to_domain_invoice, invoice_row_trip}

abbrev eur : ℕ → Money
eur n = record { amount = n; currency = text "EUR" }

abbrev paid_bill : Invoice
paid_bill = record {
  id = 31;
  auction_id = 1;
  debtor = 7;
  hammer = eur 100000;
  commission = eur 8750;
  total = eur 108750;
  status = paid;
  due_at = 1500;
  attempt = 1;
  psp_ref = text "psp";
  version = 2;
  events = [];
}

paid_bill-IsStorable : IsStorable paid_bill
unfolding new_currency all_upper Text.len Int64.lt
paid_bill-IsStorable = record {
  has_id = refl;
  has_auction = refl;
  has_debtor = refl;
  code = refl;
  has_currency = refl;
  hammer_currency = refl;
  commission_currency = refl;
  hammer_sign = refl;
  commission_sign = refl;
  total_sign = refl;
  known = λ e. ground arith;
  due = refl;
  tried = inl refl;
  counted = refl;
  drained = refl;
}

invoice_row_trip_example : to_domain_invoice (to_pg_invoice paid_bill) ≡ ok paid_bill
invoice_row_trip_example = invoice_row_trip paid_bill paid_bill-IsStorable
