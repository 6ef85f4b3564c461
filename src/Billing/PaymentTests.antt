-- ===== src/Billing/PaymentTests.antt =====
-- The payment of one invoice: alone, against its expiry, and through a provider that fails once.
use molot.Base.{◌≡◌, ◌⊎◌, inr, refl, arith, true, false, none, some, [], ◌∷◌, ok, length, ◌≤◌, ℕ}
use molot.Store
use molot.Table
use molot.Table.{store_updated}
use molot.Text.{text}
use molot.Billing.Money.{Money}
use molot.Billing.Values.{pending, paid, expired, new_payment_reference}
use molot.Billing.Invoice
use molot.Billing.Invoice.{Invoice, mark_paid, pay_status, expire_status, can_debtor_access_invoice}
use molot.Billing.Repository
use molot.Billing.Repository.{drained, due_at_before, pending_due_before}
use molot.Billing.Commands.{expire_invoice}
use molot.Billing.Psp
use molot.Billing.Psp.{FakePsp, PspMode, success, flaky, fake, accept, charge_new, is_set}
use molot.Billing.Pay.{
  Till, Moment, charging, committing, refunding, pay_invoice, pay_by_status, charge_first,
  commit_payment, settle_race, give_back,
}
use molot.Billing.Payments.{Steps, here, onward, charges, expires}
use molot.Billing.Ledger.{IsBalanced}
use molot.Billing.Final.{Steps-IsBalanced, IsLost}
use molot.Billing.Paying.{pay_success, pay_conflict, no_longer_payable}
use molot.Billing.Retry.{alone, paid_within_two}
use molot.Billing.Worker.{tick}
use molot.Billing.Overdue.{IsArrangement, tick_expires}

abbrev eur : ℕ → Money
eur n = record { amount = n; currency = text "EUR" }

abbrev bill : Invoice
bill = record {
  id = 31;
  auction_id = 1;
  debtor = 7;
  hammer = eur 100000;
  commission = eur 8750;
  total = eur 108750;
  status = pending;
  due_at = 1500;
  attempt = 1;
  psp_ref = [];
  version = 1;
  events = [];
}

abbrev provider : PspMode → FakePsp
provider m = record { mode = m; charges = []; failed_once = []; refunded = [] }

abbrev open_till : PspMode → Till FakePsp
open_till m = record { invoices = (31, bill) ∷ []; psp = provider m }

bill_there : Store.lookup 31 ((31, bill) ∷ []) ≡ some bill
unfolding Store.lookup
bill_there = refl

open-IsBalanced : (m : PspMode) → IsBalanced (open_till m)
unfolding Store.lookup
open-IsBalanced m = record {
  paid_charged = λ id i there settled. ground arith;
  refunded_lost = λ id back. absurd (ground arith);
}

paid_alone : (pay_invoice (fake (text "1")) 31 7 1000 alone (open_till success)).0 ≡ ok tt
unfolding pay_invoice pay_by_status charge_first commit_payment settle_race Repository.get
    Repository.update Psp.charge charge_new accept new_payment_reference mark_paid pay_status
    can_debtor_access_invoice store_updated drained Store.lookup Store.insert
paid_alone = refl

pay_success_example :
    (i : Invoice) × (Store.lookup 31
        (pay_invoice (fake (text "1")) 31 7 1000 alone (open_till success)).1.invoices
      ≡ some i)
    × (i.status ≡ paid)
    × (Store.lookup 31
          (pay_invoice (fake (text "1")) 31 7 1000 alone (open_till success)).1.psp.charges
        ≡ some i.psp_ref)
    × (is_set 31 (pay_invoice (fake (text "1")) 31 7 1000 alone (open_till success)).1.psp.refunded
        ≡ false)
pay_success_example =
    pay_success (text "1") 31 7 1000 alone (λ k w. here) (open_till success)
      (open-IsBalanced success) paid_alone

-- The worker expires the invoice between the charge and its commit.
abbrev overtaken : Moment → Till FakePsp → Till FakePsp
overtaken charging w = w
overtaken committing w = record w { invoices = (expire_invoice 31 1500 w.invoices).1 }
overtaken refunding w = w

overtaken_steps : (k : Moment) (w : Till FakePsp) → Steps w (overtaken k w)
overtaken_steps charging w = here
overtaken_steps committing w = onward here (expires 31 1500)
overtaken_steps refunding w = here

paid_late :
    (pay_invoice (fake (text "1")) 31 7 1500 overtaken (open_till success)).0 ≡ no_longer_payable
unfolding pay_invoice pay_by_status charge_first commit_payment settle_race give_back Repository.get
    Repository.update Repository.update_as_system Table.update Psp.charge Psp.refund charge_new
    accept new_payment_reference mark_paid pay_status expire_invoice Invoice.expire expire_status
    can_debtor_access_invoice store_updated drained Store.lookup Store.insert
paid_late = refl

pay_conflict_example :
    IsLost 31 (pay_invoice (fake (text "1")) 31 7 1500 overtaken (open_till success)).1
    × ((Store.lookup 31
            (pay_invoice (fake (text "1")) 31 7 1500 overtaken (open_till success)).1.psp.charges
          ≡ none)
        ⊎ (is_set 31
              (pay_invoice (fake (text "1")) 31 7 1500 overtaken (open_till success)).1.psp.refunded
            ≡ true))
pay_conflict_example =
    pay_conflict (text "1") 31 7 1500 overtaken overtaken_steps (open_till success) paid_late

Steps-IsBalanced_example : IsBalanced (record (open_till success) {
  psp = (Psp.charge (text "1") 31 (provider success)).1;
  invoices = (expire_invoice 31 1500 ((31, bill) ∷ [])).1;
})
Steps-IsBalanced_example =
    Steps-IsBalanced (onward (onward here (charges (text "1") 31)) (expires 31 1500))
      (open-IsBalanced success)

paid_within_two_example :
    (j : Invoice) × (v : Till FakePsp) × (pay_invoice
        (fake (text "2"))
        31
        7
        1001
        alone
        (pay_invoice (fake (text "1")) 31 7 1000 alone (open_till flaky)).1
      ≡ (ok tt, v))
    × (Store.lookup 31 v.invoices ≡ some j)
    × (j.status ≡ paid)
unfolding Store.lookup
paid_within_two_example =
    paid_within_two 31 (text "1") (text "2") 1000 1001 bill (open_till flaky) bill_there refl refl
      (inr refl)

as_met-IsArrangement : IsArrangement λ l. l
as_met-IsArrangement = record { keeps = λ c l h. h; keeps_length = λ l. refl }

few_due : length (due_at_before 2000 ((31, bill) ∷ [])) ≤ 100
unfolding due_at_before
few_due = omega arith

tick_expires_example :
    (j : Invoice) × (Store.lookup 31 (tick (λ l. l) 2000 (λ id. 2001) ((31, bill) ∷ [])) ≡ some j)
    × (j.status ≡ expired)
tick_expires_example =
    tick_expires (λ l. l) 2000 (λ id. 2001) ((31, bill) ∷ []) 31 bill as_met-IsArrangement few_due
      (omega arith) bill_there refl (omega arith)
