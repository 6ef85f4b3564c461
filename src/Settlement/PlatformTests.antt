-- ===== src/Settlement/PlatformTests.antt =====
-- The saga's gateways over the two contexts: a void that is repeated, and the names of two invoices.
use molot.Base.{ℕ, ◌≡◌, refl, ok, [], ◌∷◌}
use molot.Store
use molot.Table
use molot.Table.{store_updated}
use molot.Text.{text}
use molot.Billing.Money.{Money, CommissionPolicy}
use molot.Billing.Values.{pending, voided, new_invoice_id}
use molot.Billing.Invoice
use molot.Billing.Invoice.{Invoice, void_status}
use molot.Billing.Repository
use molot.Billing.Repository.{drained}
use molot.Billing.Commands
use molot.Billing.Facade
use molot.Settlement.Adapters.{Platform, platform, void_refused}
use molot.Settlement.Idempotence.{platform-IsIdempotent}

abbrev eur : ℕ → Money
eur n = record { amount = n; currency = text "EUR" }

abbrev fee : CommissionPolicy
fee = record { basis_points = 875 }

abbrev bill : Invoice
bill = record {
  id = 31;
  auction_id = 1;
  debtor = 7;
  hammer = eur 100000;
  commission = eur 8750;
  total = eur 108750;
  status = pending;
  due_at = 1500;
  attempt = 2;
  psp_ref = [];
  version = 1;
  events = [];
}

abbrev before : Platform
before = record { auctions = []; invoices = (31, bill) ∷ [] }

abbrev after : Platform
after = record { auctions = []; invoices = (31, record bill { status = voided }) ∷ [] }

voided_once : (platform fee 1000).void_invoice 31 1000 before ≡ (ok tt, after)
unfolding platform void_refused Facade.void_invoice new_invoice_id Commands.void_invoice
    Repository.update_as_system Table.update store_updated drained Invoice.void void_status
    Store.lookup Store.insert
voided_once = refl

platform-IsIdempotent_example : (platform fee 1000).void_invoice 31 1001 after ≡ (ok tt, after)
platform-IsIdempotent_example =
    (platform-IsIdempotent fee 1000).void_again 31 1000 1001 before after voided_once

abbrev second_attempt : ℕ
second_attempt = 2
