-- ===== src/Billing/Facade.antt =====
-- internal/billing/service/facade.go: the commands that the settlement saga calls, with arguments of
-- primitive types.
use molot.Base.{ℕ}
use molot.Slug.{parsed}
use molot.Text.{Text}
use molot.Time.{Time}
use molot.Uuid.{Uuid}
use molot.Billing.Money.{CommissionPolicy, new_currency, new_money}
use molot.Billing.Values.{PaymentTerm, new_invoice_id, new_auction_id, new_bidder_id, new_attempt}
use molot.Billing.Commands
use molot.Billing.Commands.{Handler}

unfoldable pub issue_invoice :
    CommissionPolicy → PaymentTerm → Uuid → Uuid → Uuid → ℕ → Text → ℕ → Time → Handler
issue_invoice policy term invoice_id auction_id debtor hammer_minor currency attempt now =
    parsed (new_invoice_id invoice_id) "invalid-invoice-id" λ id.
      parsed (new_auction_id auction_id) "invalid-auction-id" λ auc_id.
        parsed (new_bidder_id debtor) "invalid-debtor-id" λ debtor_id.
          parsed (new_currency currency) "invalid-currency" λ cur.
            parsed (new_money hammer_minor cur) "invalid-hammer-price" λ hammer.
              parsed (new_attempt attempt) "invalid-attempt"
                λ att. Commands.issue_invoice policy term id auc_id debtor_id hammer att now

unfoldable pub void_invoice : Uuid → Time → Handler
void_invoice invoice_id now =
    parsed (new_invoice_id invoice_id) "invalid-invoice-id" λ id. Commands.void_invoice id now
