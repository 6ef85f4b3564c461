-- ===== src/Billing/Errors.antt =====
-- internal/billing/domain/invoice/errors.go, with a constructor for each error that a function of
-- the context makes on the spot.
use molot.Uuid.{Uuid}

pub data Error : Type 0 where
  invoice_already_paid invoice_expired invoice_already_expired invoice_voided : Error
  invoice_already_voided invoice_not_due invoice_already_issued payment_declined : Error
  psp_unavailable currency_mismatch negative_amount invalid_currency : Error
  invalid_commission_rate invalid_attempt invalid_payment_term empty_payment_reference : Error
  nil_id invoice_id_required auction_id_required debtor_required hammer_required : Error
  total_required status_required unknown_status due_at_required payment_term_required
        attempt_required :
      Error
  now_required invalid_version : Error
  not_found : Uuid → Error
  forbidden_invoice_access : Uuid → Uuid → Error
