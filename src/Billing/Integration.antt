-- ===== src/Billing/Integration.antt =====
-- internal/billing/events/events.go and internal/billing/adapters/events_mapper.go: the events that the
-- context publishes for the others.
use molot.Base.{ℕ, Option, none, some}
use molot.Text.{Text}
use molot.Time.{Time}
use molot.Uuid.{UuidText}
use molot.Billing.Values.{
  DomainEvent, invoice_issued, invoice_paid, invoice_expired, invoice_voided,
}

-- The structs of the package, with their fields in their order.
pub data IntegrationEvent : Type 0 where
  invoice_issued_v1 :
      (event_id invoice_id auction_id debtor_id : Text)
      (hammer_minor commission_minor total_minor : ℕ) (currency : Text) (due_at : Time)
      (attempt : ℕ) (occurred_at : Time)
      → IntegrationEvent
  invoice_paid_v1 :
      (event_id invoice_id auction_id debtor_id : Text) (total_minor : ℕ) (currency : Text)
      (occurred_at : Time)
      → IntegrationEvent
  invoice_expired_v1 :
      (event_id invoice_id auction_id debtor_id : Text) (attempt : ℕ) (occurred_at : Time)
      → IntegrationEvent

-- `event_id` is the text of the new UUID that the event gets.
module _ (lib : UuidText) (event_id : Text) where
  open lib use {to_string}

  -- `toIntegrationEvent`
  unfoldable pub to_integration_event : DomainEvent → Option IntegrationEvent
  to_integration_event
        (invoice_issued id auction_id debtor hammer commission total due attempt at) =
      some (
        invoice_issued_v1 event_id (to_string id) (to_string auction_id) (to_string debtor)
          hammer.amount commission.amount total.amount total.currency due attempt at)
  to_integration_event (invoice_paid id auction_id debtor total reference at) = some (
      invoice_paid_v1 event_id (to_string id) (to_string auction_id) (to_string debtor) total.amount
        total.currency at)
  to_integration_event (invoice_expired id auction_id debtor attempt at) = some (
      invoice_expired_v1 event_id (to_string id) (to_string auction_id) (to_string debtor) attempt
        at)
  to_integration_event (invoice_voided id at) = none
