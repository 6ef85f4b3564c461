-- ===== src/Settlement/Subscriptions.antt =====
-- internal/settlement/ports/events.go: what the subscriptions of the saga do with the events of the
-- other contexts. `none` is an error of the parser: the event is dead-lettered. The clock of the
-- handlers and what runs meanwhile are arguments.
use molot.Base.{◌≡◌, refl, Option, none, some, ok, ℕ}
use molot.Text.{Text}
use molot.Time.{Time}
use molot.Uuid.{Uuid, UuidText}
use molot.Billing.Integration as BillingEvents
use molot.Billing.Integration.{invoice_issued_v1, invoice_paid_v1, invoice_expired_v1}
use molot.Settlement.Relist.{RelistPolicy}
use molot.Settlement.Ids.{UuidLib}
use molot.Settlement.Gateways.{Gateways}
use molot.Settlement.Action.{World, Action}
use molot.Settlement.Handlers.{on_invoice_paid, on_invoice_expired, on_winner_reassigned}

-- The handler's run, where both identities are read; the first that is not ends it.
unfoldable pub handled : {A : Type 0} → Option Uuid → Option Uuid → (Uuid → Uuid → A) → Option A
handled none second handler = none
handled (some a) none handler = none
handled (some a) (some b) handler = some (handler a b)

-- The handlers with what they share.
module _ {W : Type 0} (g : Gateways W) (lib : UuidLib) (policy : RelistPolicy) (texts : UuidText)
    (now : Time) (meanwhile : World W → World W) where
  open texts use {parse}

  -- Two identities of an event, as the subscriptions read them.
  abbrev both : Text → Text → (Uuid → Uuid → Action W (Unit {0})) → Option (Action W (Unit {0}))
  both first second handler = handled (parse first) (parse second) handler

  pub both_read :
      {first second : Text} {a b : Uuid} (handler : Uuid → Uuid → Action W (Unit {0}))
      → parse first ≡ some a
      → parse second ≡ some b
      → both first second handler ≡ some (handler a b)
  unfolding handled
  both_read handler h k = rw (h, k) refl

  -- The subscriptions to billing-events; nobody listens to an invoice that is issued.
  unfoldable pub on_billing_event : BillingEvents.IntegrationEvent → Option (Action W (Unit {0}))
  on_billing_event (invoice_paid_v1 event_id invoice_id auction_id debtor_id total currency at) =
      both auction_id invoice_id λ a i. on_invoice_paid g lib policy a i now meanwhile
  on_billing_event (invoice_expired_v1 event_id invoice_id auction_id debtor_id attempt at) =
      both auction_id invoice_id λ a i. on_invoice_expired g lib policy a i now meanwhile
  on_billing_event
        (invoice_issued_v1 event_id invoice_id auction_id debtor_id hammer commission total currency
          due attempt at) =
      some (λ w. (ok tt, w))

  -- `settlement.OnWinnerReassigned`
  unfoldable pub on_reassigned_event : Text → Text → ℕ → Text → Option (Action W (Unit {0}))
  on_reassigned_event auction_id new_winner_id price_minor currency =
      both auction_id new_winner_id
        λ a k. on_winner_reassigned g lib policy a k price_minor currency now meanwhile
