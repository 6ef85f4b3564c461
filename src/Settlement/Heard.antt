-- ===== src/Settlement/Heard.antt =====
-- What the auction and billing contexts publish reaches the saga's handlers
-- (internal/auction/adapters/events_mapper.go, internal/billing/adapters/events_mapper.go and
-- internal/settlement/ports/events.go).
use molot.Base.{ℕ, ◌≡◌, refl, ap, ◌∙◌, ◌++◌, some, [], ◌∷◌, ok, arith}
use molot.Text.{Text}
use molot.Time.{Time}
use molot.Uuid.{UuidText}
use molot.Auction.Aggregate as Aggregate
use molot.Auction.Aggregate.{Auction, require_closed}
use molot.Auction.Bid.{Bid}
use molot.Auction.Events as AuctionEvents
use molot.Auction.Integration.{map_domain_event, winner_reassigned_v1}
use molot.Billing.Invoice.{Invoice, mark_paid, pay_status, expire, expire_status}
use molot.Billing.Values.{PaymentReference, DomainEvent, invoice_paid, invoice_expired}
use molot.Billing.Integration.{IntegrationEvent, to_integration_event}
use molot.Settlement.Relist.{RelistPolicy}
use molot.Settlement.Ids.{UuidLib}
use molot.Settlement.Gateways.{Gateways}
use molot.Settlement.Action.{World, Action}
use molot.Settlement.Handlers.{on_invoice_paid, on_invoice_expired, on_winner_reassigned}
use molot.Settlement.Subscriptions.{both_read, on_billing_event, on_reassigned_event}

paid_event :
    (i : Invoice) (ref : PaymentReference) (at : Time) {j : Invoice}
    → mark_paid i ref at ≡ ok j
    → j.events ≡ i.events ++ (invoice_paid i.id i.auction_id i.debtor i.total ref at ∷ [])
unfolding mark_paid pay_status
paid_event i ref at h = ground arith

expired_event :
    (i : Invoice) (at : Time) {j : Invoice}
    → expire i at ≡ ok j
    → j.events ≡ i.events ++ (invoice_expired i.id i.auction_id i.debtor i.attempt at ∷ [])
unfolding expire expire_status
expired_event i at h = ground arith

reassigned_event :
    (a : Auction) (at : Time) {b : Auction} {bid : Bid}
    → Aggregate.award_to_runner_up a at ≡ ok (b, bid)
    → (b.events ≡ a.events ++ (AuctionEvents.winner_reassigned bid at ∷ []))
      × (b.leading_bid ≡ bid)
      × (b.id ≡ a.id)
      × (b.start_price ≡ a.start_price)
unfolding Aggregate.award_to_runner_up require_closed
reassigned_event a at h = (ground arith, ground arith, ground arith, ground arith)

module _ {W : Type 0} (g : Gateways W) (lib : UuidLib) (policy : RelistPolicy) (texts : UuidText)
    (event_id : Text) (now : Time) (meanwhile : World W → World W) where
  -- A handler hears the event that the last change of an invoice recorded.
  abbrev Hears : Invoice → Invoice → Action W (Unit {0}) → Type 0
  Hears i j action =
      (e : DomainEvent) × (v : IntegrationEvent) × (j.events ≡ i.events ++ (e ∷ []))
      × (to_integration_event texts event_id e ≡ some v)
      × (on_billing_event g lib policy texts now meanwhile v ≡ some action)

  pub payment_reaches_saga :
      (i : Invoice) (ref : PaymentReference) (at : Time) {j : Invoice}
      → mark_paid i ref at ≡ ok j
      → Hears i j (on_invoice_paid g lib policy i.auction_id i.id now meanwhile)
  unfolding to_integration_event on_billing_event
  payment_reaches_saga i ref at h = (
    _,
    _,
    paid_event i ref at h,
    refl,
    both_read g lib policy texts now meanwhile
        (λ a k. on_invoice_paid g lib policy a k now meanwhile) (texts.parse-to_string i.auction_id)
        (texts.parse-to_string i.id),
  )

  pub expiry_reaches_saga :
      (i : Invoice) (at : Time) {j : Invoice}
      → expire i at ≡ ok j
      → Hears i j (on_invoice_expired g lib policy i.auction_id i.id now meanwhile)
  unfolding to_integration_event on_billing_event
  expiry_reaches_saga i at h = (
    _,
    _,
    expired_event i at h,
    refl,
    both_read g lib policy texts now meanwhile
        (λ a k. on_invoice_expired g lib policy a k now meanwhile)
        (texts.parse-to_string i.auction_id) (texts.parse-to_string i.id),
  )

  -- Once AwardToRunnerUp succeeded on an auction, it recorded one event, the mapper publishes it,
  -- and the saga's subscription reads from it what OnWinnerReassigned is to get: the auction's
  -- identity, the promoted bidder, that bid's amount and the auction's currency.
  pub award_reaches_saga :
      (a : Auction) (at : Time) {b : Auction} {bid : Bid}
      → Aggregate.award_to_runner_up a at ≡ ok (b, bid)
      → (e : AuctionEvents.DomainEvent) × (event auction winner currency : Text) × (price : ℕ)
        × (b.events ≡ a.events ++ (e ∷ []))
        × (map_domain_event texts event_id b e
            ≡ some (winner_reassigned_v1 event auction winner price currency at))
        × (on_reassigned_event g lib policy texts now meanwhile auction winner price currency
            ≡ some (
                on_winner_reassigned g lib policy a.id bid.bidder bid.amount.amount
                  a.start_price.currency now meanwhile))
  unfolding map_domain_event on_reassigned_event
  award_reaches_saga a at {b} {bid} h =
      let (recorded, leads, same, price) = reassigned_event a at h in
      (
        AuctionEvents.winner_reassigned bid at,
        event_id,
        texts.to_string b.id,
        texts.to_string bid.bidder,
        b.start_price.currency,
        bid.amount.amount,
        recorded,
        refl,
        both_read g lib policy texts now meanwhile
              (λ k w.
                on_winner_reassigned g lib policy k w bid.amount.amount b.start_price.currency now
                  meanwhile)
              (texts.parse-to_string b.id) (texts.parse-to_string bid.bidder)
            ∙ ap
                (λ k. some (
                  on_winner_reassigned g lib policy k bid.bidder bid.amount.amount
                    b.start_price.currency now meanwhile))
                same
            ∙ ap
                (λ p. some (
                  on_winner_reassigned g lib policy a.id bid.bidder bid.amount.amount p.currency now
                    meanwhile))
                price,
      )
