-- ===== src/Settlement/RowTests.antt =====
-- A saga as a row, and the event of an award on its way to it.
use molot.Base.{Bool, ℕ, ◌≡◌, refl, inr, [], ◌∷◌, ◌++◌, ok, some, Option, none, arith}
use molot.Int64
use molot.Text
use molot.Text.{Text, text}
use molot.Uuid.{Uuid, UuidText}
use molot.Settlement.Money.{new_currency, all_upper}
use molot.Settlement.Row.{to_pg_settlement, to_domain_settlement}
use molot.Settlement.RowTrip.{IsStorable, saga_row_trip}
use molot.Auction.Tests.{sale, awarded, first, awards_sale}
use molot.Auction.Events as AuctionEvents
use molot.Auction.Integration.{map_domain_event, winner_reassigned_v1}
use molot.Settlement.Action.{World}
use molot.Settlement.Handlers.{on_winner_reassigned}
use molot.Settlement.Subscriptions.{on_reassigned_event}
use molot.Settlement.Heard.{award_reaches_saga}
use molot.Settlement.Views.{to_settlement_view, settlement_request, status_of, status_shows}
use molot.Common.Auth.{User, role_operations}
use molot.Settlement.Samples.{offered_again, gateways, uuids, policy}

offered_again-IsStorable : IsStorable offered_again
unfolding new_currency all_upper Text.len Int64.lt
offered_again-IsStorable = record {
  has_auction = refl;
  known = λ e. ground arith;
  has_winner = refl;
  code = refl;
  has_currency = refl;
  hammer_sign = refl;
  second = inr (refl, refl, refl);
  tried = inr refl;
  counted = refl;
}

saga_row_trip_example : to_domain_settlement (to_pg_settlement offered_again) ≡ ok offered_again
saga_row_trip_example = saga_row_trip offered_again offered_again-IsStorable

-- A text of one sign for each identity: a stand-in for the library.
abbrev read : Text → Option Uuid
read [] = none
read (u ∷ s) = some u

abbrev texts : UuidText
texts = record {
  to_string = λ u. u ∷ [];
  parse = read;
  to_string_set = λ u. refl;
  parse-to_string = λ u. refl;
}

abbrev alone : World Bool → World Bool
alone w = w

award_reaches_saga_example :
    (e : AuctionEvents.DomainEvent) × (event auction winner currency : Text) × (price : ℕ)
    × (awarded.events ≡ sale.events ++ (e ∷ []))
    × (map_domain_event texts (text "e2") awarded e
        ≡ some (winner_reassigned_v1 event auction winner price currency 131))
    × (on_reassigned_event gateways uuids policy texts 140 alone auction winner price currency
        ≡ some (
            on_winner_reassigned gateways uuids policy sale.id first.bidder first.amount.amount
              sale.start_price.currency 140 alone))
award_reaches_saga_example =
    award_reaches_saga gateways uuids policy texts (text "e2") 140 alone sale 131 awards_sale

abbrev clerk : User
clerk = record { id = 5; role = role_operations }

status_shows_example :
    settlement_request texts
      (λ id. ok (to_settlement_view texts (to_pg_settlement offered_again)))
      (some clerk)
      1
    ≡ ok (status_of texts offered_again)
unfolding Text.eq
status_shows_example =
    status_shows texts (λ id. ok (to_settlement_view texts (to_pg_settlement offered_again))) clerk
      offered_again refl refl
