-- ===== src/Auction/Requests.antt =====
-- What the answers of the auction's endpoints (internal/auction/ports/http.go) say of the table.
use molot.Base.{
  ◌≡◌, ◌⊎◌, inl, inr, refl, Option, some, Result, ok, err, panic, arith, Result-cases, Option-cases,
  Bool-cases,
}
use molot.Slug.{Fault}
use molot.Store
use molot.Table
use molot.Table.{answer, answer_kept}
use molot.Time.{Time}
use molot.Uuid.{Uuid, UuidText, is_nil}
use molot.Common.Auth.{User, user_from_ctx}
use molot.Common.Http.{given_refused, with_answer}
use molot.Auction.Errors.{Error, not_found}
use molot.Auction.Ids.{
  AuctionId, SellerId, BidderId, BidId, Bidder, new_auction_id, new_bidder_id, new_bid_id,
}
use molot.Auction.Money.{Money, new_currency, new_money}
use molot.Auction.Lot.{Lot}
use molot.Auction.Reserve.{ReservePrice}
use molot.Auction.Schedule.{BiddingWindow}
use molot.Auction.ListingRules.{ListingRules}
use molot.Auction.Aggregate
use molot.Auction.Aggregate.{Auction, unmarshal_from_database}
use molot.Auction.Commands as Commands
use molot.Auction.Commands.{Handler, first}
use molot.Auction.Repository
use molot.Auction.Repository.{Auctions, cloned, update_by, is_relisted}
use molot.Auction.Http.{
  ListAuctionBody, PlaceBidBody, Offer, offer_arguments, listing_arguments, cancel_arguments,
  list_auction, place_bid, cancel_auction,
}

-- A handler succeeds, or leaves the table as it is.
Settles : Handler → Auctions → Type 0
Settles h m = ((h m).0 ≡ ok tt) ⊎ ((h m).1 ≡ m)

add_kept :
    (a : Auction) (m : Auctions) → ((Repository.add a m).0 ≡ ok tt) ⊎ ((Repository.add a m).1 ≡ m)
unfolding Repository.add
add_kept a m = elim (Option-cases (Store.lookup a.id m)) [
  | inl absent ↦ elim (Bool-cases (is_relisted a m)) [
    | inl again ↦ inr (ground (arith, absent, again))
    | inr new ↦ inl (ground (arith, absent, new))
  ]
  | inr (old, there) ↦ inl (ground (arith, there))
]

list_Settles :
    (rules : ListingRules) (id : AuctionId) (seller : SellerId) (lot : Lot)
    (price increment : Money) (reserve : ReservePrice) (window : BiddingWindow) (now : Time)
    (m : Auctions)
    → Settles (Commands.list_auction rules id seller lot price increment reserve window now) m
unfolding Settles Commands.list_auction Repository.add
list_Settles rules id seller lot price increment reserve window now m =
    elim (Result-cases (Aggregate.new id seller lot price increment reserve window rules now)) [
      | inl (a, made) ↦ elim (add_kept a m) [
        | inl stored ↦ inl (ground (arith, made, stored))
        | inr same ↦ inr (ground (arith, made, same))
      ]
      | inr failed ↦ inr (ground (arith, failed))
    ]

update_by_kept :
    (id : AuctionId) (actor : Uuid) (f : Auction → Result Error Auction) (m : Auctions)
    → ((update_by id actor f m).0 ≡ ok tt) ⊎ ((update_by id actor f m).1 ≡ m)
unfolding update_by Repository.update
update_by_kept id actor f m = elim (Bool-cases (is_nil actor)) [
  | inl nobody ↦ inr (ground (arith, nobody))
  | inr someone ↦ elim (Table.update_kept not_found cloned id f m) [
    | inl stored ↦ inl (ground (arith, someone, stored))
    | inr same ↦ inr (ground (arith, someone, same))
  ]
]

bid_Settles :
    (profile : Result (Fault Error) Bidder) (id : AuctionId) (bid_id : BidId) (bidder : BidderId)
    (amount : Money) (now : Time) (m : Auctions)
    → Settles (Commands.place_bid profile id bid_id bidder amount now) m
unfolding Settles Commands.place_bid
bid_Settles (ok b) id bid_id bidder amount now m =
    answer_kept Commands.map_place_bid_error _ (update_by_kept id bidder _ m)
bid_Settles (err e) id bid_id bidder amount now m = inr refl
bid_Settles panic id bid_id bidder amount now m = inr refl

cancel_Settles :
    (id : AuctionId) (seller : SellerId) (now : Time) (m : Auctions)
    → Settles (Commands.cancel_auction id seller now) m
unfolding Settles Commands.cancel_auction
cancel_Settles id seller now m =
    answer_kept Commands.map_cancel_error _ (update_by_kept id seller _ m)

-- The arguments are those of the request.
pub offer_of :
    (u : User) (id : Uuid) (body : PlaceBidBody) {o : Offer}
    → offer_arguments (some u) id body ≡ ok o
    → o ≡ record {
      id = id;
      bid_id = body.bid_id;
      bidder = u.id;
      amount = record { amount = body.amount_minor; currency = body.currency };
    }
unfolding offer_arguments user_from_ctx new_auction_id new_bidder_id new_bid_id new_currency
    new_money
offer_of u id body h = ground arith

-- A port answers with success what its command does.
answered_Settles :
    {A : Type 0} (a : A) (r : Result (Fault Error) (Unit {0}) × Auctions) {m : Auctions}
    → (r.0 ≡ ok tt) ⊎ (r.1 ≡ m)
    → ((b : A) × ((with_answer a r).0 ≡ ok b)) ⊎ ((with_answer a r).1 ≡ m)
answered_Settles a r (inl stored) = inl (a, ground (arith, stored))
answered_Settles a r (inr same) = inr same

-- A request is answered with success, or leaves the table as it is.
abbrev pub IsAtomic :
    {A : Type 0} → (Auctions → Result (Fault Error) A × Auctions) → Auctions → Type 0
IsAtomic {A} port m = ((b : A) × ((port m).0 ≡ ok b)) ⊎ ((port m).1 ≡ m)

-- Each of the requests ListAuction, PlaceBid and CancelAuction is answered with success, or leaves
-- the table of auctions as it was.
pub requests_IsAtomic :
    (uuids : UuidText) (rules : ListingRules) (profile : BidderId → Result (Fault Error) Bidder)
    (user : Option User) (listing : ListAuctionBody) (id : Uuid) (bid : PlaceBidBody) (now : Time)
    (m : Auctions)
    → IsAtomic (list_auction uuids rules user listing now) m
      × IsAtomic (place_bid uuids profile user id bid now) m
      × IsAtomic (cancel_auction user id now) m
unfolding Settles list_auction place_bid cancel_auction
requests_IsAtomic uuids rules profile user listing id bid now m = (
  given_refused (listing_arguments user listing) _ m λ l.
      answered_Settles _ _
        (list_Settles rules l.id l.seller l.lot l.start_price l.increment l.reserve l.window now m),
  given_refused (offer_arguments user id bid) _ m λ o.
      answered_Settles _ _ (bid_Settles (profile o.bidder) o.id o.bid_id o.bidder o.amount now m),
  given_refused (cancel_arguments user id) _ m λ c. elim (cancel_Settles c.1 c.0 now m) [
    | inl stored ↦ inl (tt, stored)
    | inr same ↦ inr same
  ],
)
