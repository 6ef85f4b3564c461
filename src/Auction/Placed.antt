-- ===== src/Auction/Placed.antt =====
-- What stands in the table after a bid that the endpoint accepted (internal/auction/ports/http.go).
use molot.Base.{
  ◌≡◌, ◌≢◌, inl, inr, refl, ap, ◌∙◌, subst, some, Result, ok, err, panic, arith, Result-cases,
  Bool-cases,
}
use molot.Slug.{Fault}
use molot.Store
use molot.Table
use molot.Table.{answer}
use molot.Text.{Text}
use molot.Time.{Time}
use molot.Uuid.{Uuid, UuidText, is_nil}
use molot.Common.Auth.{User}
use molot.Auction.Errors.{Error, not_found}
use molot.Auction.Ids.{AuctionId, BidderId, BidId, Bidder}
use molot.Auction.Money.{Money}
use molot.Auction.Aggregate
use molot.Auction.Aggregate.{Auction, unmarshal_from_database, accept_bid, minimal_next_bid}
use molot.Auction.Acceptance.{accept_bid_fields}
use molot.Auction.Bid.{Bid, new_bid}
use molot.Auction.Commands as Commands
use molot.Auction.Commands.{first}
use molot.Auction.Repository
use molot.Auction.Repository.{Auctions, cloned, update_by}
use molot.Auction.Requests.{offer_of}
use molot.Auction.Http.{PlaceBidBody, offer_arguments, place_bid}

never_ok : (e : Error) → Commands.map_place_bid_error e ≢ ok tt
unfolding Commands.map_place_bid_error
never_ok e h = ground arith

bid_made :
    (id : BidId) (bidder : BidderId) (amount : Money) (now : Time) {bid : Bid}
    → new_bid id bidder amount now ≡ ok bid
    → bid ≡ record { id = id; bidder = bidder; amount = amount; placed_at = now }
unfolding new_bid
bid_made id bidder amount now h = ground arith

-- The bid that the aggregate makes is its leading bid.
bid_leads :
    (a : Auction) (bid_id : BidId) (b : Bidder) (amount : Money) (now : Time) {t : Auction}
    → first (Aggregate.place_bid a bid_id b amount now) ≡ ok t
    → t.leading_bid ≡ record { id = bid_id; bidder = b.id; amount = amount; placed_at = now }
unfolding Aggregate.place_bid
bid_leads a bid_id b amount now {t} h = elim (Result-cases (minimal_next_bid a)) [
  | inl (minimum, computed) ↦ elim (Result-cases (new_bid bid_id b.id amount now)) [
    | inl (bid, made) ↦
        let same : t ≡ accept_bid a bid now = ground (arith, computed, made) in
        ap (λ x. x.leading_bid) same
        ∙ (accept_bid_fields a bid now).1
        ∙ bid_made bid_id b.id amount now made
    | inr unfit ↦ absurd (ground (arith, computed, unfit))
  ]
  | inr failed ↦ absurd (ground (arith, failed))
]

cloned_bids : (t : Auction) {u : Auction} → cloned t ≡ ok u → u.leading_bid ≡ t.leading_bid
unfolding cloned unmarshal_from_database
cloned_bids t h = ground arith

-- The stored auction after a bid that the command accepted.
abbrev Leads : AuctionId → Bid → Auctions → Type 0
Leads id bid m = (u : Auction) × (Store.lookup id m ≡ some u) × (u.leading_bid ≡ bid)

updated :
    (id : AuctionId) (bid_id : BidId) (b : Bidder) (bidder : BidderId) (amount : Money) (now : Time)
    (m : Auctions) {m' : Auctions}
    → update_by id bidder (λ a. first (Aggregate.place_bid a bid_id b amount now)) m ≡ (ok tt, m')
    → Leads id (record { id = bid_id; bidder = b.id; amount = amount; placed_at = now }) m'
unfolding update_by Repository.update
updated id bid_id b bidder amount now m {m'} h = elim (Bool-cases (is_nil bidder)) [
  | inl nobody ↦ absurd (ground (arith, nobody))
  | inr someone ↦
      let (s, t, u, found, made, kept, same) =
        Table.update_ok not_found cloned id (λ a. first (Aggregate.place_bid a bid_id b amount now))
          m {m' = m'} (ground (arith, someone)) in
      (
        u,
        ap (Store.lookup id) same ∙ Store.lookup-insert_self id u m,
        cloned_bids t kept ∙ bid_leads s bid_id b amount now made,
      )
]

placed :
    (profile : Result (Fault Error) Bidder) (id : AuctionId) (bid_id : BidId) (bidder : BidderId)
    (amount : Money) (now : Time) (m : Auctions) {m' : Auctions}
    → Commands.place_bid profile id bid_id bidder amount now m ≡ (ok tt, m')
    → (b : Bidder) × (profile ≡ ok b)
      × Leads id (record { id = bid_id; bidder = b.id; amount = amount; placed_at = now }) m'
unfolding Commands.place_bid
placed (err e) id bid_id bidder amount now m h = absurd (ground arith)
placed panic id bid_id bidder amount now m h = absurd (ground arith)
placed (ok b) id bid_id bidder amount now m {m'} h =
    let f : Auction → Result Error Auction =
      λ a. first (Aggregate.place_bid a bid_id b amount now) in
    elim (Result-cases (update_by id bidder f m).0) [
      | inl (x, stored) ↦
          (b, refl, updated id bid_id b bidder amount now m {m' = m'} (ground (arith, stored)))
      | inr (inl (e, failed)) ↦ absurd (never_ok e (ground (arith, failed)))
      | inr (inr panics) ↦ absurd (ground (arith, panics))
    ]

-- When PlaceBid of the HTTP port answers with success, the table has the auction with the bid of
-- the request leading: its identity, the caller as bidder, its amount and currency, placed at the
-- time of the command; where the profiles are those of the bidders that were asked for.
pub bid_request_leads :
    (uuids : UuidText) (profile : BidderId → Result (Fault Error) Bidder) (user : User) (id : Uuid)
    (body : PlaceBidBody) (now : Time) (m : Auctions) {m' : Auctions} {location : Text}
    → ((k : BidderId) (b : Bidder) → profile k ≡ ok b → b.id ≡ k)
    → place_bid uuids profile (some user) id body now m ≡ (ok location, m')
    → (a : Auction) × (Store.lookup id m' ≡ some a)
      × (a.leading_bid ≡ record {
        id = body.bid_id;
        bidder = user.id;
        amount = record { amount = body.amount_minor; currency = body.currency };
        placed_at = now;
      })
unfolding place_bid
bid_request_leads uuids profile user id body now m {m'} names h =
    elim (Result-cases (offer_arguments (some user) id body)) [
      | inl (o, read) ↦
          let amount : Money = record { amount = body.amount_minor; currency = body.currency } in
          let bid_by : BidderId → Bid =
            λ k. record { id = body.bid_id; bidder = k; amount = amount; placed_at = now } in
          let read' = read ∙ ap ok (offer_of user id body read) in
          let command = Commands.place_bid (profile user.id) id body.bid_id user.id amount now m in
          elim (Result-cases command.0) [
            | inl (x, done) ↦
                let (b, found, leads) =
                  placed (profile user.id) id body.bid_id user.id amount now m {m' = m'}
                    (ground (arith, read', done)) in
                subst (λ k. Leads id (bid_by k) m') (names user.id b found) leads
            | inr failed ↦ absurd (ground (arith, read', failed))
          ]
      | inr refused ↦ absurd (ground (arith, refused))
    ]
