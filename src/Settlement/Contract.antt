-- ===== src/Settlement/Contract.antt =====
-- A closing of the auction context as the saga receives it: internal/auction/adapters/events_mapper.go,
-- then internal/settlement/ports/events.go, then internal/settlement/app/handlers.go.
use molot.Base.{
  ◌≡◌, ◌≢◌, refl, ap, ◌∙◌, inl, inr, false, some, ok, arith, Bool-cases, Result-cases,
  if◌then◌else◌,
}
use molot.Int64
use molot.Text
use molot.Text.{Text, text}
use molot.Time.{Time}
use molot.Uuid.{UuidText, nil, is_nil}
use molot.Auction.Bid
use molot.Auction.Bid.{Bid}
use molot.Auction.Status
use molot.Auction.Status.{ClosingResult}
use molot.Auction.Aggregate.{Auction, close}
use molot.Auction.Invariant.{IsValid, IsBidOf}
use molot.Auction.Integration.{closed_event, amount_of}
use molot.Settlement.Money
use molot.Settlement.Money.{Money, new_currency, new_money}
use molot.Settlement.Closing.{Closing, sold, new_outcome_from_string}
use molot.Settlement.Ids.{UuidLib}
use molot.Settlement.Saga.{Settlement, start}
use molot.Settlement.Handlers.{ClosedAuction, build_closing}
use molot.Settlement.Ports.{closed_auction}
use molot.Settlement.Received.{bidder_of, received, sale_made, sale_received}
use molot.Settlement.Built.{closing_of, sale_built}

second_minor :
    (a : Auction)
    → (if Bid.is_zero a.runner_up_bid then Money.zero_money else record {
      amount = a.runner_up_bid.amount.amount;
      currency = a.start_price.currency;
    }).amount
      ≡ amount_of a.runner_up_bid
second_minor a = elim (Bool-cases (Bid.is_zero a.runner_up_bid)) [
  | inl absent ↦ ground (arith, absent)
  | inr there ↦ ground (arith, there)
]

-- A leader that is set is a bid.
leader_of : (a : Auction) → IsValid a → Bid.is_zero a.leading_bid ≡ false → IsBidOf a a.leading_bid
leader_of a valid set = valid.ordered.leads (grind (arith, valid.ordered.none_leads, set))

sold_read : new_outcome_from_string (text "sold") ≡ ok sold
unfolding new_outcome_from_string Text.eq
sold_read = refl

-- A saga has the terms of its closing.
starts :
    (c : Closing)
    → is_nil c.auction_id ≡ false
    → (s : Settlement) × (start c ≡ ok s)
      × (s.auction_id ≡ c.auction_id)
      × (s.winner ≡ c.winner)
      × (s.hammer ≡ c.hammer)
      × (s.runner_up ≡ c.runner_up)
      × (s.runner_up_amount ≡ c.runner_up_amount)
      × (s.runner_up_qualifies ≡ c.runner_up_qualifies)
      × (s.relist_gen ≡ c.relist_gen)
unfolding start
starts c set = elim (Result-cases (start c)) [
  | inl (s, made) ↦ (
    s,
    made,
    ground arith,
    ground arith,
    ground arith,
    ground arith,
    ground arith,
    ground arith,
    ground arith,
  )
  | inr failed ↦ absurd (ground arith)
]

-- A sale that Close decides on a valid auction, published as AuctionClosedV1 and read by the saga's
-- port, is a closing that the saga accepts: the event parses, it asks for a settlement, the closing
-- is built and the saga starts, with the auction's identity, its leading bid as winner and hammer
-- price in the auction's currency, its runner-up with amount and verdict (none where there is
-- none), and its count of relistings; where the bids kept have bidders with an identity, the
-- currency is one that NewCurrency makes, and that count is not negative.
pub sale_reaches_saga :
    (texts : UuidText) (uuids : UuidLib) (event_id : Text) (a b : Auction) (result : ClosingResult)
    (now : Time)
    → IsValid a
    → close a now ≡ ok (b, result)
    → result.outcome ≡ Status.sold
    → a.leading_bid.bidder ≢ nil
    → (Bid.is_zero a.runner_up_bid ≡ false → a.runner_up_bid.bidder ≢ nil)
    → new_currency a.start_price.currency ≡ ok a.start_price.currency
    → Int64.IsNat a.relist_gen
    → (e : ClosedAuction) × (c : Closing) × (s : Settlement) × (closed_auction texts
          (closed_event texts event_id b result now)
        ≡ some e)
      × (new_outcome_from_string e.outcome ≡ ok sold)
      × (build_closing uuids e ≡ ok c)
      × (start c ≡ ok s)
      × (s.auction_id ≡ a.id)
      × (s.winner ≡ a.leading_bid.bidder)
      × (s.hammer.amount ≡ a.leading_bid.amount.amount)
      × (s.hammer.currency ≡ a.start_price.currency)
      × (s.runner_up ≡ bidder_of a.runner_up_bid)
      × (s.runner_up_amount.amount ≡ amount_of a.runner_up_bid)
      × (s.runner_up_qualifies ≡ result.runner_up_qualifies)
      × (s.relist_gen ≡ a.relist_gen)
sale_reaches_saga texts uuids event_id a b result now valid done is_sale winner_set second_set
      currency_made generation =
    let (winner, second, set, fair) = sale_made a b result now done is_sale in
    let (invoice_id, invoice_set, built) =
      sale_built a valid result.runner_up_qualifies (leader_of a valid set) winner_set second_set
        fair currency_made generation uuids in
    let id_set : is_nil a.id ≡ false = ground (arith, valid.listing.has_id) in
    let c =
      closing_of a valid result.runner_up_qualifies (leader_of a valid set) winner_set second_set
        fair currency_made generation uuids invoice_id in
    let (s, started, same_id, same_winner, hammer, runner_up, amount, qualifies, gen) =
      starts c id_set in
    (
      received a result.runner_up_qualifies,
      c,
      s,
      sale_received a b result now done is_sale texts event_id,
      sold_read,
      built,
      started,
      same_id,
      same_winner,
      ap (λ x. x.amount) hammer,
      ap (λ x. x.currency) hammer,
      runner_up,
      ap (λ x. x.amount) amount ∙ second_minor a,
      qualifies,
      gen,
    )
