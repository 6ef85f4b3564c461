-- ===== src/Settlement/Built.antt =====
-- The closing that the saga builds from a sale (`buildClosing` of internal/settlement/app/handlers.go).
use molot.Base.{
  ℕ, ◌≡◌, ◌≢◌, inl, inr, Bool, true, false, ◌&&◌, ok, arith, Bool-cases, if◌then◌else◌,
}
use molot.Int64
use molot.Uuid.{Uuid, nil, is_nil}
use molot.Auction.Bid
use molot.Auction.Bid.{Bid}
use molot.Auction.Aggregate.{Auction}
use molot.Auction.Invariant.{IsValid, IsBidOf}
use molot.Settlement.Money
use molot.Settlement.Money.{Money, new_currency, new_money}
use molot.Settlement.Closing.{Closing, new_auction_id, new_bidder_id, new_closing}
use molot.Settlement.Ids.{UuidLib, invoice_id_for_attempt_lem}
use molot.Settlement.Handlers.{build_closing, runner_up_of}
use molot.Settlement.Received.{bidder_of, received}

-- What the saga needs beyond the invariant of the auction: bidders with identities, a currency that
-- a constructor made, and a count of relistings that is not negative.
module _ (a : Auction) (valid : IsValid a) (qualifies : Bool) (leads : IsBidOf a a.leading_bid)
    (winner_set : a.leading_bid.bidder ≢ nil)
    (second_set : Bid.is_zero a.runner_up_bid ≡ false → a.runner_up_bid.bidder ≢ nil)
    (fair : Bid.is_zero a.runner_up_bid ≡ true → qualifies ≡ false)
    (currency_made : new_currency a.start_price.currency ≡ ok a.start_price.currency)
    (generation : Int64.IsNat a.relist_gen) (uuids : UuidLib) where
  abbrev money : ℕ → Money
  money n = record { amount = n; currency = a.start_price.currency }

  money_made : (n : ℕ) → Int64.IsNat n → new_money n a.start_price.currency ≡ ok (money n)
  unfolding new_money
  money_made n h = ground (arith, valid.listing.has_currency)

  second_read :
      runner_up_of (received a qualifies) a.start_price.currency
      ≡ ok (
        bidder_of a.runner_up_bid,
        if Bid.is_zero a.runner_up_bid
            then Money.zero_money
            else money a.runner_up_bid.amount.amount,
      )
  unfolding runner_up_of new_bidder_id
  second_read = elim (Bool-cases (Bid.is_zero a.runner_up_bid)) [
    | inl absent ↦ ground (arith, absent)
    | inr there ↦
        let second = valid.ordered.second there in
        let set = second_set there in
        let made = money_made a.runner_up_bid.amount.amount (omega (arith, second.has_room)) in
        ground (arith, there, set, made)
  ]

  abbrev second_amount : Money
  second_amount =
      if Bid.is_zero a.runner_up_bid then Money.zero_money else money a.runner_up_bid.amount.amount

  -- The closing that the sale is read as.
  abbrev pub closing_of : Uuid → Closing
  closing_of invoice_id = record {
    auction_id = a.id;
    winner = a.leading_bid.bidder;
    hammer = money a.leading_bid.amount.amount;
    runner_up = bidder_of a.runner_up_bid;
    runner_up_amount = second_amount;
    runner_up_qualifies = qualifies;
    relist_gen = a.relist_gen;
    first_invoice = invoice_id;
  }

  second_agrees :
      (is_nil (bidder_of a.runner_up_bid) ≡ Money.is_zero second_amount)
      × ((is_nil (bidder_of a.runner_up_bid) && qualifies) ≡ false)
  second_agrees = elim (Bool-cases (Bid.is_zero a.runner_up_bid)) [
    | inl absent ↦ (ground (arith, absent), ground (arith, absent, fair absent))
    | inr there ↦
        let set = second_set there in
        (ground (arith, there, set, valid.listing.has_currency), ground (arith, there, set))
  ]

  closing_made :
      (invoice_id : Uuid)
      → invoice_id ≢ nil
      → new_closing a.id a.leading_bid.bidder
          (money a.leading_bid.amount.amount)
          (bidder_of a.runner_up_bid)
          second_amount
          qualifies
          a.relist_gen
          invoice_id
        ≡ ok (closing_of invoice_id)
  unfolding new_closing
  closing_made invoice_id set =
      let (agrees, fine) = second_agrees in
      let listing = valid.listing in
      ground
        (arith, listing.has_id, listing.has_currency, winner_set, set, generation, agrees, fine)

  pub sale_built :
      (invoice_id : Uuid) × (invoice_id ≢ nil)
      × (build_closing uuids (received a qualifies) ≡ ok (closing_of invoice_id))
  unfolding build_closing new_auction_id new_bidder_id
  sale_built =
      let (invoice_id, made, set) = invoice_id_for_attempt_lem uuids a.id 1 in
      let hammer = money_made a.leading_bid.amount.amount (omega (arith, leads.has_room)) in
      (
        invoice_id,
        set,
        ground (
          arith,
          valid.listing.has_id,
          winner_set,
          currency_made,
          hammer,
          second_read,
          made,
          closing_made invoice_id set,
        ),
      )
