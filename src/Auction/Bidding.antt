-- ===== src/Auction/Bidding.antt =====
-- Which bids `PlaceBid` (internal/auction/domain/auction/auction.go) accepts.
use molot.Base.{
  ℕ, ◌+◌, ◌≤◌, ◌<◌, ◌≡◌, ◌≢◌, ◌⊎◌, inl, inr, true, false, refl, arith, ok, Bool-cases, leb,
  if◌then◌else◌, sym, ◌∙◌,
}
use native.Mathlib.Nat.{le_refl}
use molot.Int64
use molot.Text
use molot.Time.{Time}
use molot.Uuid.{nil}
use molot.Auction.Ids.{BidId, Bidder}
use molot.Auction.Money
use molot.Auction.Money.{Money, gte, holds, holds_or_fails}
use molot.Auction.Bid
use molot.Auction.Bid.{Bid, new_bid}
use molot.Auction.Schedule.{is_open_at}
use molot.Auction.Status.{listed}
use molot.Auction.Aggregate.{Auction, minimal_next_bid, accept_bid, place_bid}
use molot.Auction.Invariant.{IsListing, IsOrdered, IsBidOf}

-- The lowest acceptable amount, as a number.
abbrev pub next_amount : Auction → ℕ
next_amount a =
    if Bid.is_zero a.leading_bid
    then a.start_price.amount
    else a.leading_bid.amount.amount + a.increment.amount

-- What a bid must meet, in terms of numbers.
pub record IsAdmissible (a : Auction) (b : Bidder) (amount : Money) (now : Time) : Type 0 where
  pub is_listed : a.status ≡ listed
  pub started : a.window.starts_at ≤ now
  pub not_over : now < a.window.ends_at
  pub not_seller : b.id ≢ a.seller
  pub not_leader : (Bid.is_zero a.leading_bid ≡ true) ⊎ (a.leading_bid.bidder ≢ b.id)
  pub same_currency : amount.currency ≡ a.start_price.currency
  pub enough : next_amount a ≤ amount.amount
  pub allowed : (b.verified ≡ true) ⊎ (amount.amount < a.verify_above.amount)

gte_nat :
    (m o : Money)
    → m.currency ≡ o.currency
    → Int64.IsNat m.amount
    → Int64.IsNat o.amount
    → gte m o ≡ ok (leb o.amount m.amount)
unfolding gte
gte_nat m o e hm ho = rw (e, Text.eq_refl o.currency, Int64.le_nat o.amount m.amount ho hm)

pub leading-IsBidOf :
    {a : Auction} → IsOrdered a → Bid.is_zero a.leading_bid ≡ false → IsBidOf a a.leading_bid
leading-IsBidOf {a} o h = o.leads (grind (arith, o.none_leads, h))

pub start-le-next_amount : (a : Auction) → IsOrdered a → a.start_price.amount ≤ next_amount a
start-le-next_amount a o = elim (Bool-cases (Bid.is_zero a.leading_bid)) [
  | inl none_yet ↦ rw none_yet (le_refl a.start_price.amount)
  | inr led ↦ rw led (omega (arith, (leading-IsBidOf o led).from_start))
]

-- In a valid auction `MinimalNextBid` does not panic, and its sum does not wrap.
minimal_next_bid_lem :
    {a : Auction}
    → IsListing a
    → IsOrdered a
    → minimal_next_bid a ≡ ok (record { amount = next_amount a; currency = a.start_price.currency })
unfolding minimal_next_bid Money.add
minimal_next_bid_lem {a} l o = elim (Bool-cases (Bid.is_zero a.leading_bid)) [
  | inl none_yet ↦ rw none_yet
  | inr led ↦
      let b = leading-IsBidOf o led in
      ground (
        arith,
        led,
        b.same_currency,
        l.increment_currency,
        b.has_room,
        Text.eq_refl a.start_price.currency,
        Int64.add_eq a.leading_bid.amount.amount a.increment.amount,
      )
]

-- The bid that `PlaceBid` makes.
abbrev pub bid_of : BidId → Bidder → Money → Time → Bid
bid_of id b amount now = record { id = id; bidder = b.id; amount = amount; placed_at = now }

module _ (a : Auction) (id : BidId) (b : Bidder) (amount : Money) (now : Time) (l : IsListing a)
    (o : IsOrdered a) (nonneg : Int64.IsNat amount.amount) where
  next_amount_nonneg : Int64.IsNat (next_amount a)
  next_amount_nonneg = elim (Bool-cases (Bid.is_zero a.leading_bid)) [
    | inl none_yet ↦ rw none_yet l.start_nonneg
    | inr led ↦ rw led (leading-IsBidOf o led).has_room
  ]

  minimum_test :
      amount.currency ≡ a.start_price.currency
      → holds (gte amount (record { amount = next_amount a; currency = a.start_price.currency }))
        ≡ leb (next_amount a) amount.amount
  minimum_test e =
      rw
        (gte_nat amount (record { amount = next_amount a; currency = a.start_price.currency }) e
          nonneg next_amount_nonneg)
        refl

  verify_test :
      amount.currency ≡ a.start_price.currency
      → holds_or_fails (gte amount a.verify_above) ≡ leb a.verify_above.amount amount.amount
  verify_test e =
      rw (gte_nat amount a.verify_above (e ∙ sym l.verify_currency) nonneg l.verify_nonneg) refl

  -- In an auction whose terms and bids satisfy the invariant, PlaceBid accepts every admissible bid
  -- of an amount that is not negative, where the identities of bid and bidder and the time are set.
  pub place_bid_admits :
      id ≢ nil
      → b.id ≢ nil
      → now ≢ 0
      → IsAdmissible a b amount now
      → place_bid a id b amount now
        ≡ ok (accept_bid a (bid_of id b amount now) now, bid_of id b amount now)
  unfolding place_bid is_open_at new_bid
  place_bid_admits hid hb hnow h = ground (
    arith,
    minimum_test h.same_currency,
    verify_test h.same_currency,
    minimal_next_bid_lem l o,
    Text.eq_refl a.start_price.currency,
    l.has_currency,
  )

  -- In an auction whose terms and bids satisfy the invariant, PlaceBid accepts a bid of an amount
  -- that is not negative only if the bid is admissible (the auction is listed and open, the bidder
  -- is neither the seller nor the leader, the currency is the listing's, the amount reaches the
  -- start price or the leading bid plus the increment, and an unverified bidder stays below the
  -- verification threshold), and its result is then the auction with that bid in the lead.
  pub place_bid_only :
      {p : Auction × Bid}
      → place_bid a id b amount now ≡ ok p
      → IsAdmissible a b amount now
        × (p ≡ (accept_bid a (bid_of id b amount now) now, bid_of id b amount now))
  unfolding place_bid is_open_at new_bid
  place_bid_only {p} h = elim (Bool-cases (Text.eq amount.currency a.start_price.currency)) [
    | inl same ↦
        let e = Text.eq_sound amount.currency a.start_price.currency same in
        let m = minimum_test e in
        let v = verify_test e in let n = minimal_next_bid_lem l o in (ground arith, ground arith)
    | inr differs ↦ absurd (ground arith)
  ]

-- The sum of the leading bid and the increment reaches 2 ^ 63.
pub record IsSaturated (a : Auction) : Type 0 where
  pub has_leader : Bid.is_zero a.leading_bid ≡ false
  pub leader_currency : a.leading_bid.amount.currency ≡ a.start_price.currency
  pub leader_nonneg : Int64.IsNat a.leading_bid.amount.amount
  pub over : Int64.sign_bit ≤ a.leading_bid.amount.amount + a.increment.amount

module _ (a : Auction) (id : BidId) (b : Bidder) (amount : Money) (now : Time) (l : IsListing a)
    (nonneg : Int64.IsNat amount.amount) (full : IsSaturated a) where
  -- The wrapped sum stands for a negative number.
  wrapped_minimum :
      (m : Money) × (minimal_next_bid a ≡ ok m)
      × (holds (gte amount m) ≡ Text.eq amount.currency a.start_price.currency)
  unfolding minimal_next_bid Money.add gte Int64.add Int64.le
  wrapped_minimum = (
    record {
      amount = Int64.add a.leading_bid.amount.amount a.increment.amount;
      currency = a.leading_bid.amount.currency;
    },
    ground (
      arith,
      full.has_leader,
      full.leader_currency,
      l.increment_currency,
      Text.eq_refl a.start_price.currency,
    ),
    ground (arith, full.leader_currency, full.over, full.leader_nonneg, l.increment_nonneg, nonneg),
  )

  verify_test' :
      amount.currency ≡ a.start_price.currency
      → holds_or_fails (gte amount a.verify_above) ≡ leb a.verify_above.amount amount.amount
  verify_test' e =
      rw (gte_nat amount a.verify_above (e ∙ sym l.verify_currency) nonneg l.verify_nonneg) refl

  -- In an open auction with sound terms, once the leading bid and the increment add up to 2 ^ 63 or
  -- more, MinimalNextBid wraps to a negative amount: PlaceBid then gives the lead to a bid of any
  -- amount that is not negative, where the bid passes the other checks (set identities and time,
  -- neither the seller nor the leader, the listing's currency, a verified bidder or an amount below
  -- the threshold).
  pub place_bid_wraps :
      id ≢ nil
      → b.id ≢ nil
      → now ≢ 0
      → a.status ≡ listed
      → a.window.starts_at ≤ now
      → now < a.window.ends_at
      → b.id ≢ a.seller
      → a.leading_bid.bidder ≢ b.id
      → amount.currency ≡ a.start_price.currency
      → (b.verified ≡ true) ⊎ (amount.amount < a.verify_above.amount)
      → place_bid a id b amount now
        ≡ ok (accept_bid a (bid_of id b amount now) now, bid_of id b amount now)
  unfolding place_bid is_open_at new_bid
  place_bid_wraps hid hb hnow li st en ns nl cu al =
      let (m, e, t) = wrapped_minimum in
      ground (arith, e, t, verify_test' cu, Text.eq_refl a.start_price.currency, l.has_currency)
