-- ===== src/Auction/History.antt =====
-- Every sequence of calls of an auction's methods, in any order and at any times.
use molot.Base.{ℕ, suc, ◌+◌, ◌*◌, ◌≤◌, ◌<◌, ◌≡◌, ◌≢◌, arith, ok, ap, [], refl}
use native.Mathlib.Nat.{le_trans}
use molot.Int64
use molot.Time.{Time}
use molot.Uuid.{nil}
use molot.Auction.Ids.{AuctionId, SellerId, BidId, Bidder}
use molot.Auction.Money.{Money}
use molot.Auction.Lot.{Lot}
use molot.Auction.Bid.{Bid, new_bid}
use molot.Auction.Reserve.{ReservePrice}
use molot.Auction.Schedule.{BiddingWindow}
use molot.Auction.ListingRules.{ListingRules}
use molot.Auction.Status.{FailureReason, ClosingResult}
use molot.Auction.Aggregate.{
  Auction, new, relisted_from, place_bid, cancel, close, award_to_runner_up, confirm_settlement,
  fail_sale,
}
use molot.Auction.Invariant.{IsValid}
use molot.Auction.Bidding.{bid_of, place_bid_only}
use molot.Auction.Acceptance.{accept_bid-IsValid, accept_bid_fields}
use molot.Auction.Lifecycle.{
  IsRules, IsFresh, new-IsValid, new-bid_count, relisted_from-bid_count, relisted_from-IsValid,
  cancel-IsValid, close-IsValid, award_to_runner_up-IsValid, confirm_settlement-IsValid,
  fail_sale-IsValid,
}

-- One successful call, or a trip through the repository, which drains the events and sets the
-- version. A bid's amount is an int64 that is not negative and leaves room for the next increment.
pub data Step : Auction → Auction → Type 0 where
  bids :
      {a b : Auction} {bid : Bid} (id : BidId) (who : Bidder) (amount : Money) (now : Time)
      → Int64.IsNat amount.amount
      → amount.amount + a.increment.amount < Int64.sign_bit
      → place_bid a id who amount now ≡ ok (b, bid)
      → Step a b
  cancels : {a b : Auction} (by : SellerId) (now : Time) → cancel a by now ≡ ok b → Step a b
  closes :
      {a b : Auction} {result : ClosingResult} (now : Time)
      → close a now ≡ ok (b, result)
      → Step a b
  awards :
      {a b : Auction} {bid : Bid} (now : Time) → award_to_runner_up a now ≡ ok (b, bid) → Step a b
  confirms : {a b : Auction} (now : Time) → confirm_settlement a now ≡ ok b → Step a b
  fails :
      {a b : Auction} (reason : FailureReason) (now : Time)
      → fail_sale a reason now ≡ ok b
      → Step a b
  stores :
      {a b : Auction} (version : ℕ) → b ≡ record a { version = version; events = [] } → Step a b

-- `Reach n a`: an auction after `n` calls, from a new one or from the relisting of another.
pub data Reach : ℕ → Auction → Type 0 where
  lists :
      {a : Auction} (id : AuctionId) (seller : SellerId) (lot : Lot) (start_price increment : Money)
      (reserve : ReservePrice) (window : BiddingWindow) (rules : ListingRules) (now : Time)
      → IsRules rules
      → IsFresh window
      → new id seller lot start_price increment reserve window rules now ≡ ok a
      → Reach 0 a
  relists :
      {n : ℕ} {orig a : Auction} (id : AuctionId) (window : BiddingWindow) (now : Time)
      → Reach n orig
      → IsFresh window
      → n < Int64.sign_bit
      → relisted_from orig id window now ≡ ok a
      → Reach 0 a
  calls : {n : ℕ} {a b : Auction} → Reach n a → Step a b → Reach (suc n) b

-- The identity of a bid that was accepted is set.
place_bid_id :
    (a : Auction) (id : BidId) (b : Bidder) (amount : Money) (now : Time) {p : Auction × Bid}
    → place_bid a id b amount now ≡ ok p
    → id ≢ nil
unfolding place_bid new_bid
place_bid_id a id b amount now h = ground arith

Step-accept :
    {a b : Auction} {bid : Bid} (id : BidId) (who : Bidder) (amount : Money) (now : Time)
    → IsValid a
    → Int64.IsNat amount.amount
    → amount.amount + a.increment.amount < Int64.sign_bit
    → place_bid a id who amount now ≡ ok (b, bid)
    → a.bid_count + 1 < Int64.sign_bit
    → IsValid b × (b.bid_count ≤ a.bid_count + 1)
Step-accept {a} {b} id who amount now v nonneg room h c =
    let (ad, e) = place_bid_only a id who amount now v.listing v.ordered nonneg h in
    let set = place_bid_id a id who amount now h in
    let made = bid_of id who amount now in
    rw (ap (λ (p : Auction × Bid). p.0) e) (
      accept_bid-IsValid a made now {b = who} v (ground arith) refl ad room c,
      omega (arith, (accept_bid_fields a made now).0, Int64.add_eq a.bid_count 1),
    )

-- A step that is no bid leaves the number of bids alone.
Step-same_count :
    {a b : Auction}
    → Step a b
    → IsValid a
    → a.bid_count + 1 < Int64.sign_bit
    → b.bid_count ≤ a.bid_count + 1
unfolding cancel close award_to_runner_up confirm_settlement fail_sale
Step-same_count (bids id who amount now nonneg room h) v c =
    (Step-accept id who amount now v nonneg room h c).1
Step-same_count (cancels by now h) v c = ground arith
Step-same_count (closes now h) v c = ground arith
Step-same_count (awards now h) v c = ground arith
Step-same_count (confirms now h) v c = ground arith
Step-same_count (fails reason now h) v c = ground arith
Step-same_count (stores version e) v c = ground arith

-- A step keeps the invariant.
pub Step-IsValid :
    {a b : Auction} → Step a b → IsValid a → a.bid_count + 1 < Int64.sign_bit → IsValid b
Step-IsValid (bids id who amount now nonneg room h) v c =
    (Step-accept id who amount now v nonneg room h c).0
Step-IsValid (cancels by now h) v c = cancel-IsValid _ now v by h
Step-IsValid (closes now h) v c = close-IsValid _ now v h
Step-IsValid (awards now h) v c = award_to_runner_up-IsValid _ now v h
Step-IsValid (confirms now h) v c = confirm_settlement-IsValid _ now v h
Step-IsValid (fails reason now h) v c = fail_sale-IsValid _ now v reason h
Step-IsValid (stores version e) v c = rw e (record {
  listing = ground arith;
  scheduled = ground arith;
  ordered = ground arith;
  settling = ground arith;
})

Reach-counted :
    {n : ℕ} {a : Auction} → Reach n a → n < Int64.sign_bit → IsValid a × (a.bid_count ≤ n)
Reach-counted (lists id seller lot start_price increment reserve window rules now r f h) small = (
  new-IsValid id seller lot start_price increment reserve window rules now h r f,
  omega (arith, new-bid_count id seller lot start_price increment reserve window rules now h),
)
Reach-counted (relists id window now r f few h) small = (
  relisted_from-IsValid _ now (Reach-counted r few).0 id window f h,
  omega (arith, relisted_from-bid_count _ id window now h),
)
Reach-counted (calls {n = n} {a = a} r s) small =
    let (v, c) = Reach-counted r (omega arith) in
    (Step-IsValid s v (omega arith), le_trans (Step-same_count s v (omega arith)) (omega arith))

-- From a new auction or a relisting, whatever calls of its methods follow and in whatever order,
-- the auction satisfies the invariant (its terms, its deadline, its two bids, its settlement), as
-- long as the calls are fewer than 2 ^ 63, each bid's amount is not negative, and each accepted bid
-- leaves room for the next increment below 2 ^ 63; the listing rules and the window are as their
-- constructors make them.
pub Reach-IsValid : {n : ℕ} {a : Auction} → Reach n a → n < Int64.sign_bit → IsValid a
Reach-IsValid r small = (Reach-counted r small).0

-- Along the same calls, and under the same bound on their number, the deadline never lies before
-- the original one, and never after it by more than max_extensions extensions.
pub Reach-deadline :
    {n : ℕ} {a : Auction}
    → Reach n a
    → n < Int64.sign_bit
    → (a.window.original_ends_at ≤ a.window.ends_at)
      × (a.window.ends_at
          ≤ a.window.original_ends_at + a.anti_snipe.max_extensions * a.anti_snipe.extension)
Reach-deadline r small =
    let v = Reach-IsValid r small in
    (
      omega (arith, v.scheduled.ends_at_eq),
      grind (arith, v.scheduled.ends_at_eq, v.scheduled.used_le),
    )
