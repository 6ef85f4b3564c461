-- ===== src/Auction/Invariant.antt =====
-- What holds of an auction between two calls of its methods: its listing, its deadline, its two
-- bids and its settlement. The methods themselves are in molot.Auction.Aggregate.
use molot.Base.{◌+◌, ◌*◌, ◌≤◌, ◌<◌, ◌≡◌, ◌≢◌, ◌⊎◌, true, false}
use molot.Int64
use molot.Text
use molot.Uuid.{nil}
use molot.Auction.Bid
use molot.Auction.Bid.{Bid, no_bid}
use molot.Auction.Status.{listed, cancelled, closed, undecided, sold, not_sold}
use molot.Auction.Aggregate.{Auction}

-- The terms of the listing, which no method changes.
pub record IsListing (a : Auction) : Type 0 where
  pub has_id : a.id ≢ nil
  pub has_seller : a.seller ≢ nil
  pub has_currency : Text.is_empty a.start_price.currency ≡ false
  pub start_pos : 0 < a.start_price.amount
  pub start_nonneg : Int64.IsNat a.start_price.amount
  pub increment_pos : 0 < a.increment.amount
  pub increment_nonneg : Int64.IsNat a.increment.amount
  pub increment_currency : a.increment.currency ≡ a.start_price.currency
  pub verify_nonneg : Int64.IsNat a.verify_above.amount
  pub verify_currency : a.verify_above.currency ≡ a.start_price.currency
  pub window_pos : Int64.is_pos a.anti_snipe.window ≡ true
  pub extension_pos : Int64.is_pos a.anti_snipe.extension ≡ true
  pub extensions_nonneg : Int64.IsNat a.anti_snipe.max_extensions

-- The deadline is the original one, pushed once for each extension that was used.
pub record IsScheduled (a : Auction) : Type 0 where
  pub starts_first : a.window.starts_at < a.window.original_ends_at
  pub ends_at_eq :
      a.window.ends_at ≡ a.window.original_ends_at + a.extensions_used * a.anti_snipe.extension
  pub used_le : a.extensions_used ≤ a.anti_snipe.max_extensions

-- A bid that the auction can have accepted: another's than the seller's, in the listing's currency,
-- from the start price on, and with room for the next increment below 2 ^ 63.
pub record IsBidOf (a : Auction) (b : Bid) : Type 0 where
  pub is_set : Bid.is_zero b ≡ false
  pub not_seller : b.bidder ≢ a.seller
  pub same_currency : b.amount.currency ≡ a.start_price.currency
  pub from_start : a.start_price.amount ≤ b.amount.amount
  pub has_room : b.amount.amount + a.increment.amount < Int64.sign_bit

-- The two bids that are kept.
pub record IsOrdered (a : Auction) : Type 0 where
  pub count_nonneg : Int64.IsNat a.bid_count
  pub none_leads : a.bid_count ≡ 0 → a.leading_bid ≡ no_bid
  pub none_second : a.bid_count ≡ 0 → a.runner_up_bid ≡ no_bid
  pub leads : 0 < a.bid_count → IsBidOf a a.leading_bid
  pub second : Bid.is_zero a.runner_up_bid ≡ false → IsBidOf a a.runner_up_bid
  pub second_below :
      Bid.is_zero a.runner_up_bid ≡ false
      → a.runner_up_bid.amount.amount + a.increment.amount ≤ a.leading_bid.amount.amount
  pub second_other :
      Bid.is_zero a.runner_up_bid ≡ false → a.runner_up_bid.bidder ≢ a.leading_bid.bidder

-- The life of the sale.
pub record IsSettling (a : Auction) : Type 0 where
  pub known : (a.status ≡ listed) ⊎ (a.status ≡ cancelled) ⊎ (a.status ≡ closed)
  pub open_undecided : a.status ≡ listed → a.outcome ≡ undecided
  pub cancelled_bare : a.status ≡ cancelled → a.bid_count ≡ 0
  pub closed_decided : a.status ≡ closed → (a.outcome ≡ sold) ⊎ (a.outcome ≡ not_sold)
  pub sold_closed : a.outcome ≡ sold → a.status ≡ closed
  pub sold_has_bid : a.outcome ≡ sold → 0 < a.bid_count
  pub settled_closed : a.settled ≡ true → a.status ≡ closed
  pub reassigned_closed : a.winner_reassigned ≡ true → a.status ≡ closed
  pub one_reassignment : a.winner_reassigned ≡ true → a.runner_up_bid ≡ no_bid

pub record IsValid (a : Auction) : Type 0 where
  pub listing : IsListing a
  pub scheduled : IsScheduled a
  pub ordered : IsOrdered a
  pub settling : IsSettling a
