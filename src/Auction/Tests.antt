-- ===== src/Auction/Tests.antt =====
-- A lot with two bids, a close and each of the verdicts: the theorems at this auction.
use molot.Base.{
  some, ℕ, ◌+◌, ◌*◌, ◌≤◌, ◌≡◌, ◌≢◌, inr, true, false, refl, arith, ok, err, [], ◌∷◌, ◌++◌,
}
use molot.Int64
use molot.Text
use molot.Text.{text}
use molot.Time
use molot.Time.{Time}
use molot.Auction.Errors.{already_settled}
use molot.Auction.Ids.{Bidder}
use molot.Auction.Money
use molot.Auction.Money.{Money, gte}
use molot.Auction.Bid.{Bid, no_bid, new_bid}
use molot.Auction.Lot.{Lot}
use molot.Auction.Reserve.{no_reserve, met_by}
use molot.Auction.Schedule.{BiddingWindow, is_open_at, extended_by}
use molot.Auction.AntiSnipe.{triggers_at}
use molot.Auction.ListingRules.{ListingRules}
use molot.Auction.Events.{
  auction_listed, bid_placed, auction_extended, auction_closed, sale_settled, sale_failed,
  winner_reassigned as reassigned_event,
}
use molot.Auction.Status.{ClosingResult, undecided, listed, closed, sold, not_sold, payment_timeout}
use molot.Auction.Aggregate.{
  Auction, new, listing_of, place_bid, accept_bid, extends_at, extend_window, minimal_next_bid,
  close, close_status, closing_result, meets_reserve, require_closed, award_to_runner_up,
  confirm_settlement, fail_sale,
}
use molot.Store
use molot.Store.{IsIteration}
use molot.Auction.Worker.{tick}
use molot.Auction.Overdue.{tick_closes}
use molot.Auction.Invariant.{IsListing, IsValid}
use molot.Auction.Lifecycle.{IsRules}
use molot.Auction.Bidding.{IsAdmissible, bid_of, place_bid_admits, place_bid_only, place_bid_wraps}
use molot.Auction.History.{Reach, lists, calls, bids, Reach-IsValid, Reach-deadline}
use molot.Auction.Closing.{close_qualifies}
use molot.Auction.Finality.{done, confirm_settlement_final}

abbrev usd : ℕ → Money
usd n = record { amount = n; currency = text "USD" }

abbrev lot : Lot
lot = record { title = text "Clock"; description = [] }

abbrev hour : BiddingWindow
hour = record { starts_at = 10; ends_at = 100; original_ends_at = 100 }

abbrev rules : ListingRules
rules = record {
  currency = text "USD";
  verify_above = usd 1000000;
  anti_snipe = record { window = 20; extension = 30; max_extensions = 2 };
}

rules-IsRules : IsRules rules
rules-IsRules = record {
  verify_nonneg = omega arith;
  verify_currency = refl;
  has_currency = refl;
  window_pos = refl;
  extension_pos = refl;
  extensions_nonneg = omega arith;
}

abbrev empty_auction : Auction
empty_auction = record {
  id = 1;
  seller = 2;
  lot = lot;
  start_price = usd 1000;
  increment = usd 100;
  reserve = no_reserve;
  window = hour;
  anti_snipe = rules.anti_snipe;
  verify_above = usd 1000000;
  extensions_used = 0;
  status = listed;
  outcome = undecided;
  leading_bid = no_bid;
  runner_up_bid = no_bid;
  winner_reassigned = false;
  bid_count = 0;
  relist_of = 0;
  relist_gen = 0;
  settled = false;
  version = 1;
  events = auction_listed 5 ∷ [];
}

listed_ok : new 1 2 lot (usd 1000) (usd 100) no_reserve hour rules 5 ≡ ok empty_auction
unfolding new listing_of Text.eq
listed_ok = refl

empty-Reach : Reach 0 empty_auction
empty-Reach =
    lists 1 2 lot (usd 1000) (usd 100) no_reserve hour rules 5 rules-IsRules (omega arith, refl)
      listed_ok

abbrev alice : Bidder
alice = record { id = 7; verified = false }

abbrev bob : Bidder
bob = record { id = 8; verified = false }

abbrev pub first : Bid
first = bid_of 21 alice (usd 1000) 50

-- In the last 20 ns: the deadline moves by 30.
abbrev second : Bid
second = bid_of 22 bob (usd 1200) 85

abbrev one_bid : Auction
one_bid = record empty_auction {
  leading_bid = first;
  bid_count = 1;
  events = auction_listed 5 ∷ bid_placed first no_bid 100 false 50 ∷ [];
}

abbrev pub two_bids : Auction
two_bids = record one_bid {
  window = record hour { ends_at = 130 };
  extensions_used = 1;
  leading_bid = second;
  runner_up_bid = first;
  bid_count = 2;
  events = one_bid.events ++ auction_extended 130 85 ∷ bid_placed second first 130 true 85 ∷ [];
}

first_placed : place_bid empty_auction 21 alice (usd 1000) 50 ≡ ok (one_bid, first)
unfolding place_bid minimal_next_bid is_open_at new_bid gte accept_bid extends_at extend_window
    triggers_at extended_by Time.add Int64.add Int64.neg Int64.lt Int64.le Text.eq
first_placed = refl

second_placed : place_bid one_bid 22 bob (usd 1200) 85 ≡ ok (two_bids, second)
unfolding place_bid minimal_next_bid is_open_at new_bid gte accept_bid extends_at extend_window
    triggers_at extended_by Money.add Time.add Int64.add Int64.neg Int64.lt Int64.le Text.eq
second_placed = refl

one-Reach : Reach 1 one_bid
one-Reach = calls empty-Reach (bids 21 alice (usd 1000) 50 (omega arith) (omega arith) first_placed)

two-Reach : Reach 2 two_bids
two-Reach = calls one-Reach (bids 22 bob (usd 1200) 85 (omega arith) (omega arith) second_placed)

pub two-IsValid : IsValid two_bids
two-IsValid = Reach-IsValid two-Reach (omega arith)

one-IsValid : IsValid one_bid
one-IsValid = Reach-IsValid one-Reach (omega arith)

Reach-IsValid_example : IsValid two_bids
Reach-IsValid_example = Reach-IsValid two-Reach (omega arith)

Reach-deadline_example : (100 ≤ two_bids.window.ends_at) × (two_bids.window.ends_at ≤ 100 + 2 * 30)
Reach-deadline_example = Reach-deadline two-Reach (omega arith)

place_bid_admits_example :
    place_bid one_bid 22 bob (usd 1200) 85 ≡ ok (accept_bid one_bid second 85, second)
place_bid_admits_example =
    place_bid_admits one_bid 22 bob (usd 1200) 85 one-IsValid.listing one-IsValid.ordered
      (omega arith) (λ e. omega arith) (λ e. omega arith) (λ e. omega arith)
      (record {
        is_listed = refl;
        started = omega arith;
        not_over = omega arith;
        not_seller = λ e. omega arith;
        not_leader = inr (λ e. omega arith);
        same_currency = refl;
        enough = omega arith;
        allowed = inr (omega arith);
      })

place_bid_only_example :
    IsAdmissible one_bid bob (usd 1200) 85
    × (◌≡◌ {A = Auction × Bid} (two_bids, second) (accept_bid one_bid second 85, second))
place_bid_only_example =
    place_bid_only one_bid 22 bob (usd 1200) 85 one-IsValid.listing one-IsValid.ordered
      (omega arith) second_placed

-- A leading bid of 2 ^ 63 - 50 is overtaken by a bid of 1.
abbrev huge : Bid
huge = bid_of 21 alice (usd 9223372036854775758) 50

abbrev overflowing : Auction
overflowing = record empty_auction {
  leading_bid = huge;
  bid_count = 1;
  verify_above = usd 9223372036854775807;
}

overflowing-IsListing : IsListing overflowing
overflowing-IsListing = ground (arith, one-IsValid.listing)

place_bid_wraps_example :
    place_bid overflowing 22 bob (usd 1) 60
    ≡ ok (accept_bid overflowing (bid_of 22 bob (usd 1) 60) 60, bid_of 22 bob (usd 1) 60)
place_bid_wraps_example =
    place_bid_wraps overflowing 22 bob (usd 1) 60 overflowing-IsListing (omega arith)
      (record {
        has_leader = refl;
        leader_currency = refl;
        leader_nonneg = omega arith;
        over = omega arith;
      })
      (λ e. omega arith) (λ e. omega arith) (λ e. omega arith) refl (omega arith) (omega arith)
      (λ e. omega arith) (λ e. omega arith) refl (inr (omega arith))

abbrev pub sold_to_bob : ClosingResult
sold_to_bob = record {
  outcome = sold;
  winner = second;
  runner_up = first;
  runner_up_qualifies = true;
}

abbrev pub sale : Auction
sale = record two_bids {
  status = closed;
  outcome = sold;
  events = two_bids.events ++ auction_closed sold_to_bob 130 ∷ [];
}

pub two_closed : close two_bids 130 ≡ ok (sale, sold_to_bob)
unfolding close close_status closing_result meets_reserve met_by
two_closed = refl

close_qualifies_example :
    (sold ≡ sold)
    × (first.bidder ≢ second.bidder)
    × (first.amount.amount + 100 ≤ second.amount.amount)
    × (met_by no_reserve first.amount ≡ true)
close_qualifies_example = close_qualifies 130 two-IsValid two_closed refl

abbrev confirmed : Auction
confirmed = record sale { settled = true; events = sale.events ++ sale_settled 131 ∷ [] }

confirms_sale : confirm_settlement sale 131 ≡ ok confirmed
unfolding confirm_settlement require_closed
confirms_sale = refl

confirm_settlement_final_example :
    (confirmed.outcome ≡ sold)
    × (confirmed.leading_bid ≡ second)
    × (confirm_settlement confirmed 140 ≡ err already_settled)
    × (fail_sale confirmed payment_timeout 140 ≡ err already_settled)
confirm_settlement_final_example =
    confirm_settlement_final sale 131 140 {reason = payment_timeout} confirms_sale done (λ e. cc)

abbrev unsold : Auction
unsold = record sale {
  outcome = not_sold;
  settled = true;
  events = sale.events ++ sale_failed payment_timeout 131 ∷ [];
}

sale_failed_ok : fail_sale sale payment_timeout 131 ≡ ok unsold
unfolding fail_sale require_closed
sale_failed_ok = refl

abbrev pub awarded : Auction
awarded = record sale {
  leading_bid = first;
  runner_up_bid = no_bid;
  winner_reassigned = true;
  events = sale.events ++ reassigned_event first 131 ∷ [];
}

pub awards_sale : award_to_runner_up sale 131 ≡ ok (awarded, first)
unfolding award_to_runner_up require_closed
awards_sale = refl

abbrev awarded_sold : Auction
awarded_sold = record awarded { settled = true; events = awarded.events ++ sale_settled 135 ∷ [] }

award_confirmed : confirm_settlement awarded 135 ≡ ok awarded_sold
unfolding confirm_settlement require_closed
award_confirmed = refl

as_met-IsIteration : IsIteration {V = Auction} λ m. m
as_met-IsIteration = record { keeps = λ e m h. h; keeps_count = λ test m. refl }

two_there : Store.lookup 1 ((1, two_bids) ∷ []) ≡ some two_bids
unfolding Store.lookup
two_there = refl

tick_closes_example :
    (b : Auction) × (Store.lookup 1 (tick (λ m. m) 130 (λ id. 131) ((1, two_bids) ∷ [])) ≡ some b)
    × (b.status ≡ closed)
tick_closes_example =
    tick_closes (λ m. m) 130 (λ id. 131) ((1, two_bids) ∷ []) 1 two_bids as_met-IsIteration
      (omega arith) (omega arith) two_there two-IsValid (omega arith) refl (omega arith)
