-- ===== src/Auction/Closing.antt =====
-- What `Close` (internal/auction/domain/auction/auction.go) decides.
use molot.Base.{◌+◌, ◌≤◌, ◌≡◌, ◌≢◌, true, false, arith, ok, sym, ap, ◌∙◌}
use molot.Int64
use molot.Text
use molot.Time.{Time}
use molot.Auction.Money.{Money}
use molot.Auction.Bid
use molot.Auction.Bid.{Bid, no_bid}
use molot.Auction.Reserve.{ReservePrice, met_by}
use molot.Auction.Status.{listed, closed, ClosingResult, sold}
use molot.Auction.Aggregate.{Auction, close, closing_result, meets_reserve}
use molot.Auction.Invariant.{IsOrdered, IsBidOf, IsValid}

-- A higher amount in the same currency meets the reserve too.
met_by_mono :
    (r : ReservePrice) (x y : Money)
    → x.currency ≡ y.currency
    → x.amount ≤ y.amount
    → Int64.IsNat y.amount
    → met_by r x ≡ true
    → met_by r y ≡ true
unfolding met_by Int64.le
met_by_mono r x y e h n m = ground (arith, ap (λ (c : Text.Text). Text.eq c r.price.currency) e)

-- Where there is a runner-up there is a leader.
leading_of_second :
    {a : Auction} → IsOrdered a → Bid.is_zero a.runner_up_bid ≡ false → IsBidOf a a.leading_bid
leading_of_second {a} o h = o.leads (grind (arith, o.none_second, h))

module _ {a b : Auction} {result : ClosingResult} (now : Time) (v : IsValid a)
    (done : close a now ≡ ok (b, result)) where
  close_made :
      (result ≡ closing_result a)
      × (a.status ≡ listed)
      × (a.window.ends_at ≤ now)
      × (b.status ≡ closed)
      × (b.outcome ≡ result.outcome)
      × (b.leading_bid ≡ a.leading_bid)
  unfolding close
  close_made = ground arith

  qualifies :
      result.runner_up_qualifies ≡ true
      → (Bid.is_zero a.runner_up_bid ≡ false) × (met_by a.reserve a.runner_up_bid.amount ≡ true)
  unfolding closing_result
  qualifies q = ground (arith, close_made.0)

  -- Of a valid auction, Close reports a qualifying runner-up only beside a sale; that bid is
  -- another bidder's than the winner's, it is lower by an increment at least, and it meets the
  -- reserve.
  pub close_qualifies :
      result.runner_up_qualifies ≡ true
      → (result.outcome ≡ sold)
        × (result.runner_up.bidder ≢ result.winner.bidder)
        × (result.runner_up.amount.amount + a.increment.amount ≤ result.winner.amount.amount)
        × (met_by a.reserve result.runner_up.amount ≡ true)
  unfolding closing_result meets_reserve
  close_qualifies q =
      let o = v.ordered in
      let (set, met) = qualifies q in
      let second = o.second set in
      let lead = leading_of_second o set in
      let above =
        met_by_mono a.reserve a.runner_up_bid.amount a.leading_bid.amount
          (second.same_currency ∙ sym lead.same_currency) (omega (arith, o.second_below set))
          (omega (arith, lead.has_room)) met in
      ground (arith, close_made.0, above, lead.is_set, o.second_other set, o.second_below set, met)
