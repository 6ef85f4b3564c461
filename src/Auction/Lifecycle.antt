-- ===== src/Auction/Lifecycle.antt =====
-- The factories and the other methods keep the invariant.
use molot.Base.{ℕ, ◌<◌, ◌≡◌, ◌≢◌, true, false, arith, ok}
use molot.Int64
use molot.Text
use molot.Text.{Text}
use molot.Time.{Time, Duration}
use molot.Uuid.{nil}
use molot.Auction.Ids.{AuctionId, SellerId}
use molot.Auction.Money.{Money, Currency, new_money}
use molot.Auction.Lot.{Lot}
use molot.Auction.Bid.{Bid}
use molot.Auction.Reserve.{ReservePrice}
use molot.Auction.Schedule.{BiddingWindow, new_bidding_window}
use molot.Auction.AntiSnipe.{AntiSnipePolicy, new_anti_snipe_policy}
use molot.Auction.ListingRules.{ListingRules, new_listing_rules}
use molot.Auction.Status.{FailureReason, ClosingResult}
use molot.Auction.Aggregate.{
  Auction, new, listing_of, relisted_from, cancel, close, award_to_runner_up, confirm_settlement,
  fail_sale,
}
use molot.Auction.Invariant.{IsValid}

-- Rules whose parts come from their constructors.
pub record IsRules (r : ListingRules) : Type 0 where
  pub verify_nonneg : Int64.IsNat r.verify_above.amount
  pub verify_currency : r.verify_above.currency ≡ r.currency
  pub has_currency : Text.is_empty r.currency ≡ false
  pub window_pos : Int64.is_pos r.anti_snipe.window ≡ true
  pub extension_pos : Int64.is_pos r.anti_snipe.extension ≡ true
  pub extensions_nonneg : Int64.IsNat r.anti_snipe.max_extensions

-- The constructors of the value objects make such rules.
pub new_listing_rules-IsRules :
    (threshold : ℕ) (c d : Currency) (window extension : Duration) (max : ℕ) {v : Money}
    {p : AntiSnipePolicy} {r : ListingRules}
    → new_money threshold c ≡ ok v
    → new_anti_snipe_policy window extension max ≡ ok p
    → new_listing_rules d v p ≡ ok r
    → IsRules r
unfolding new_money new_anti_snipe_policy new_listing_rules
new_listing_rules-IsRules threshold c d window extension max e f g =
    ground (arith, Text.eq_sound c d)

-- A window as `NewBiddingWindow` makes it.
abbrev pub IsFresh : BiddingWindow → Type 0
IsFresh w = (w.starts_at < w.ends_at) × (w.ends_at ≡ w.original_ends_at)

pub new_bidding_window-IsFresh :
    (starts_at ends_at : Time) {w : BiddingWindow}
    → new_bidding_window starts_at ends_at ≡ ok w
    → IsFresh w
unfolding new_bidding_window
new_bidding_window-IsFresh starts_at ends_at h = ground arith

module _ (id : AuctionId) (seller : SellerId) (lot : Lot) (start_price increment : Money)
    (reserve : ReservePrice) (window : BiddingWindow) (rules : ListingRules) (now : Time)
    {a : Auction}
    (made : new id seller lot start_price increment reserve window rules now ≡ ok a) where
  -- What the checks of `New` leave.
  new_checked :
      (id ≢ nil)
      × (seller ≢ nil)
      × (Int64.is_pos start_price.amount ≡ true)
      × (Text.eq start_price.currency rules.currency ≡ true)
      × (Int64.is_pos increment.amount ≡ true)
      × (Text.eq increment.currency start_price.currency ≡ true)
  unfolding new
  new_checked = ground arith

  new_made : a ≡ listing_of id seller lot start_price increment reserve window rules now
  unfolding new
  new_made = ground arith

  -- A new auction satisfies the invariant.
  pub new-IsValid : IsRules rules → IsFresh window → IsValid a
  unfolding listing_of
  new-IsValid r f =
      let (i, s, sp, sc, ip, ic) = new_checked in
      let es = Text.eq_sound start_price.currency rules.currency sc in
      let ei = Text.eq_sound increment.currency start_price.currency ic in
      rw new_made (record {
        listing = ground arith;
        scheduled = ground arith;
        ordered = ground arith;
        settling = ground arith;
      })

  pub new-bid_count : a.bid_count ≡ 0
  unfolding listing_of
  new-bid_count = rw new_made

pub relisted_from-bid_count :
    (a : Auction) (id : AuctionId) (window : BiddingWindow) (now : Time) {b : Auction}
    → relisted_from a id window now ≡ ok b
    → b.bid_count ≡ 0
unfolding relisted_from
relisted_from-bid_count a id window now h = ground arith

module _ (a : Auction) (now : Time) (v : IsValid a) where
  pub relisted_from-IsValid :
      (id : AuctionId) (window : BiddingWindow) {b : Auction}
      → IsFresh window
      → relisted_from a id window now ≡ ok b
      → IsValid b
  unfolding relisted_from
  relisted_from-IsValid id window f h = ground arith

  pub cancel-IsValid : (by : SellerId) {b : Auction} → cancel a by now ≡ ok b → IsValid b
  unfolding cancel
  cancel-IsValid by h = ground arith

  pub close-IsValid : {p : Auction × ClosingResult} → close a now ≡ ok p → IsValid p.0
  unfolding close
  close-IsValid h = ground arith

  pub award_to_runner_up-IsValid :
      {p : Auction × Bid} → award_to_runner_up a now ≡ ok p → IsValid p.0
  unfolding award_to_runner_up
  award_to_runner_up-IsValid h = ground arith

  pub confirm_settlement-IsValid : {b : Auction} → confirm_settlement a now ≡ ok b → IsValid b
  unfolding confirm_settlement
  confirm_settlement-IsValid h = ground arith

  pub fail_sale-IsValid :
      (reason : FailureReason) {b : Auction} → fail_sale a reason now ≡ ok b → IsValid b
  unfolding fail_sale
  fail_sale-IsValid reason h = ground arith
