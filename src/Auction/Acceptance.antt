-- ===== src/Auction/Acceptance.antt =====
-- An accepted bid keeps the invariant of the auction.
use molot.Base.{◌+◌, ◌≤◌, ◌<◌, ◌≡◌, ◌≢◌, ◌⊎◌, inl, inr, true, false, arith, Bool-cases, ◌∙◌}
use native.Mathlib.Nat.{le_trans}
use molot.Int64
use molot.Time
use molot.Time.{Time}
use molot.Auction.Ids.{Bidder}
use molot.Auction.Bid
use molot.Auction.Bid.{Bid}
use molot.Auction.Schedule.{extended_by}
use molot.Auction.Status.{listed}
use molot.Auction.Aggregate.{Auction, extends_at, extend_window, accept_bid}
use molot.Auction.Invariant.{IsListing, IsScheduled, IsBidOf, IsOrdered, IsSettling, IsValid}
use molot.Auction.Bidding.{IsAdmissible, next_amount, start-le-next_amount, leading-IsBidOf}

extension_nonneg : {a : Auction} → IsListing a → Int64.IsNat a.anti_snipe.extension
extension_nonneg l = ground (arith, l.extension_pos)

module _ (a : Auction) (bid : Bid) (now : Time) where
  extends_at-lt :
      IsListing a
      → IsScheduled a
      → extends_at a now ≡ true
      → a.extensions_used < a.anti_snipe.max_extensions
  unfolding extends_at
  extends_at-lt l s h = ground (
    arith,
    l.extensions_nonneg,
    s.used_le,
    Int64.lt_nat a.extensions_used a.anti_snipe.max_extensions,
  )

  accept_bid-IsListing : IsListing a → IsListing (accept_bid a bid now)
  unfolding accept_bid extend_window extended_by
  accept_bid-IsListing l = ground arith

  accept_bid-IsScheduled : IsListing a → IsScheduled a → IsScheduled (accept_bid a bid now)
  unfolding accept_bid extend_window extended_by
  accept_bid-IsScheduled l s = elim (Bool-cases (extends_at a now)) [
    | inl extended ↦
        let u = extends_at-lt l s extended in
        let e = Int64.add_eq a.extensions_used 1 (omega (arith, u, l.extensions_nonneg)) in
        let t = Time.add_nat a.window.ends_at a.anti_snipe.extension (extension_nonneg l) in
        rw extended (record {
          starts_first = s.starts_first;
          ends_at_eq = rw (t, e, s.ends_at_eq) (grind arith);
          used_le = rw e (omega (arith, u));
        })
    | inr kept ↦
        rw kept
          (record { starts_first = s.starts_first; ends_at_eq = s.ends_at_eq; used_le = s.used_le })
  ]

  accept_bid-IsBidOf : {b : Bid} → IsBidOf a b → IsBidOf (accept_bid a bid now) b
  unfolding accept_bid extend_window
  accept_bid-IsBidOf v = ground arith

  -- The two kept bids, whether or not the window was extended.
  pub accept_bid_fields :
      ((accept_bid a bid now).bid_count ≡ Int64.add a.bid_count 1)
      × ((accept_bid a bid now).leading_bid ≡ bid)
      × ((accept_bid a bid now).runner_up_bid ≡ a.leading_bid)
      × ((accept_bid a bid now).increment ≡ a.increment)
  unfolding accept_bid extend_window
  accept_bid_fields = ground arith

  accept_bid-IsOrdered :
      IsOrdered a
      → a.bid_count + 1 < Int64.sign_bit
      → IsBidOf a bid
      → (Bid.is_zero a.leading_bid ≡ true) ⊎ (a.leading_bid.bidder ≢ bid.bidder)
      → next_amount a ≤ bid.amount.amount
      → IsOrdered (accept_bid a bid now)
  accept_bid-IsOrdered o c v other enough =
      let (count, lead, second, inc) = accept_bid_fields in
      let e = count ∙ Int64.add_eq a.bid_count 1 (omega (arith, c)) in
      record {
        count_nonneg = rw e c;
        none_leads = λ z. absurd (omega (arith, e, z));
        none_second = λ z. absurd (omega (arith, e, z));
        leads = λ _. simp lead (accept_bid-IsBidOf v);
        second = λ h. simp second (accept_bid-IsBidOf (leading-IsBidOf o (rw second at h)));
        second_below = λ h. rw (second, lead, inc) (ground (arith, rw second at h));
        second_other = λ h. rw (second, lead) (ground (arith, rw second at h));
      }

  accept_bid-IsSettling : a.status ≡ listed → IsSettling a → IsSettling (accept_bid a bid now)
  unfolding accept_bid extend_window
  accept_bid-IsSettling e s = ground arith

  -- Accepting an admissible bid keeps the invariant, while the amount leaves room for the next
  -- increment and the counter for the next bid.
  pub accept_bid-IsValid :
      {b : Bidder}
      → IsValid a
      → Bid.is_zero bid ≡ false
      → bid.bidder ≡ b.id
      → IsAdmissible a b bid.amount now
      → bid.amount.amount + a.increment.amount < Int64.sign_bit
      → a.bid_count + 1 < Int64.sign_bit
      → IsValid (accept_bid a bid now)
  accept_bid-IsValid v set e h room count = record {
    listing = accept_bid-IsListing v.listing;
    scheduled = accept_bid-IsScheduled v.listing v.scheduled;
    ordered =
        accept_bid-IsOrdered v.ordered count
          (record {
            is_set = set;
            not_seller = rw e h.not_seller;
            same_currency = h.same_currency;
            from_start = le_trans (start-le-next_amount a v.ordered) h.enough;
            has_room = room;
          })
          (rw e h.not_leader) h.enough;
    settling = accept_bid-IsSettling h.is_listed v.settling;
  }
