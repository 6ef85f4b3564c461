-- ===== src/Auction/RowTrip.antt =====
-- What comes back of an auction that is written to its row and read again
-- (internal/auction/adapters/auction_pg_repository.go, `toPgAuction` and `toDomainAuction`).
use molot.Base.{
  ℕ, ◌*◌, ◌^◌, ◌≡◌, ◌≢◌, ◌⊎◌, ◌<◌, inl, inr, refl, ap, ◌∙◌, true, [], ok, err, ◌>>=◌, arith,
  Result-cases,
}
use molot.Int64
use molot.Auction.Errors.{invalid_anti_snipe_policy}
use molot.Auction.Ids.{new_auction_id, new_seller_id}
use molot.Auction.Money.{new_money}
use molot.Auction.Lot.{new_lot}
use molot.Auction.AntiSnipe.{AntiSnipePolicy, new_anti_snipe_policy}
use molot.Auction.Status.{unset}
use molot.Auction.Aggregate.{Auction, unmarshal_from_database}
use molot.Auction.Columns.{
  IsStorable, status_again, outcome_again, bid_again, reserve_again, relist_again, window_again,
}
use molot.Auction.Row.{Clockwork, to_pg_auction, to_domain_auction, of_seconds}

-- The parts that the constructors make again.
record Parts (a : Auction) : Type 0 where
  id_ok : new_auction_id a.id ≡ ok a.id
  seller_ok : new_seller_id a.seller ≡ ok a.seller
  lot_ok : new_lot a.lot.title a.lot.description ≡ ok a.lot
  start_ok : new_money a.start_price.amount a.start_price.currency ≡ ok a.start_price
  increment_ok : new_money a.increment.amount a.start_price.currency ≡ ok a.increment
  verify_ok : new_money a.verify_above.amount a.start_price.currency ≡ ok a.verify_above

parts : (a : Auction) → IsStorable a → Parts a
unfolding new_auction_id new_seller_id new_lot new_money
parts a v =
    let l = v.valid.listing in
    record {
      id_ok = ground (arith, l.has_id);
      seller_ok = ground (arith, l.has_seller);
      lot_ok = ground (arith, v.named);
      start_ok = ground (arith, l.has_currency, l.start_nonneg);
      increment_ok = ground (arith, l.has_currency, l.increment_nonneg, l.increment_currency);
      verify_ok = ground (arith, l.has_currency, l.verify_nonneg, l.verify_currency);
    }

unmarshal_again :
    (a : Auction) (policy : AntiSnipePolicy)
    → IsStorable a
    → unmarshal_from_database (record a { anti_snipe = policy; events = [] })
      ≡ ok (record a { anti_snipe = policy })
unfolding unmarshal_from_database
unmarshal_again a policy v =
    let l = v.valid.listing in
    ground (arith, l.has_id, l.has_seller, v.valid.settling.known, v.starts, v.counted, v.drained)

-- All but the policy of anti-sniping comes back.
row_again :
    (clockwork : Clockwork) (a : Auction)
    → IsStorable a
    → to_domain_auction (to_pg_auction clockwork a) ≡ (do
      policy ←
          new_anti_snipe_policy
            (of_seconds (clockwork.seconds a.anti_snipe.window))
            (of_seconds (clockwork.seconds a.anti_snipe.extension))
            a.anti_snipe.max_extensions
      ok (record a { anti_snipe = policy }))
unfolding to_domain_auction to_pg_auction
row_again clockwork a v =
    let p = parts a v in
    let set = v.valid.listing.has_currency in
    let known : a.status ≢ unset = λ h. ground (arith, v.valid.settling.known) in
    elim (Result-cases (
      new_anti_snipe_policy (of_seconds (clockwork.seconds a.anti_snipe.window))
        (of_seconds (clockwork.seconds a.anti_snipe.extension)) a.anti_snipe.max_extensions)) [
          | inl (policy, made) ↦
              rw
                (
                  p.id_ok,
                  p.seller_ok,
                  p.lot_ok,
                  v.code,
                  p.start_ok,
                  p.increment_ok,
                  reserve_again a.start_price.currency a.reserve set v.reserved,
                  window_again a v.valid v.starts,
                  made,
                  p.verify_ok,
                  status_again a.status known,
                  outcome_again a.outcome,
                  bid_again a.start_price.currency a.leading_bid set v.leading_kept,
                  bid_again a.start_price.currency a.runner_up_bid set v.runner_up_kept,
                  relist_again a.relist_of,
                )
                (unmarshal_again a policy v)
          | inr (inl (e, failed)) ↦
              rw
                (
                  p.id_ok,
                  p.seller_ok,
                  p.lot_ok,
                  v.code,
                  p.start_ok,
                  p.increment_ok,
                  reserve_again a.start_price.currency a.reserve set v.reserved,
                  window_again a v.valid v.starts,
                  failed,
                )
                refl
          | inr (inr panics) ↦
              rw
                (
                  p.id_ok,
                  p.seller_ok,
                  p.lot_ok,
                  v.code,
                  p.start_ok,
                  p.increment_ok,
                  reserve_again a.start_price.currency a.reserve set v.reserved,
                  window_again a v.valid v.starts,
                  panics,
                )
                refl
        ]

whole_again :
    (clockwork : Clockwork) (d k : ℕ)
    → Int64.is_pos d ≡ true
    → d ≡ k * 10 ^ 9
    → of_seconds (clockwork.seconds d) ≡ d
unfolding Int64.mul
whole_again clockwork d k pos e =
    let fits : Int64.IsNat (k * 10 ^ 9) = ground (arith, pos, e) in
    let read : clockwork.seconds d ≡ k = ap clockwork.seconds e ∙ clockwork.seconds_whole k fits in
    ground (arith, read, e, fits)

-- toDomainAuction makes of the row that toPgAuction makes of an auction that auction again, where
-- it satisfies the invariant and can be stored (its parts are such as the constructors make, and
-- its events are drained), the window and the extension of its anti-sniping are whole seconds, and
-- time.Duration.Seconds is exact on whole seconds.
pub row_trip :
    (clockwork : Clockwork) (a : Auction) (k l : ℕ)
    → IsStorable a
    → a.anti_snipe.window ≡ k * 10 ^ 9
    → a.anti_snipe.extension ≡ l * 10 ^ 9
    → to_domain_auction (to_pg_auction clockwork a) ≡ ok a
unfolding new_anti_snipe_policy
row_trip clockwork a k l v e f =
    let terms = v.valid.listing in
    row_again clockwork a v
    ∙ rw
        (
          whole_again clockwork a.anti_snipe.window k terms.window_pos e,
          whole_again clockwork a.anti_snipe.extension l terms.extension_pos f,
        )
        (ground (arith, terms.window_pos, terms.extension_pos, terms.extensions_nonneg))

-- toDomainAuction refuses the row that toPgAuction makes of an auction that satisfies the invariant
-- and can be stored but whose anti-sniping has a window or an extension below one second: the row
-- keeps whole seconds, and the zero policy is invalid.
pub row_refused :
    (clockwork : Clockwork) (a : Auction)
    → IsStorable a
    → (a.anti_snipe.window < 10 ^ 9) ⊎ (a.anti_snipe.extension < 10 ^ 9)
    → to_domain_auction (to_pg_auction clockwork a) ≡ err invalid_anti_snipe_policy
unfolding new_anti_snipe_policy Int64.mul
row_refused clockwork a v short = row_again clockwork a v ∙ elim short [
  | inl window ↦
      let none_left = clockwork.seconds_below a.anti_snipe.window window in
      ground (arith, none_left)
  | inr extension ↦
      let none_left = clockwork.seconds_below a.anti_snipe.extension extension in
      ground (arith, none_left)
]
