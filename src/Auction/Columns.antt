-- ===== src/Auction/Columns.antt =====
-- The columns of an auction's row, written and read again
-- (internal/auction/adapters/auction_pg_repository.go).
use molot.Base.{
  ◌≡◌, ◌≢◌, ◌⊎◌, ◌≤◌, inl, inr, refl, sym, subst, true, false, none, some, [], ok, arith,
  if◌then◌else◌,
}
use molot.Int64
use molot.Text
use molot.Text.{Text, text}
use molot.Time
use molot.Time.{Duration}
use molot.Uuid.{Uuid, is_nil}
use molot.Auction.Ids.{new_auction_id, new_bidder_id, new_bid_id}
use molot.Auction.Money.{Currency, new_currency, new_money}
use molot.Auction.Bid
use molot.Auction.Bid.{Bid, no_bid, new_bid}
use molot.Auction.Reserve as Reserve
use molot.Auction.Reserve.{ReservePrice, new_reserve_price, no_reserve}
use molot.Auction.Schedule.{unmarshal_bidding_window}
use molot.Auction.Status.{
  Status, unset, listed, cancelled, closed, Outcome, undecided, sold, not_sold,
}
use molot.Auction.Integration.{outcome_string}
use molot.Auction.Aggregate.{Auction}
use molot.Auction.Invariant.{IsValid}
use molot.Auction.Row.{
  status_string, new_status_from_string, new_outcome_from_string, outcome_column,
  outcome_from_column, bid_columns, bid_from_columns, reserve_from_column, relist_from_column,
}

-- A bid of an auction, or none.
abbrev pub IsKept : Currency → Bid → Type 0
IsKept currency b =
    (b ≡ no_bid)
    ⊎ ((Bid.is_zero b ≡ false)
        × (b.amount.currency ≡ currency)
        × (Int64.is_neg b.amount.amount ≡ false)
        × (new_bid b.id b.bidder b.amount b.placed_at ≡ ok b))

-- An auction whose parts the constructors made.
pub record IsStorable (a : Auction) : Type 0 where
  pub valid : IsValid a
  pub named : Text.is_empty (Text.trim_space a.lot.title) ≡ false
  pub code : new_currency a.start_price.currency ≡ ok a.start_price.currency
  pub reserved :
      (a.reserve ≡ no_reserve)
      ⊎ ((a.reserve.price.currency ≡ a.start_price.currency)
          × (Int64.is_pos a.reserve.price.amount ≡ true))
  pub starts : Time.is_zero a.window.starts_at ≡ false
  pub leading_kept : IsKept a.start_price.currency a.leading_bid
  pub runner_up_kept : IsKept a.start_price.currency a.runner_up_bid
  pub counted : Int64.lt a.version 1 ≡ false
  pub drained : a.events ≡ []

pub status_again : (s : Status) → s ≢ unset → new_status_from_string (status_string s) ≡ ok s
unfolding new_status_from_string status_string Text.eq
status_again listed h = refl
status_again cancelled h = refl
status_again closed h = refl
status_again unset h = absurd (h refl)

pub outcome_again : (o : Outcome) → outcome_from_column (outcome_column o) ≡ ok o
unfolding new_outcome_from_string outcome_string Text.eq
outcome_again undecided = refl
outcome_again sold = refl
outcome_again not_sold = refl

pub bid_again :
    (currency : Currency) (b : Bid)
    → Text.is_empty currency ≡ false
    → IsKept currency b
    → bid_from_columns (bid_columns b) currency ≡ ok b
unfolding bid_from_columns new_bid new_bid_id new_bidder_id new_money
bid_again currency b set (inl none_yet) =
    subst (λ x. bid_from_columns (bid_columns x) currency ≡ ok x) (sym none_yet) refl
bid_again currency b set (inr (kept, same, sign, made)) =
    ground (arith, set, kept, same, sign, made)

pub reserve_again :
    (currency : Currency) (r : ReservePrice)
    → Text.is_empty currency ≡ false
    → (r ≡ no_reserve) ⊎ ((r.price.currency ≡ currency) × (Int64.is_pos r.price.amount ≡ true))
    → reserve_from_column (if Reserve.is_zero r then none else some r.price.amount) currency ≡ ok r
unfolding new_reserve_price new_money
reserve_again currency r set (inl no_minimum) =
    subst
      (λ x.
        reserve_from_column (if Reserve.is_zero x then none else some x.price.amount) currency
        ≡ ok x)
      (sym no_minimum) refl
reserve_again currency r set (inr (same, positive)) = ground (arith, set, same, positive)

pub relist_again : (id : Uuid) → relist_from_column (if is_nil id then none else some id) ≡ ok id
unfolding new_auction_id
relist_again id = ground arith

pub window_again :
    (a : Auction)
    → IsValid a
    → Time.is_zero a.window.starts_at ≡ false
    → unmarshal_bidding_window a.window.starts_at a.window.ends_at a.window.original_ends_at
      ≡ ok a.window
unfolding unmarshal_bidding_window
window_again a v h =
    let s = v.scheduled in
    let later : a.window.original_ends_at ≤ a.window.ends_at = omega (arith, s.ends_at_eq) in
    ground (arith, s.starts_first, later)
