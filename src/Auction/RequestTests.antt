-- ===== src/Auction/RequestTests.antt =====
-- A listing whose policy is in whole seconds and one that is not, as rows; a bid through its endpoint.
use molot.Base.{
  ℕ, ◌*◌, ◌/◌, ◌^◌, ◌≡◌, ◌<◌, inl, refl, true, false, Option, none, some, [], ◌∷◌, ◌++◌, Result, ok,
  err, arith,
}
use molot.Int64
use molot.Store
use molot.Slug.{Fault}
use molot.Table.{update, store_updated}
use molot.Text
use molot.Text.{Text, text}
use molot.Time
use molot.Time.{Time, Duration}
use molot.Uuid.{Uuid, UuidText}
use molot.Common.Auth.{User, user_from_ctx, role_bidder}
use molot.Auction.Errors.{Error, invalid_anti_snipe_policy}
use molot.Auction.Ids.{Bidder, BidderId, new_auction_id, new_bidder_id, new_bid_id}
use molot.Auction.Money.{Money, new_currency, new_money, gte, all_upper}
use molot.Auction.Bid.{no_bid, new_bid}
use molot.Auction.Reserve.{no_reserve}
use molot.Auction.Schedule.{is_open_at, extended_by}
use molot.Auction.Status.{undecided, listed}
use molot.Auction.AntiSnipe.{triggers_at}
use molot.Auction.Aggregate.{
  Auction, place_bid as bid_on, accept_bid, extends_at, extend_window, minimal_next_bid,
  unmarshal_from_database,
}
use molot.Auction.Repository
use molot.Auction.Repository.{Auctions, update_by, cloned}
use molot.Auction.Commands as Commands
use molot.Auction.Row.{Clockwork, to_pg_auction, to_domain_auction}
use molot.Auction.Columns.{IsStorable}
use molot.Auction.RowTrip.{row_trip, row_refused}
use molot.Auction.Http.{
  ListAuctionBody, PlaceBidBody, offer_arguments, list_auction, place_bid, cancel_auction,
}
use molot.Auction.ListingRules.{ListingRules}
use molot.Auction.Requests.{IsAtomic, requests_IsAtomic}
use molot.Auction.Placed.{bid_request_leads}

abbrev usd : ℕ → Money
usd n = record { amount = n; currency = text "USD" }

seconds_whole : (k : ℕ) → Int64.IsNat (k * 10 ^ 9) → (k * 10 ^ 9) / 10 ^ 9 ≡ k
seconds_whole k h = omega arith

seconds_below : (d : Duration) → d < 10 ^ 9 → d / 10 ^ 9 ≡ 0
seconds_below d h = omega arith

abbrev clockwork : Clockwork
clockwork = record {
  seconds = λ d. d / 10 ^ 9;
  seconds_whole = seconds_whole;
  seconds_below = seconds_below;
}

-- A lot under a policy, without a bid.
abbrev offered : Duration → Auction
offered d = record {
  id = 1;
  seller = 2;
  lot = record { title = text "Clock"; description = [] };
  start_price = usd 1000;
  increment = usd 100;
  reserve = no_reserve;
  window = record { starts_at = 10; ends_at = 100; original_ends_at = 100 };
  anti_snipe = record { window = d; extension = d; max_extensions = 2 };
  verify_above = usd 1000000;
  extensions_used = 0;
  status = listed;
  outcome = undecided;
  leading_bid = no_bid;
  runner_up_bid = no_bid;
  winner_reassigned = false;
  bid_count = 0;
  relist_of = 0;
  relist_gen = 0;
  settled = false;
  version = 1;
  events = [];
}

offered-IsStorable : (d : Duration) → Int64.is_pos d ≡ true → IsStorable (offered d)
unfolding new_currency Text.trim_space Int64.lt Text.len
offered-IsStorable d h = record {
  valid = record {
    listing = record {
      has_id = λ e. omega arith;
      has_seller = λ e. omega arith;
      has_currency = refl;
      start_pos = omega arith;
      start_nonneg = omega arith;
      increment_pos = omega arith;
      increment_nonneg = omega arith;
      increment_currency = refl;
      verify_nonneg = omega arith;
      verify_currency = refl;
      window_pos = h;
      extension_pos = h;
      extensions_nonneg = omega arith;
    };
    scheduled = record {
      starts_first = omega arith;
      ends_at_eq = omega arith;
      used_le = omega arith;
    };
    ordered = record {
      count_nonneg = omega arith;
      none_leads = λ e. refl;
      none_second = λ e. refl;
      leads = λ e. absurd (omega arith);
      second = λ e. absurd (ground arith);
      second_below = λ e. absurd (ground arith);
      second_other = λ e. absurd (ground arith);
    };
    settling = record {
      known = inl refl;
      open_undecided = λ e. refl;
      cancelled_bare = λ e. refl;
      closed_decided = λ e. absurd (ground arith);
      sold_closed = λ e. absurd (ground arith);
      sold_has_bid = λ e. absurd (ground arith);
      settled_closed = λ e. absurd (ground arith);
      reassigned_closed = λ e. absurd (ground arith);
      one_reassignment = λ e. absurd (ground arith);
    };
  };
  named = refl;
  code = refl;
  reserved = inl refl;
  starts = refl;
  leading_kept = inl refl;
  runner_up_kept = inl refl;
  counted = refl;
  drained = refl;
}

row_trip_example :
    to_domain_auction (to_pg_auction clockwork (offered 5_000_000_000)) ≡ ok (offered 5_000_000_000)
row_trip_example =
    row_trip clockwork (offered 5_000_000_000) 5 5 (offered-IsStorable 5_000_000_000 refl) refl refl

row_refused_example :
    to_domain_auction (to_pg_auction clockwork (offered 500_000_000))
    ≡ err invalid_anti_snipe_policy
row_refused_example =
    row_refused clockwork (offered 500_000_000) (offered-IsStorable 500_000_000 refl)
      (inl (omega arith))

-- A text of one sign for each identity.
abbrev read : Text → Option Uuid
read [] = none
read (u ∷ s) = some u

abbrev texts : UuidText
texts = record {
  to_string = λ u. u ∷ [];
  parse = read;
  to_string_set = λ u. refl;
  parse-to_string = λ u. refl;
}

abbrev profile : BidderId → Result (Fault Error) Bidder
profile k = ok (record { id = k; verified = false })

profile_names : (k : BidderId) (b : Bidder) → profile k ≡ ok b → b.id ≡ k
profile_names k b h = ground arith

abbrev alice : User
alice = record { id = 7; role = role_bidder }

abbrev body : PlaceBidBody
body = record { bid_id = 21; currency = text "USD"; amount_minor = 1000 }

abbrev lots : Auctions
lots = (1, offered 5_000_000_000) ∷ []

abbrev led : Auction
led = record (offered 5_000_000_000) {
  leading_bid = record { id = 21; bidder = 7; amount = usd 1000; placed_at = 50 };
  bid_count = 1;
  window = record { starts_at = 10; ends_at = 5_000_000_100; original_ends_at = 100 };
  extensions_used = 1;
  version = 2;
}

bid_answered :
    place_bid texts profile (some alice) 1 body 50 lots
    ≡ (ok (text "/api/auctions/" ++ (1 ∷ text "/bids/" ++ (21 ∷ []))), (1, led) ∷ [])
unfolding place_bid offer_arguments user_from_ctx new_auction_id new_bidder_id new_bid_id
    new_currency new_money Text.len Commands.place_bid update_by Repository.update update
    store_updated bid_on is_open_at minimal_next_bid gte new_bid accept_bid extends_at extend_window
    triggers_at extended_by cloned unmarshal_from_database Store.lookup Store.insert Int64.add
    Int64.neg Int64.lt Int64.le Text.eq Time.add all_upper
bid_answered = refl

bid_request_leads_example :
    (a : Auction) × (Store.lookup 1 ((1, led) ∷ []) ≡ some a)
    × (a.leading_bid ≡ record { id = 21; bidder = 7; amount = usd 1000; placed_at = 50 })
bid_request_leads_example =
    bid_request_leads texts profile alice 1 body 50 lots profile_names bid_answered

abbrev listing : ListAuctionBody
listing = record {
  id = 3;
  currency = text "USD";
  start_price_minor = 1000;
  increment_minor = 100;
  reserve_price_minor = none;
  title = text "Vase";
  description = none;
  starts_at = 60;
  ends_at = 160;
}

abbrev rules : ListingRules
rules = record {
  currency = text "USD";
  verify_above = usd 1000000;
  anti_snipe = record { window = 5; extension = 5; max_extensions = 2 };
}

requests_IsAtomic_example :
    IsAtomic (list_auction texts rules (some alice) listing 50) lots
    × IsAtomic (place_bid texts profile (some alice) 1 body 50) lots
    × IsAtomic (cancel_auction (some alice) 1 50) lots
requests_IsAtomic_example =
    requests_IsAtomic texts rules profile (some alice) listing 1 body 50 lots
