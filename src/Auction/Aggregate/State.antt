-- ===== src/Auction/Aggregate/State.antt =====
-- internal/auction/domain/auction/auction.go: the state of an auction.
use molot.Base.{ℕ, Bool, List, [], ◌∷◌, ◌++◌}
use molot.Int64
use molot.Auction.Ids.{AuctionId, SellerId}
use molot.Auction.Money.{Money}
use molot.Auction.Bid.{Bid}
use molot.Auction.Lot.{Lot}
use molot.Auction.Reserve.{ReservePrice}
use molot.Auction.Schedule.{BiddingWindow}
use molot.Auction.AntiSnipe.{AntiSnipePolicy}
use molot.Auction.Status.{Status, Outcome}
use molot.Auction.Events.{DomainEvent}

pub record Auction : Type 0 where
  pub id : AuctionId
  pub seller : SellerId
  pub lot : Lot
  pub start_price : Money
  pub increment : Money
  pub reserve : ReservePrice
  pub window : BiddingWindow
  pub anti_snipe : AntiSnipePolicy
  pub verify_above : Money
  pub extensions_used : ℕ  -- int
  pub status : Status
  pub outcome : Outcome
  pub leading_bid : Bid
  pub runner_up_bid : Bid
  pub winner_reassigned : Bool
  pub bid_count : ℕ  -- int
  pub relist_of : AuctionId
  pub relist_gen : ℕ  -- int
  pub settled : Bool
  pub version : ℕ  -- int64
  pub events : List DomainEvent

-- `a.record(e)`: events are appended.
abbrev pub recorded : DomainEvent → Auction → Auction
recorded e a = record a { events = a.events ++ e ∷ [] }

-- `PullDomainEvents`
abbrev pub pull_domain_events : Auction → Auction
pull_domain_events a = record a { events = [] }

abbrev pub has_bids : Auction → Bool
has_bids a = Int64.is_pos a.bid_count
