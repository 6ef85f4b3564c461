-- ===== src/Auction/Events.antt =====
-- internal/auction/domain/auction/events.go: what the aggregate records for its repository.
use molot.Base.{Bool}
use molot.Time.{Time}
use molot.Auction.Ids.{AuctionId}
use molot.Auction.Bid.{Bid}
use molot.Auction.Status.{ClosingResult, FailureReason}

pub data DomainEvent : Type 0 where
  auction_listed : (occurred_at : Time) → DomainEvent
  bid_placed :
      (bid outbid : Bid) (new_ends_at : Time) (extended : Bool) (occurred_at : Time) → DomainEvent
  auction_extended : (new_ends_at occurred_at : Time) → DomainEvent
  auction_cancelled : (occurred_at : Time) → DomainEvent
  auction_closed : (result : ClosingResult) (occurred_at : Time) → DomainEvent
  winner_reassigned : (new_winner : Bid) (occurred_at : Time) → DomainEvent
  auction_relisted :
      (original_id new_id : AuctionId) (starts_at ends_at occurred_at : Time) → DomainEvent
  sale_settled : (occurred_at : Time) → DomainEvent
  sale_failed : (reason : FailureReason) (occurred_at : Time) → DomainEvent
