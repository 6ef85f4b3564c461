-- ===== src/Settlement/Received.antt =====
-- A sale of the auction context as the event that the saga's port reads
-- (internal/auction/adapters/events_mapper.go and internal/settlement/ports/events.go).
use molot.Base.{
  ◌≡◌, ap, ◌∙◌, inl, inr, Bool, true, false, some, ok, arith, Bool-cases, if◌then◌else◌,
}
use molot.Text.{Text, text}
use molot.Time.{Time}
use molot.Uuid.{Uuid, UuidText, nil}
use molot.Auction.Bid
use molot.Auction.Bid.{Bid}
use molot.Auction.Status
use molot.Auction.Status.{ClosingResult}
use molot.Auction.Aggregate.{Auction, close, closing_result, meets_reserve, close_status}
use molot.Auction.Integration.{closed_event, outcome_string, bidder_text, amount_of}
use molot.Settlement.Handlers.{ClosedAuction}
use molot.Settlement.Ports.{closed_auction, parse_optional_event_uuid}

-- The bidder of a bid that may be absent, as an identity.
abbrev pub bidder_of : Bid → Uuid
bidder_of b = if Bid.is_zero b then nil else b.bidder

-- The closed auction that a sale is received as.
abbrev pub received : Auction → Bool → ClosedAuction
received a qualifies = record {
  auction_id = a.id;
  outcome = text "sold";
  winner_id = a.leading_bid.bidder;
  hammer_minor = a.leading_bid.amount.amount;
  currency = a.start_price.currency;
  runner_up_id = bidder_of a.runner_up_bid;
  runner_up_minor = if Bid.is_zero a.runner_up_bid then 0 else a.runner_up_bid.amount.amount;
  runner_up_qualifies = qualifies;
  relist_generation = a.relist_gen;
}

module _ (lib : UuidText) where
  open lib use {to_string, parse, to_string_set, parse-to_string}

  -- An identity that was written is read back, and an absent one as nil.
  optional_read : (b : Bid) → parse_optional_event_uuid lib (bidder_text lib b) ≡ some (bidder_of b)
  unfolding parse_optional_event_uuid
  optional_read b = elim (Bool-cases (Bid.is_zero b)) [
    | inl absent ↦ ground (arith, absent)
    | inr there ↦ ground (arith, there, to_string_set b.bidder, parse-to_string b.bidder)
  ]

module _ (a b : Auction) (result : ClosingResult) (now : Time) (done : close a now ≡ ok (b, result))
    (is_sale : result.outcome ≡ Status.sold) where
  pub sale_made :
      (result.winner ≡ a.leading_bid)
      × (result.runner_up ≡ a.runner_up_bid)
      × (Bid.is_zero a.leading_bid ≡ false)
      × (Bid.is_zero a.runner_up_bid ≡ true → result.runner_up_qualifies ≡ false)
  unfolding close close_status closing_result meets_reserve
  sale_made = (ground arith, ground arith, ground arith, λ h. ground arith)

  close_keeps : (b.id ≡ a.id) × (b.start_price ≡ a.start_price) × (b.relist_gen ≡ a.relist_gen)
  unfolding close close_status closing_result meets_reserve
  close_keeps = (ground arith, ground arith, ground arith)

  pub sale_received :
      (texts : UuidText) (event_id : Text)
      → closed_auction texts (closed_event texts event_id b result now)
        ≡ some (received a result.runner_up_qualifies)
  unfolding closed_auction closed_event outcome_string
  sale_received texts event_id =
      let (winner, second, set, none_qualifies) = sale_made in
      let (same_id, same_price, same_gen) = close_keeps in
      let is_id : texts.parse (texts.to_string b.id) ≡ some a.id =
        texts.parse-to_string b.id ∙ ap (λ x. some x) same_id in
      let is_winner : parse_optional_event_uuid texts (bidder_text texts result.winner)
          ≡ some a.leading_bid.bidder =
        optional_read texts result.winner
        ∙ ap (λ x. some (bidder_of x)) winner
        ∙ ap (λ x. some (if x then nil else a.leading_bid.bidder)) set in
      let is_second : parse_optional_event_uuid texts (bidder_text texts result.runner_up)
          ≡ some (bidder_of a.runner_up_bid) =
        optional_read texts result.runner_up ∙ ap (λ x. some (bidder_of x)) second in
      let hammer : amount_of result.winner ≡ a.leading_bid.amount.amount =
        ap amount_of winner ∙ ap (λ x. if x then 0 else a.leading_bid.amount.amount) set in
      let second_price : amount_of result.runner_up ≡ amount_of a.runner_up_bid =
        ap amount_of second in
      ground
        (arith, is_id, is_winner, is_second, hammer, second_price, same_price, same_gen, is_sale)
