-- ===== src/Settlement/ContractTests.antt =====
-- A sale to bob, with alice second, as the saga receives it.
use molot.Base.{◌≡◌, refl, arith, Option, none, some, ok, [], ◌∷◌}
use molot.Text.{Text, text}
use molot.Uuid.{Uuid, UuidText}
use molot.Auction.Integration.{closed_event, amount_of}
use molot.Auction.Tests.{two_bids, sale, sold_to_bob, two_closed, two-IsValid}
use molot.Settlement.Money.{new_currency, all_upper}
use molot.Text
use molot.Settlement.Closing.{Closing, sold, new_outcome_from_string}
use molot.Settlement.Saga.{Settlement, start}
use molot.Settlement.Handlers.{ClosedAuction, build_closing}
use molot.Settlement.Ports.{closed_auction}
use molot.Settlement.Received.{bidder_of}
use molot.Settlement.Contract.{sale_reaches_saga}
use molot.Settlement.Samples.{uuids}

-- A text of one sign for each identity: a stand-in for the library.
abbrev read : Text → Option Uuid
read [] = none
read (u ∷ s) = some u

abbrev texts : UuidText
texts = record {
  to_string = λ u. u ∷ [];
  parse = read;
  to_string_set = λ u. refl;
  parse-to_string = λ u. refl;
}

usd_made : new_currency two_bids.start_price.currency ≡ ok two_bids.start_price.currency
unfolding new_currency all_upper Text.len
usd_made = refl

sale_reaches_saga_example :
    (e : ClosedAuction) × (c : Closing) × (s : Settlement) × (closed_auction texts
        (closed_event texts (text "e1") sale sold_to_bob 130)
      ≡ some e)
    × (new_outcome_from_string e.outcome ≡ ok sold)
    × (build_closing uuids e ≡ ok c)
    × (start c ≡ ok s)
    × (s.auction_id ≡ two_bids.id)
    × (s.winner ≡ two_bids.leading_bid.bidder)
    × (s.hammer.amount ≡ two_bids.leading_bid.amount.amount)
    × (s.hammer.currency ≡ two_bids.start_price.currency)
    × (s.runner_up ≡ bidder_of two_bids.runner_up_bid)
    × (s.runner_up_amount.amount ≡ amount_of two_bids.runner_up_bid)
    × (s.runner_up_qualifies ≡ sold_to_bob.runner_up_qualifies)
    × (s.relist_gen ≡ two_bids.relist_gen)
sale_reaches_saga_example =
    sale_reaches_saga texts uuids (text "e1") two_bids sale sold_to_bob 130 two-IsValid two_closed
      refl (λ h. ground arith) (λ set h. ground arith) usd_made (omega arith)
