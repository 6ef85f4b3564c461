-- ===== src/Settlement/Closing.antt =====
-- internal/settlement/domain/settlement/ids.go and closing.go: identities, and the input of the saga.
use molot.Base.{
  ℕ, Bool, true, false, ◌&&◌, not, Result, ok, err, ◌>>◌, reject_if, ◌==◌, if◌then◌else◌,
}
use molot.Int64
use molot.Text
use molot.Text.{Text, text}
use molot.Uuid.{Uuid, is_nil}
use molot.Settlement.Errors.{
  Error, nil_id, unknown_outcome, auction_id_required, winner_required, hammer_required,
  first_invoice_required, negative_relist_generation, unqualified_runner_up,
  runner_up_amount_mismatch,
}
use molot.Settlement.Money
use molot.Settlement.Money.{Money}

abbrev pub AuctionId : Type 0
AuctionId = Uuid

abbrev pub BidderId : Type 0
BidderId = Uuid

abbrev pub InvoiceId : Type 0
InvoiceId = Uuid

unfoldable pub new_auction_id : Uuid → Result Error AuctionId
new_auction_id id = do reject_if (is_nil id) nil_id; ok id

unfoldable pub new_bidder_id : Uuid → Result Error BidderId
new_bidder_id id = do reject_if (is_nil id) nil_id; ok id

unfoldable pub new_invoice_id : Uuid → Result Error InvoiceId
new_invoice_id id = do reject_if (is_nil id) nil_id; ok id

pub data Outcome : Type 0 where
  sold not_sold : Outcome

unfoldable pub new_outcome_from_string : Text → Result Error Outcome
new_outcome_from_string s =
    if Text.eq s (text "sold")
    then ok sold
    else if Text.eq s (text "not_sold")
    then ok not_sold
    else err unknown_outcome

-- `RequiresSettlement`, at an outcome that `NewOutcomeFromString` made.
abbrev pub requires_settlement : Outcome → Bool
requires_settlement sold = true
requires_settlement not_sold = false

pub record Closing : Type 0 where
  pub auction_id : AuctionId
  pub winner : BidderId
  pub hammer : Money
  pub runner_up : BidderId
  pub runner_up_amount : Money
  pub runner_up_qualifies : Bool
  pub relist_gen : ℕ  -- int
  pub first_invoice : InvoiceId

-- `a != b` on Booleans.
abbrev differ : Bool → Bool → Bool
differ true b = not b
differ false b = b

unfoldable pub new_closing :
    AuctionId → BidderId → Money → BidderId → Money → Bool → ℕ → InvoiceId → Result Error Closing
new_closing auction_id winner hammer runner_up runner_up_amount qualifies relist_gen first_invoice =
    do
      reject_if (is_nil auction_id) auction_id_required
      reject_if (is_nil winner) winner_required
      reject_if (Money.is_zero hammer) hammer_required
      reject_if (is_nil first_invoice) first_invoice_required
      reject_if (Int64.is_neg relist_gen) negative_relist_generation
      reject_if (is_nil runner_up && qualifies) unqualified_runner_up
      reject_if (differ (is_nil runner_up) (Money.is_zero runner_up_amount))
          runner_up_amount_mismatch
      ok (record {
        auction_id = auction_id;
        winner = winner;
        hammer = hammer;
        runner_up = runner_up;
        runner_up_amount = runner_up_amount;
        runner_up_qualifies = qualifies;
        relist_gen = relist_gen;
        first_invoice = first_invoice;
      })

-- `c == Closing{}`
abbrev pub is_zero : Closing → Bool
is_zero c =
    is_nil c.auction_id
    && is_nil c.winner
    && Money.is_zero c.hammer
    && is_nil c.runner_up
    && Money.is_zero c.runner_up_amount
    && not c.runner_up_qualifies
    && (c.relist_gen == 0)
    && is_nil c.first_invoice
