-- ===== src/Notification/Events.antt =====
-- The events that the context subscribes to, each with the fields that its handler reads, and how
-- amounts and reasons are written (internal/notification/ports/events.go).
use molot.Base.{ℕ, ◌∷◌, ◌++◌, ltb, if◌then◌else◌}
use molot.Int64
use molot.Text
use molot.Text.{Text, text, itoa}
use molot.Time.{Time}
use molot.Notification.Deliver.{◌then◌}

pub data Event : Type 0 where
  participant_registered : (participant_id email display_name : Text) → Event
  participant_verified : Event
  bid_placed :
      (event_id auction_id outbid_bidder_id currency : Text) (amount_minor : ℕ) (new_ends_at : Time)
      → Event
  auction_listed :
      (event_id auction_id seller_id : Text) (relist_generation : ℕ) (starts_at ends_at : Time)
      → Event
  auction_closed :
      (event_id auction_id seller_id outcome winner_id currency : Text) (hammer_price_minor : ℕ)
      → Event
  winner_reassigned : (event_id auction_id new_winner_id currency : Text) (price_minor : ℕ) → Event
  sale_settled : (event_id auction_id : Text) → Event
  sale_failed : (event_id auction_id reason : Text) → Event
  invoice_issued :
      (event_id invoice_id auction_id debtor_id currency : Text)
      (hammer_minor commission_minor total_minor : ℕ) (due_at : Time)
      → Event
  invoice_paid :
      (event_id invoice_id auction_id debtor_id currency : Text) (total_minor : ℕ) → Event

-- `%d`, and `%02d`, whose width counts the sign.
abbrev signed : ℕ → Text
signed x = if Int64.is_neg x then 45 ∷ itoa (Int64.neg x) else itoa x

abbrev padded : ℕ → Text
padded x = if ltb x 10 then 48 ∷ itoa x else signed x

-- `formatMinor`
unfoldable pub format_minor : ℕ → Text → Text
format_minor minor currency =
    signed (Int64.quot minor 100) ++ 46 ∷ padded (Int64.rem minor 100) ++ 32 ∷ currency

unfoldable pub failure_text : Text → Text
failure_text reason =
    if Text.eq reason (text "payment_timeout")
    then text "the winner did not pay in time"
    else if Text.eq reason (text "second_chance_declined")
    then text "the runner-up declined the second-chance offer"
    else reason
