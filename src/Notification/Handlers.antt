-- ===== src/Notification/Handlers.antt =====
-- internal/notification/ports/events.go: what the context sends for each event that it subscribes to.
use molot.Base.{ℕ, Bool, ◌&&◌, not, none, some, List, [], ◌∷◌, ◌++◌, ok, err, ◌==◌, if◌then◌else◌}
use molot.Text
use molot.Text.{Text, text, itoa}
use molot.Time.{Time}
use molot.Notification.Directory
use molot.Notification.Directory.{RecipientRow}
use molot.Notification.Deliver.{Mail, Desk, Answer, deliver, ◌then◌, seller_unknown}
use molot.Notification.Events.{
  Event, participant_registered, participant_verified, bid_placed, auction_listed, auction_closed,
  winner_reassigned, sale_settled, sale_failed, invoice_issued, invoice_paid, format_minor,
  failure_text,
}

-- `SellerOf`, whose error is returned.
unfoldable pub to_seller : Text → (Text → Desk → Answer) → Desk → Answer
to_seller auction_id next d = elim (Directory.lookup auction_id d.sellers) [
  | none ↦ (err seller_unknown, d)
  | some seller_id ↦ next seller_id d
]

-- `arrives` tells whether the sender takes a mail, and `rfc3339` is the layout of the time package.
module _ (arrives : Mail → Bool) (rfc3339 : Time → Text) where
  unfoldable pub on_bid_placed : Text → Text → Text → Text → ℕ → Time → Desk → Answer
  unfolding deliver format_minor
  on_bid_placed event_id auction_id outbid currency amount ends_at d =
      if Text.is_empty outbid
      then (ok tt, d)
      else deliver arrives
          (record { event_id = event_id; kind = text "outbid_notice"; recipient_id = outbid })
          (text "You have been outbid on auction " ++ auction_id)
          (text "a new leading bid of "
            ++ format_minor amount currency
            ++ text " was placed on auction "
            ++ auction_id
            ++ text ". Bid again before "
            ++ rfc3339 ends_at
            ++ text " to get back in the race.")
          d

  -- `RememberSeller`
  abbrev pub remember_seller : Text → Text → Desk → Desk
  remember_seller auction_id seller_id d = record d {
    sellers = Directory.insert auction_id seller_id d.sellers;
  }

  unfoldable pub on_auction_listed : Text → Text → Text → ℕ → Time → Time → Desk → Answer
  unfolding deliver
  on_auction_listed event_id auction_id seller_id generation starts_at ends_at d =
      let known = remember_seller auction_id seller_id d in
      if generation == 0
      then (ok tt, known)
      else deliver arrives
          (record { event_id = event_id; kind = text "auction_relisted"; recipient_id = seller_id })
          (text "Your lot has been relisted as auction " ++ auction_id)
          (text "the previous sale fell through, so your lot was automatically relisted as auction "
            ++ auction_id
            ++ text ". Bidding runs from "
            ++ rfc3339 starts_at
            ++ text " to "
            ++ rfc3339 ends_at
            ++ text ".")
          known

  -- The notice to the winner.
  unfoldable pub notify_winner : Text → Text → Text → Text → Text → ℕ → Desk → Answer
  unfolding deliver format_minor
  notify_winner event_id auction_id outcome winner_id currency hammer d =
      if Text.eq outcome (text "sold") && not (Text.is_empty winner_id)
      then deliver arrives
          (record { event_id = event_id; kind = text "auction_won"; recipient_id = winner_id })
          (text "You won auction " ++ auction_id)
          (text "congratulations — your bid of "
            ++ format_minor hammer currency
            ++ text " won auction "
            ++ auction_id
            ++ text ". An invoice will follow shortly.")
          d
      else (ok tt, d)

  -- The notice to the seller.
  unfoldable pub notify_seller : Text → Text → Text → Text → Text → ℕ → Desk → Answer
  unfolding deliver format_minor
  notify_seller event_id auction_id seller_id outcome currency hammer d =
      deliver arrives
        (record { event_id = event_id; kind = text "auction_closed"; recipient_id = seller_id })
        (text "Your auction " ++ auction_id ++ text " has closed")
        (if Text.eq outcome (text "sold")
          then (text "your auction "
              ++ auction_id
              ++ text " sold for "
              ++ format_minor hammer currency
              ++ text ". Settlement (invoice and payment) is now in progress.")
          else (text "your auction "
              ++ auction_id
              ++ text " closed without a sale: no qualifying bids."))
        d

  unfoldable pub on_auction_closed : Text → Text → Text → Text → Text → Text → ℕ → Desk → Answer
  unfolding notify_winner notify_seller
  on_auction_closed event_id auction_id seller_id outcome winner_id currency hammer d =
      notify_winner event_id auction_id outcome winner_id currency hammer
        (remember_seller auction_id seller_id d)
      then notify_seller event_id auction_id seller_id outcome currency hammer

  unfoldable pub on_winner_reassigned : Text → Text → Text → Text → ℕ → Desk → Answer
  unfolding deliver format_minor
  on_winner_reassigned event_id auction_id new_winner_id currency price d =
      deliver arrives
        (record {
          event_id = event_id;
          kind = text "second_chance_offer";
          recipient_id = new_winner_id;
        })
        (text "Second-chance offer for auction " ++ auction_id)
        (text "the original winner of auction "
          ++ auction_id
          ++ text " did not pay; the lot is yours for your bid of "
          ++ format_minor price currency
          ++ text ". An invoice will follow — pay it to claim the lot, or decline the offer.")
        d

  -- The notices of `onSaleSettled` and of `onSaleFailed`.
  unfoldable pub settled_notice : Text → Text → Text → Desk → Answer
  unfolding deliver
  settled_notice event_id auction_id seller_id d =
      deliver arrives
        (record { event_id = event_id; kind = text "sale_settled"; recipient_id = seller_id })
        (text "Auction " ++ auction_id ++ text " is settled")
        (text "the sale of auction " ++ auction_id ++ text " has settled: the winner paid in full.")
        d

  unfoldable pub failed_notice : Text → Text → Text → Text → Desk → Answer
  unfolding deliver failure_text
  failed_notice event_id auction_id reason seller_id d =
      deliver arrives
        (record { event_id = event_id; kind = text "sale_failed"; recipient_id = seller_id })
        (text "The sale of auction " ++ auction_id ++ text " fell through")
        (text "the sale of auction "
          ++ auction_id
          ++ text " failed ("
          ++ failure_text reason
          ++ text ").")
        d

  unfoldable pub on_sale_settled : Text → Text → Desk → Answer
  unfolding to_seller settled_notice
  on_sale_settled event_id auction_id = to_seller auction_id (settled_notice event_id auction_id)

  unfoldable pub on_sale_failed : Text → Text → Text → Desk → Answer
  unfolding to_seller failed_notice
  on_sale_failed event_id auction_id reason =
      to_seller auction_id (failed_notice event_id auction_id reason)

  unfoldable pub on_invoice_issued :
      Text → Text → Text → Text → Text → ℕ → ℕ → ℕ → Time → Desk → Answer
  unfolding deliver format_minor
  on_invoice_issued event_id invoice_id auction_id debtor_id currency hammer commission total due_at
        d =
      deliver arrives
        (record { event_id = event_id; kind = text "payment_due_notice"; recipient_id = debtor_id })
        (text "Payment due for auction " ++ auction_id)
        (text "invoice "
          ++ invoice_id
          ++ text " for auction "
          ++ auction_id
          ++ text " totals "
          ++ format_minor total currency
          ++ text " (hammer price "
          ++ format_minor hammer currency
          ++ text " + commission "
          ++ format_minor commission currency
          ++ text "). Pay before "
          ++ rfc3339 due_at
          ++ text " or the lot is forfeited.")
        d

  unfoldable pub on_invoice_paid : Text → Text → Text → Text → Text → ℕ → Desk → Answer
  unfolding deliver format_minor
  on_invoice_paid event_id invoice_id auction_id debtor_id currency total d =
      deliver arrives
        (record { event_id = event_id; kind = text "payment_receipt"; recipient_id = debtor_id })
        (text "Receipt for invoice " ++ invoice_id)
        (text "we received your payment of "
          ++ format_minor total currency
          ++ text " for auction "
          ++ auction_id
          ++ text ". Thank you!")
        d

  -- The handler that `Handlers` subscribes to the event.
  unfoldable pub handle : Event → Desk → Answer
  unfolding on_bid_placed on_auction_listed on_auction_closed on_winner_reassigned on_sale_settled
      on_sale_failed on_invoice_issued on_invoice_paid
  handle (participant_registered id email name) d =
      let row : RecipientRow = record { email = email; display_name = name } in
      (ok tt, record d { recipients = Directory.insert id row d.recipients })
  handle participant_verified d = (ok tt, d)
  handle (bid_placed e a outbid c n t) d = on_bid_placed e a outbid c n t d
  handle (auction_listed e a s g from until) d = on_auction_listed e a s g from until d
  handle (auction_closed e a s o w c n) d = on_auction_closed e a s o w c n d
  handle (winner_reassigned e a w c n) d = on_winner_reassigned e a w c n d
  handle (sale_settled e a) d = on_sale_settled e a d
  handle (sale_failed e a r) d = on_sale_failed e a r d
  handle (invoice_issued e i a w c h m n t) d = on_invoice_issued e i a w c h m n t d
  handle (invoice_paid e i a w c n) d = on_invoice_paid e i a w c n d

-- The deliveries of the bus, one after another; an event whose handler fails comes again later, as
-- another item of the list. The sender may take a mail at one time and not at another.
unfoldable pub handle_all : (Time → Text) → List ((Mail → Bool) × Event) → Desk → Desk
unfolding handle
handle_all rfc3339 [] d = d
handle_all rfc3339 ((arrives, e) ∷ es) d = handle_all rfc3339 es (handle arrives rfc3339 e d).1
