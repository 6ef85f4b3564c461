-- ===== src/Notification/Redelivery.antt =====
-- Events that are delivered more than once (internal/notification/ports/events.go).
use molot.Base.{
  ◌≡◌, ◌≤◌, inl, inr, sym, subst, Bool, true, false, ◌&&◌, not, List, [], ◌∷◌, arith, ok, err,
  panic, Option-cases, if◌then◌else◌, ◌==◌,
}
use molot.Text
use molot.Text.{Text, text}
use molot.Time.{Time}
use molot.Notification.Directory
use molot.Notification.Directory.{RecipientRow, DeliveryKey, same_key, is_seen, same_key_refl}
use molot.Notification.Deliver.{Mail, Desk, Answer, ◌then◌, seller_unknown}
use molot.Notification.Events.{
  Event, participant_registered, participant_verified, bid_placed, auction_listed, auction_closed,
  winner_reassigned, sale_settled, sale_failed, invoice_issued, invoice_paid,
}
use molot.Notification.Handlers.{
  handle, handle_all, to_seller, settled_notice, failed_notice, on_bid_placed, remember_seller,
  on_auction_listed, notify_winner, notify_seller, on_auction_closed, on_winner_reassigned,
  on_sale_settled, on_sale_failed, on_invoice_issued, on_invoice_paid,
}
use molot.Notification.AtMostOnce.{times, IsOnce, deliver-IsOnce}

module _ (arrives : Mail → Bool) (rfc3339 : Time → Text) where
  if-IsOnce : (b : Bool) (p q : Answer) → IsOnce p.1 → IsOnce q.1 → IsOnce (if b then p else q).1
  if-IsOnce true p q x y = x
  if-IsOnce false p q x y = y

  then-IsOnce :
      (a : Answer) (next : Desk → Answer)
      → IsOnce a.1
      → ((d : Desk) → IsOnce d → IsOnce (next d).1)
      → IsOnce (a then next).1
  then-IsOnce (ok u, d) next once all = all d once
  then-IsOnce (err e, d) next once all = once
  then-IsOnce (panic, d) next once all = once

  seller-IsOnce :
      (a : Text) (next : Text → Desk → Answer) (d : Desk)
      → IsOnce d
      → ((s : Text) → IsOnce (next s d).1)
      → IsOnce (to_seller a next d).1
  unfolding to_seller
  seller-IsOnce a next d once all = elim (Option-cases (Directory.lookup a d.sellers)) [
    | inl absent ↦
        let e : to_seller a next d ≡ (err seller_unknown, d) = ground (arith, absent) in
        subst (λ x. IsOnce x.1) (sym e) once
    | inr (s, there) ↦
        let e : to_seller a next d ≡ next s d = ground (arith, there) in
        subst (λ x. IsOnce x.1) (sym e) (all s)
  ]

  handle-IsOnce : (e : Event) (d : Desk) → IsOnce d → IsOnce (handle arrives rfc3339 e d).1
  unfolding handle on_bid_placed on_auction_listed notify_winner notify_seller on_auction_closed
      settled_notice failed_notice on_winner_reassigned on_sale_settled on_sale_failed
      on_invoice_issued on_invoice_paid
  handle-IsOnce (participant_registered id email name) d once = once
  handle-IsOnce participant_verified d once = once
  handle-IsOnce (bid_placed e a outbid c n t) d once =
      if-IsOnce (Text.is_empty outbid) _ _ once (deliver-IsOnce arrives _ _ _ d once)
  handle-IsOnce (auction_listed e a s g from until) d once =
      if-IsOnce (g == 0) _ _ once
        (deliver-IsOnce arrives _ _ _ (remember_seller arrives rfc3339 a s d) once)
  handle-IsOnce (auction_closed e a s o w c n) d once =
      then-IsOnce
        (notify_winner arrives rfc3339 e a o w c n (remember_seller arrives rfc3339 a s d))
        (notify_seller arrives rfc3339 e a s o c n)
        (if-IsOnce (Text.eq o (text "sold") && not (Text.is_empty w)) _ _
          (deliver-IsOnce arrives _ _ _ (remember_seller arrives rfc3339 a s d) once) once)
        (λ v. deliver-IsOnce arrives _ _ _ v)
  handle-IsOnce (winner_reassigned e a w c n) d once = deliver-IsOnce arrives _ _ _ d once
  handle-IsOnce (sale_settled e a) d once =
      seller-IsOnce a (settled_notice arrives rfc3339 e a) d once
        λ s. deliver-IsOnce arrives _ _ _ d once
  handle-IsOnce (sale_failed e a r) d once =
      seller-IsOnce a (failed_notice arrives rfc3339 e a r) d once
        λ s. deliver-IsOnce arrives _ _ _ d once
  handle-IsOnce (invoice_issued e i a w c h m n t) d once = deliver-IsOnce arrives _ _ _ d once
  handle-IsOnce (invoice_paid e i a w c n) d once = deliver-IsOnce arrives _ _ _ d once

module _ (rfc3339 : Time → Text) where
  handle_all-IsOnce :
      (es : List ((Mail → Bool) × Event)) (d : Desk) → IsOnce d → IsOnce (handle_all rfc3339 es d)
  unfolding handle_all
  handle_all-IsOnce [] d once = once
  handle_all-IsOnce ((arrives, e) ∷ es) d once =
      handle_all-IsOnce es (handle arrives rfc3339 e d).1 (handle-IsOnce arrives rfc3339 e d once)

  -- Whatever events reach the notification context, in whatever order, each any number of times,
  -- and whichever mails the sender refuses: from a desk that has sent nothing, at most one mail is
  -- sent for each event, kind and recipient.
  pub at_most_once :
      (es : List ((Mail → Bool) × Event)) (d : Desk) (k : DeliveryKey)
      → d.sent ≡ []
      → times k (handle_all rfc3339 es d) ≤ 1
  at_most_once es d k fresh =
      let once = handle_all-IsOnce es d (λ j. ground (arith, fresh)) k in ground (arith, once)
