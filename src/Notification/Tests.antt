-- ===== src/Notification/Tests.antt =====
-- One outbid notice, delivered twice.
use molot.Base.{◌≤◌, refl, true, [], ◌∷◌}
use molot.Text.{text}
use molot.Notification.Deliver.{Desk}
use molot.Notification.Events.{bid_placed}
use molot.Notification.Handlers.{handle_all}
use molot.Notification.AtMostOnce.{times}
use molot.Notification.Redelivery.{at_most_once}

abbrev desk : Desk
desk = record {
  recipients = (text "7", record { email = text "a@b.c"; display_name = text "Ann" }) ∷ [];
  sellers = [];
  sent_log = [];
  sent = [];
}

at_most_once_example :
    times
      (record { event_id = text "e1"; kind = text "outbid_notice"; recipient_id = text "7" })
      (handle_all
        (λ t. text "later")
        (((λ x. true), bid_placed (text "e1") (text "1") (text "7") (text "EUR") 1200 100)
          ∷ ((λ x. true), bid_placed (text "e1") (text "1") (text "7") (text "EUR") 1200 100)
          ∷ [])
        desk)
    ≤ 1
at_most_once_example =
    at_most_once (λ t. text "later")
      (((λ x. true), bid_placed (text "e1") (text "1") (text "7") (text "EUR") 1200 100)
        ∷ ((λ x. true), bid_placed (text "e1") (text "1") (text "7") (text "EUR") 1200 100)
        ∷ [])
      desk (record { event_id = text "e1"; kind = text "outbid_notice"; recipient_id = text "7" })
      refl
