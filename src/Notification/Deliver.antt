-- ===== src/Notification/Deliver.antt =====
-- `deliver` of internal/notification/ports/events.go, over the in-memory adapters.
use molot.Base.{Bool, none, some, List, ◌∷◌, ◌++◌, Result, ok, err, panic, if◌then◌else◌}
use molot.Text.{Text, text}
use molot.Notification.Directory
use molot.Notification.Directory.{TextMap, RecipientRow, DeliveryKey, is_seen}

-- `recipient_unknown` and `seller_unknown` are the directories' errors of an absent key.
pub data Error : Type 0 where
  recipient_unknown seller_unknown send_failed : Error

-- A mail, with the slot that it was sent for.
pub record Mail : Type 0 where
  pub slot : DeliveryKey
  pub to : Text
  pub subject : Text
  pub body : Text

-- The three directories, and the mails that were sent.
pub record Desk : Type 0 where
  pub recipients : TextMap RecipientRow
  pub sellers : TextMap Text
  pub sent_log : List DeliveryKey
  pub sent : List Mail

-- The error or nil that a handler returns, and the desk that it leaves.
abbrev pub Answer : Type 0
Answer = Result Error (Unit {0}) × Desk

-- `Send`; `arrives` tells whether the sender takes a mail.
unfoldable pub send : (Mail → Bool) → Mail → Desk → Answer
send arrives mail d =
    if arrives mail then (ok tt, record d { sent = mail ∷ d.sent }) else (err send_failed, d)

-- The steps 2 and 3: the slot is recorded before the mail is sent.
unfoldable pub send_first : (Mail → Bool) → DeliveryKey → Text → Text → RecipientRow → Desk → Answer
unfolding send
send_first arrives key subject news row d =
    if is_seen key d.sent_log
    then (ok tt, d)
    else send arrives
        (record {
          slot = key;
          to = row.email;
          subject = subject;
          body = text "Hello " ++ row.display_name ++ 44 ∷ 10 ∷ 10 ∷ news;
        })
        (record d { sent_log = key ∷ d.sent_log })

-- `deliver`
unfoldable pub deliver : (Mail → Bool) → DeliveryKey → Text → Text → Desk → Answer
unfolding send_first
deliver arrives key subject news d = elim (Directory.lookup key.recipient_id d.recipients) [
  | none ↦ (err recipient_unknown, d)
  | some row ↦ send_first arrives key subject news row d
]

-- One call after another; the second is made if the first succeeds.
infixl 5 ◌then◌
abbrev pub ◌then◌ : Answer → (Desk → Answer) → Answer
(ok u, d) then next = next d
(err e, d) then next = (err e, d)
(panic, d) then next = (panic, d)
