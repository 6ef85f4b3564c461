-- ===== src/Notification/Directory.antt =====
-- internal/notification/adapters/recipients_inmem.go, sellers_inmem.go and sent_log_inmem.go: maps
-- with strings for keys, in insertion order.
use molot.Base.{◌≡◌, Bool, true, false, ◌&&◌, ◌||◌, List, [], ◌∷◌, arith}
use molot.Text
use molot.Text.{Text}
pub use molot.TextMap.{TextMap, lookup, insert, insert-insert}

-- `recipientRow`
pub record RecipientRow : Type 0 where
  pub email : Text
  pub display_name : Text

-- `deliveryKey`
pub record DeliveryKey : Type 0 where
  pub event_id : Text
  pub kind : Text
  pub recipient_id : Text

-- `k == l`
unfoldable pub same_key : DeliveryKey → DeliveryKey → Bool
unfolding Text.eq
same_key k l =
    Text.eq k.event_id l.event_id && Text.eq k.kind l.kind && Text.eq k.recipient_id l.recipient_id

unfoldable pub is_seen : DeliveryKey → List DeliveryKey → Bool
unfolding same_key
is_seen k [] = false
is_seen k (l ∷ seen) = same_key k l || is_seen k seen

pub same_key_refl : (k : DeliveryKey) → same_key k k ≡ true
unfolding same_key
same_key_refl k =
    ground (arith, Text.eq_refl k.event_id, Text.eq_refl k.kind, Text.eq_refl k.recipient_id)
