-- ===== src/Notification/AtMostOnce.antt =====
-- The deduplication of the mails (internal/notification/ports/events.go and
-- internal/notification/adapters/sent_log_inmem.go).
use molot.Base.{
  ◌≡◌, ◌≤◌, ◌⊎◌, inl, inr, refl, sym, ap, ◌∙◌, subst, ℕ, Bool, true, false, some, ◌∷◌, ◌++◌, count,
  arith, ok, err, Bool-cases, Option-cases, if◌then◌else◌,
}
use molot.Text
use molot.Text.{Text, text}
use molot.Notification.Directory
use molot.Notification.Directory.{RecipientRow, DeliveryKey, same_key, is_seen, same_key_refl}
use molot.Notification.Deliver.{
  Mail, Desk, Answer, send, send_first, deliver, ◌then◌, recipient_unknown, send_failed,
}

-- How many mails were sent for a slot.
abbrev pub times : DeliveryKey → Desk → ℕ
times k d = count (λ x. same_key k x.slot) d.sent

-- A slot has at most one mail, and none before it is recorded.
abbrev pub IsOnce : Desk → Type 0
IsOnce d = (k : DeliveryKey) → times k d ≤ (if is_seen k d.sent_log then 1 else 0)

same_key_sound : (k l : DeliveryKey) → same_key k l ≡ true → k ≡ l
unfolding same_key
same_key_sound k l h = ground (
  arith,
  Text.eq_sound k.event_id l.event_id,
  Text.eq_sound k.kind l.kind,
  Text.eq_sound k.recipient_id l.recipient_id,
)

-- A slot that is recorded, without its mail and with it.
module _ (key : DeliveryKey) (d : Desk) (once : IsOnce d)
    (first : is_seen key d.sent_log ≡ false) where
  recorded-IsOnce : IsOnce (record d { sent_log = key ∷ d.sent_log })
  unfolding is_seen
  recorded-IsOnce k = elim (Bool-cases (same_key k key)) [
    | inl same ↦
        let e : is_seen k d.sent_log ≡ false =
          ap (λ x. is_seen x d.sent_log) (same_key_sound k key same) ∙ first in
        ground (arith, same, e, once k)
    | inr other ↦ ground (arith, other, once k)
  ]

  sent-IsOnce :
      (x : Mail)
      → x.slot ≡ key
      → IsOnce (record d { sent_log = key ∷ d.sent_log; sent = x ∷ d.sent })
  unfolding is_seen
  sent-IsOnce x slot k = elim (Bool-cases (same_key k key)) [
    | inl same ↦
        let e : is_seen k d.sent_log ≡ false =
          ap (λ x. is_seen x d.sent_log) (same_key_sound k key same) ∙ first in
        let hit : same_key k x.slot ≡ true = ap (same_key k) slot ∙ same in
        ground (arith, same, e, hit, once k)
    | inr other ↦
        let miss : same_key k x.slot ≡ false = ap (same_key k) slot ∙ other in
        ground (arith, other, miss, once k)
  ]

module _ (arrives : Mail → Bool) (key : DeliveryKey) (subject news : Text) where
  -- What a delivery comes to.
  data Delivered (d : Desk) (a : Answer) : Type 0 where
    unchanged :
        (a.0 ≡ err recipient_unknown)
          ⊎ ((a.0 ≡ ok tt)
              × (is_seen key d.sent_log ≡ true)
              × ((row : RecipientRow) × (Directory.lookup key.recipient_id d.recipients
                    ≡ some row)))
        → a.1 ≡ d
        → Delivered d a
    lost :
        is_seen key d.sent_log ≡ false
        → a ≡ (err send_failed, record d { sent_log = key ∷ d.sent_log })
        → Delivered d a
    arrived :
        (x : Mail) (row : RecipientRow)
        → Directory.lookup key.recipient_id d.recipients ≡ some row
        → is_seen key d.sent_log ≡ false
        → x.slot ≡ key
        → a ≡ (ok tt, record d { sent_log = key ∷ d.sent_log; sent = x ∷ d.sent })
        → Delivered d a

  deliver-Delivered : (d : Desk) → Delivered d (deliver arrives key subject news d)
  unfolding deliver send_first send
  deliver-Delivered d = elim (Option-cases (Directory.lookup key.recipient_id d.recipients)) [
    | inl absent ↦ unchanged (inl (ground (arith, absent))) (ground (arith, absent))
    | inr (row, there) ↦ elim (Bool-cases (is_seen key d.sent_log)) [
      | inl seen ↦
          unchanged (inr (ground (arith, there, seen), seen, (row, there)))
            (ground (arith, there, seen))
      | inr first ↦
          let x : Mail = record {
            slot = key;
            to = row.email;
            subject = subject;
            body = text "Hello " ++ row.display_name ++ 44 ∷ 10 ∷ 10 ∷ news;
          } in
          elim (Bool-cases (arrives x)) [
            | inl fine ↦ arrived x row there first refl (ground (arith, there, first, fine))
            | inr failed ↦ lost first (ground (arith, there, first, failed))
          ]
    ]
  ]

  pub deliver-IsOnce : (d : Desk) → IsOnce d → IsOnce (deliver arrives key subject news d).1
  deliver-IsOnce d once = elim (deliver-Delivered d) [
    | unchanged why same ↦ subst IsOnce (sym same) once
    | lost first e ↦ subst (λ a. IsOnce a.1) (sym e) (recorded-IsOnce key d once first)
    | arrived x row there first slot e ↦
        subst (λ a. IsOnce a.1) (sym e) (sent-IsOnce key d once first x slot)
  ]

  -- A recorded slot of a known recipient.
  deliver_seen :
      (d : Desk) (row : RecipientRow)
      → Directory.lookup key.recipient_id d.recipients ≡ some row
      → is_seen key d.sent_log ≡ true
      → deliver arrives key subject news d ≡ (ok tt, d)
  unfolding deliver send_first
  deliver_seen d row there seen = ground (arith, there, seen)

  -- A delivery that succeeded does nothing when it is repeated.
  pub deliver_again :
      (d : Desk) {v : Desk}
      → deliver arrives key subject news d ≡ (ok tt, v)
      → deliver arrives key subject news v ≡ (ok tt, v)
  unfolding is_seen
  deliver_again d {v} h = elim (deliver-Delivered d) [
    | unchanged (inl unknown) same ↦ absurd (ground (arith, unknown))
    | unchanged (inr (fine, seen, (row, there))) same ↦
        let e : v ≡ d = ground (arith, same) in
        subst (λ x. deliver arrives key subject news x ≡ (ok tt, x)) (sym e)
          (deliver_seen d row there seen)
    | lost first e ↦ absurd (ground (arith, e))
    | arrived x row there first slot e ↦
        let u : Desk = record d { sent_log = key ∷ d.sent_log; sent = x ∷ d.sent } in
        let same : v ≡ u = ground (arith, e) in
        subst (λ x. deliver arrives key subject news x ≡ (ok tt, x)) (sym same)
          (deliver_seen u row there (ground (arith, same_key_refl key)))
  ]
