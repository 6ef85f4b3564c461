-- ===== src/Participant/Taken.antt =====
-- A registration whose identity or address is in use (internal/participant/app/command/register_participant.go).
use molot.Base.{
  ◌≡◌, sym, ap, ◌∙◌, true, false, some, [], err, ok, arith, inl, inr, ◌⊎◌, Bool-cases, Option-cases,
}
use molot.Slug.{slug, new_conflict_error}
use molot.Text
use molot.Text.{Text}
use molot.TextMap
use molot.Participant.Values.{Strings, ParticipantId, EmailAddress}
use molot.Participant.State.{Participant, register, registration}
use molot.Participant.Repository.{Participants, add, same_email}
use molot.Participant.Commands.{register_participant}
use molot.Participant.Registry.{Steps}
use molot.Participant.Verified.{registered-Stays}

register_named :
    (id : ParticipantId) (email : EmailAddress) (name : Text)
    → Text.is_empty id ≡ false
    → Text.is_empty email ≡ false
    → Text.is_empty (Text.trim_space name) ≡ false
    → register id email name ≡ ok (registration id email (Text.trim_space name))
unfolding register
register_named id email name hi he hn = ground (arith, hi, he, hn)

-- A table refuses a participant whose identity or address it has.
register_clash :
    (id k : ParticipantId) (email : EmailAddress) (name : Text) (m : Participants) {q : Participant}
    → register id email name ≡ ok (registration id email (Text.trim_space name))
    → TextMap.lookup k m ≡ some q
    → (id ≡ k) ⊎ (email ≡ q.email)
    → register_participant id email name m ≡ (err (slug (new_conflict_error "email-taken")), m)
unfolding register_participant add
register_clash id k email name m {q} made there clash =
    let new = registration id email (Text.trim_space name) in
    elim (Option-cases (TextMap.lookup id m)) [
      | inl absent ↦ elim (Bool-cases (TextMap.any_value (same_email new) m)) [
        | inl taken ↦ ground (arith, made, absent, taken)
        | inr free ↦ absurd (elim clash [
          | inl e ↦ ground (arith, absent, there, ap (λ x. TextMap.lookup x m) e)
          | inr e ↦
              let apart : same_email new q ≡ false =
                TextMap.any_value-lookup (same_email new) m k free there in
              let same : same_email new q ≡ true =
                unfold same_email in (ap (λ x. Text.eq q.email x) e ∙ Text.eq_refl q.email) in
              ground (arith, apart, same)
        ])
      ]
      | inr (old, known) ↦ ground (arith, made, known)
    ]

-- In a table that the commands made from an empty one: once a participant is registered, and
-- whatever commands follow, a registration with the same identity or the same e-mail address, of no
-- empty identity, address or name, reports email-taken and changes nothing.
pub register_taken :
    (lib : Strings) (id k : ParticipantId) (email : EmailAddress) (name : Text)
    {m m' : Participants} {p : Participant}
    → Text.is_empty id ≡ false
    → Text.is_empty email ≡ false
    → Text.is_empty (Text.trim_space name) ≡ false
    → Steps lib [] m
    → TextMap.lookup k m ≡ some p
    → Steps lib m m'
    → (id ≡ k) ⊎ (email ≡ p.email)
    → register_participant id email name m' ≡ (err (slug (new_conflict_error "email-taken")), m')
register_taken lib id k email name {m' = m'} hi he hn past there next clash =
    let (q, found, same, n, s) = registered-Stays lib k past there next in
    let made = register_named id email name hi he hn in
    elim clash [
      | inl e ↦ register_clash id k email name m' made found (inl e)
      | inr e ↦ register_clash id k email name m' made found (inr (e ∙ sym same))
    ]
