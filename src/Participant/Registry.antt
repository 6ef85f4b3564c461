-- ===== src/Participant/Registry.antt =====
-- The table of participants along the commands of the context (internal/participant/app/command over
-- internal/participant/adapters/participant_inmem_repository.go).
use molot.Base.{
  ◌≡◌, ◌≢◌, ap, subst, false, none, some, ok, arith, Bool-cases, Option-cases, Result-cases, inl,
  inr,
}
use molot.Int64
use molot.Text.{Text}
use molot.TextMap
use molot.Time.{Time}
use molot.Participant.Values.{
  Strings, ParticipantId, EmailAddress, new_participant_id, new_email_address, registered, verified,
}
use molot.Participant.State.{Participant, register, pull_domain_events, is_verified}
use molot.Participant.Repository.{
  Participants, add, same_email, update_guarded, update_as_operations,
}
use molot.Participant.Commands.{register_participant, verify_participant}
use molot.Participant.Sound.{IsSound, register-IsSound, verified_lem}

module _ (lib : Strings) where
  -- A command of the context changes the table. The HTTP port makes the identities and the addresses
  -- with the constructors.
  pub data Step : Participants → Participants → Type 0 where
    registers :
        {m : Participants} {id : ParticipantId} {email : EmailAddress}
        (raw_id raw_email name : Text)
        → new_participant_id lib raw_id ≡ ok id
        → new_email_address lib raw_email ≡ ok email
        → Step m (register_participant id email name m).1
    verifies :
        {m : Participants} (id : ParticipantId) (now : Time)
        → Step m (verify_participant lib id now m).1

  pub data Steps (start : Participants) : Participants → Type 0 where
    here : Steps start start
    onward : {m m' : Participants} → Steps start m → Step m m' → Steps start m'

  -- What a step does to the table: nothing, or one entry.
  pub data Change (m : Participants) : Participants → Type 0 where
    unchanged : Change m m
    added :
        (p : Participant)
        → IsSound lib p
        → p.status ≡ registered
        → p.version ≡ 1
        → TextMap.lookup p.id m ≡ none
        → TextMap.any_value (same_email p) m ≡ false
        → Change m (TextMap.insert p.id p m)
    confirmed :
        (id : ParticipantId) (p : Participant)
        → TextMap.lookup id m ≡ some p
        → p.status ≢ verified
        → Int64.lt (Int64.add p.version 1) 1 ≡ false
        → Change m (
            TextMap.insert id
              (record (pull_domain_events p) { status = verified; version = Int64.add p.version 1 })
              m)

  -- Every participant is sound and stands under its identity, no two share an address, and one that
  -- is not verified was never updated.
  pub record IsRegistry (m : Participants) : Type 0 where
    pub sound : (id : Text) (p : Participant) → TextMap.lookup id m ≡ some p → IsSound lib p
    pub keyed : (id : Text) (p : Participant) → TextMap.lookup id m ≡ some p → p.id ≡ id
    pub fresh :
        (id : Text) (p : Participant)
        → TextMap.lookup id m ≡ some p
        → p.status ≡ registered
        → p.version ≡ 1
    pub unique :
        (j k : Text) (p q : Participant)
        → TextMap.lookup j m ≡ some p
        → TextMap.lookup k m ≡ some q
        → p.email ≡ q.email
        → j ≡ k

  add-Change :
      (p : Participant) (m : Participants)
      → IsSound lib (pull_domain_events p)
      → p.status ≡ registered
      → p.version ≡ 1
      → Change m (add p m).1
  unfolding add same_email
  add-Change p m v new first = elim (Option-cases (TextMap.lookup p.id m)) [
    | inl absent ↦ elim (Bool-cases (TextMap.any_value (same_email p) m)) [
      | inl taken ↦ subst (Change m) (ground (arith, absent, taken)) unchanged
      | inr free ↦
          subst (Change m) (ground (arith, absent, free))
            (added (pull_domain_events p) v new first absent free)
    ]
    | inr (old, there) ↦ subst (Change m) (ground (arith, there)) unchanged
  ]

  registers-Change :
      {id : ParticipantId} {email : EmailAddress} (raw_id raw_email name : Text) (m : Participants)
      → new_participant_id lib raw_id ≡ ok id
      → new_email_address lib raw_email ≡ ok email
      → Change m (register_participant id email name m).1
  unfolding register_participant
  registers-Change {id = id} {email = email} raw_id raw_email name m i e =
      elim (Result-cases (register id email name)) [
        | inl (p, made) ↦
            let (same, sound) = register-IsSound lib raw_id raw_email name i e made in
            subst (Change m) (ground (arith, made))
              (add-Change p m sound (ap (λ q. q.status) same) (ap (λ q. q.version) same))
        | inr failed ↦ subst (Change m) (ground (arith, failed)) unchanged
      ]

  verifies-Change :
      (id : ParticipantId) (now : Time) (m : Participants)
      → IsRegistry m
      → Change m (verify_participant lib id now m).1
  unfolding verify_participant update_as_operations update_guarded
  verifies-Change id now m v = elim (Option-cases (TextMap.lookup id m)) [
    | inl absent ↦ subst (Change m) (ground (arith, absent)) unchanged
    | inr (p, there) ↦
        let stores = verified_lem lib now p (v.sound id p there) in
        elim (Bool-cases (is_verified p.status)) [
          | inl done ↦ subst (Change m) (ground (arith, there, stores, done)) unchanged
          | inr waits ↦ elim (Bool-cases (Int64.lt (Int64.add p.version 1) 1)) [
            | inl wraps ↦ subst (Change m) (ground (arith, there, stores, waits, wraps)) unchanged
            | inr counts ↦
                subst (Change m) (ground (arith, there, stores, waits, counts))
                  (confirmed id p there (λ h. ground (arith, waits)) counts)
          ]
        ]
  ]

  pub Step-Change : {m m' : Participants} → Step m m' → IsRegistry m → Change m m'
  Step-Change (registers raw_id raw_email name i e) v = registers-Change raw_id raw_email name _ i e
  Step-Change (verifies id now) v = verifies-Change id now _ v
