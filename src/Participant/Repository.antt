-- ===== src/Participant/Repository.antt =====
-- internal/participant/adapters/participant_inmem_repository.go: the table of participants. Its lock
-- makes each operation one step.
use molot.Base.{Bool, none, some, Result, ok, err, panic, ◌>>=◌, if◌then◌else◌}
use molot.Int64
use molot.Text
use molot.Text.{Text}
use molot.TextMap
use molot.TextMap.{TextMap}
use molot.Participant.Values.{
  Error, email_taken, not_found, Strings, ParticipantId, Actor, status_string,
}
use molot.Participant.State.{
  Participant, pull_domain_events, unmarshal_from_database, can_actor_update_participant,
}

abbrev pub Participants : Type 0
Participants = TextMap Participant

-- The test of the loop of `Add`.
unfoldable pub same_email : Participant → Participant → Bool
unfolding Text.eq
same_email p existing = Text.eq existing.email p.email

unfoldable pub add : Participant → Participants → Result Error (Unit {0}) × Participants
add p m = elim (TextMap.lookup p.id m) [
  | some old ↦ (err email_taken, m)
  | none ↦
      if TextMap.any_value (same_email p) m
      then (err email_taken, m)
      else (ok tt, TextMap.insert p.id (pull_domain_events p) m)
]

unfoldable pub get : ParticipantId → Participants → Result Error Participant
get id m = elim (TextMap.lookup id m) [ none ↦ err (not_found id) | some p ↦ ok p ]

module _ (lib : Strings) where
  -- What `update` stores of the updated participant, with the next version of the stored one.
  unfoldable pub reassembled : Participant → Participant → Result Error Participant
  reassembled stored updated = do
    status ← status_string updated.status
    unmarshal_from_database lib updated.id updated.email updated.display_name status
        (Int64.add stored.version 1)

  -- From the guard's answer on: the update function, and what is stored of its answer.
  unfoldable pub updated_by :
      (Participant → Result Error Participant) → Participant → Result Error Participant
  updated_by f stored = do updated ← f stored; reassembled stored updated

  abbrev pub stored_at :
      ParticipantId
      → Participants
      → Result Error Participant
      → Result Error (Unit {0}) × Participants
  stored_at id m (ok p) = (ok tt, TextMap.insert id p m)
  stored_at id m (err e) = (err e, m)
  stored_at id m panic = (panic, m)

  -- `update`; without a guard, `guard` lets every participant pass.
  unfoldable pub update_guarded :
      ParticipantId
      → (Participant → Result Error (Unit {0}))
      → (Participant → Result Error Participant)
      → Participants
      → Result Error (Unit {0}) × Participants
  update_guarded id guard f m = elim (TextMap.lookup id m) [
    | none ↦ (err (not_found id), m)
    | some stored ↦ stored_at id m (guard stored >>= λ _. updated_by f stored)
  ]

  unfoldable pub update :
      ParticipantId
      → Actor
      → (Participant → Result Error Participant)
      → Participants
      → Result Error (Unit {0}) × Participants
  update id actor f m = update_guarded id (can_actor_update_participant actor) f m

  unfoldable pub update_as_operations :
      ParticipantId
      → (Participant → Result Error Participant)
      → Participants
      → Result Error (Unit {0}) × Participants
  update_as_operations id f m = update_guarded id (λ p. ok tt) f m
