-- ===== src/Participant/Commands.antt =====
-- internal/participant/app/command: registration and verification, and what they make of errors.
use molot.Base.{Result, ok, err, panic}
use molot.Slug.{
  Fault, domain, slug, new_incorrect_input_error, new_not_found_error, new_conflict_error,
}
use molot.Text.{Text}
use molot.Time.{Time}
use molot.Participant.Values.{
  Error, invalid_participant_id, invalid_email, empty_display_name, already_verified, email_taken,
  not_found, Strings, ParticipantId, EmailAddress,
}
use molot.Participant.State.{register, verify}
use molot.Participant.Repository.{Participants, add, update_as_operations}

-- A handler: the error or nil that it returns, and the table that it leaves.
abbrev pub Handler : Type 0
Handler = Participants → Result (Fault Error) (Unit {0}) × Participants

abbrev pub registration_input_error : Error → Fault Error
registration_input_error invalid_email = slug (new_incorrect_input_error "invalid-email")
registration_input_error invalid_participant_id =
    slug (new_incorrect_input_error "invalid-participant-id")
registration_input_error empty_display_name =
    slug (new_incorrect_input_error "invalid-display-name")
registration_input_error e = slug (new_incorrect_input_error "invalid-registration")

-- What `Handle` makes of an error of `Add`.
abbrev pub map_add_error : Error → Fault Error
map_add_error email_taken = slug (new_conflict_error "email-taken")
map_add_error e = domain e

-- `RegisterParticipantHandler.Handle`
unfoldable pub register_participant : ParticipantId → EmailAddress → Text → Handler
register_participant id email display_name m = elim (register id email display_name) [
  | err e ↦ (err (registration_input_error e), m)
  | panic ↦ (panic, m)
  | ok p ↦
      let (r, m') = add p m in
      (elim r [ ok u ↦ ok tt | err e ↦ err (map_add_error e) | panic ↦ panic ], m')
]

-- The `switch` of `VerifyParticipantHandler.Handle`.
abbrev pub map_verify_error : Error → Fault Error
map_verify_error already_verified = slug (new_conflict_error "already-verified")
map_verify_error (not_found id) = slug (new_not_found_error "participant-not-found")
map_verify_error e = domain e

-- `VerifyParticipantHandler.Handle`, with the time that its clock shows.
unfoldable pub verify_participant : Strings → ParticipantId → Time → Handler
verify_participant lib id now m =
    let (r, m') = update_as_operations lib id (verify now) m in
    (elim r [ ok u ↦ ok tt | err e ↦ err (map_verify_error e) | panic ↦ panic ], m')
