-- ===== src/Participant/Http.antt =====
-- internal/participant/ports/http.go, and the query behind it
-- (internal/participant/app/query/participant_profile.go), whose read model is a parameter.
use molot.Base.{not, Option, ◌++◌, Result, ok, err, panic, ◌>>=◌, ◌>>◌, reject_if}
use molot.Slug.{Fault, domain, slug, new_forbidden_error, new_not_found_error}
use molot.Text
use molot.Text.{Text, text}
use molot.Time.{Time}
use molot.Common.Auth.{User, role_operations}
use molot.Common.Http.{caller, argument, given, with_answer}
use molot.Participant.Values.{
  Error, not_found, Strings, ParticipantId, EmailAddress, new_participant_id, new_email_address,
}
use molot.Participant.Repository.{Participants}
use molot.Participant.Commands as Commands

pub record RegisterBody : Type 0 where
  pub id : Text
  pub email : Text
  pub display_name : Text

abbrev map_query_error : Error → Fault Error
map_query_error (not_found id) = slug (new_not_found_error "participant-not-found")
map_query_error e = domain e

-- `ParticipantProfileHandler.Handle`, of what the read model answers.
unfoldable pub participant_profile : {V : Type 0} → Result Error V → Result (Fault Error) V
participant_profile (ok view) = ok view
participant_profile (err e) = err (map_query_error e)
participant_profile panic = panic

module _ (lib : Strings) where
  -- The arguments of `RegisterParticipant`.
  unfoldable pub registration_arguments :
      RegisterBody → Result (Fault Error) (ParticipantId × EmailAddress)
  registration_arguments body = do
    id ← argument (new_participant_id lib body.id) "invalid-participant-id"
    email ← argument (new_email_address lib body.email) "invalid-email"
    ok (id, email)

  unfoldable pub register_participant :
      RegisterBody → Participants → Result (Fault Error) Text × Participants
  register_participant body = given (registration_arguments body) λ made m.
      with_answer (text "/api/participants/" ++ made.0)
        (Commands.register_participant made.0 made.1 body.display_name m)

  unfoldable pub profile :
      {V : Type 0} → (ParticipantId → Result Error V) → Text → Result (Fault Error) V
  profile read_model raw = do
    id ← argument (new_participant_id lib raw) "invalid-participant-id"
    participant_profile (read_model id)

  -- The arguments of `VerifyParticipant`, behind its test of the role.
  unfoldable pub verification_arguments : Option User → Text → Result (Fault Error) ParticipantId
  verification_arguments user raw = do
    u ← caller user
    reject_if (not (Text.eq u.role role_operations)) (slug (new_forbidden_error "operations-only"))
    argument (new_participant_id lib raw) "invalid-participant-id"

  unfoldable pub verify_participant :
      Option User → Text → Time → Participants → Result (Fault Error) (Unit {0}) × Participants
  verify_participant user raw now =
      given (verification_arguments user raw) λ id. Commands.verify_participant lib id now
