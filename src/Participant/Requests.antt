-- ===== src/Participant/Requests.antt =====
-- What the answers of the participant's endpoints (internal/participant/ports/http.go) say.
use molot.Base.{
  ◌≡◌, ◌⊎◌, inl, inr, refl, ap, ◌∙◌, subst, Option, none, some, [], ok, arith, Result-cases,
  Option-cases, Bool-cases,
}
use molot.Text
use molot.Text.{Text}
use molot.TextMap
use molot.Time.{Time}
use molot.Common.Auth.{User, role_operations, user_from_ctx}
use molot.Participant.Values.{
  Strings, ParticipantId, EmailAddress, normalized, registered, new_participant_id,
  new_email_address,
}
use molot.Participant.State.{registration, register, pull_domain_events}
use molot.Participant.Repository.{Participants, add, same_email}
use molot.Participant.Commands as Commands
use molot.Participant.Sound.{registered_as}
use molot.Participant.Normal.{made_id, made_email}
use molot.Participant.Registry.{Steps, onward, verifies, registers}
use molot.Participant.Http.{
  RegisterBody, registration_arguments, register_participant, verification_arguments,
  verify_participant,
}

-- The commands behind the endpoints are steps of the context.
pub requests_step :
    (lib : Strings) (body : RegisterBody) (user : Option User) (raw : Text) (now : Time)
    {m : Participants}
    → Steps lib [] m
    → Steps lib [] (register_participant lib body m).1
      × Steps lib [] (verify_participant lib user raw now m).1
unfolding register_participant verify_participant registration_arguments
requests_step lib body user raw now {m} past = (
  elim (Result-cases (new_participant_id lib body.id)) [
    | inl (id, read) ↦ elim (Result-cases (new_email_address lib body.email)) [
      | inl (email, read') ↦
          subst (Steps lib []) (ground (arith, read, read'))
            (onward past (registers body.id body.email body.display_name read read'))
      | inr bad ↦ subst (Steps lib []) (ground (arith, read, bad)) past
    ]
    | inr bad ↦ subst (Steps lib []) (ground (arith, bad)) past
  ],
  elim (Result-cases (verification_arguments lib user raw)) [
    | inl (id, read) ↦ subst (Steps lib []) (ground (arith, read)) (onward past (verifies id now))
    | inr bad ↦ subst (Steps lib []) (ground (arith, bad)) past
  ],
)

-- Only operations verifies.
pub verify_operations :
    (lib : Strings) (user : Option User) (raw : Text) (now : Time) (m : Participants)
    → ((u : User) × (user ≡ some u) × (u.role ≡ role_operations))
      ⊎ ((verify_participant lib user raw now m).1 ≡ m)
unfolding verify_participant verification_arguments user_from_ctx
verify_operations lib none raw now m = inr refl
verify_operations lib (some u) raw now m = elim (Bool-cases (Text.eq u.role role_operations)) [
  | inl operations ↦ inl (u, refl, Text.eq_sound u.role role_operations operations)
  | inr other ↦ inr (ground (arith, other))
]

-- What a registration leaves that the command accepted.
command_stores :
    (lib : Strings) (id : ParticipantId) (email : EmailAddress) (name : Text) (m : Participants)
    {m' : Participants}
    → Commands.register_participant id email name m ≡ (ok tt, m')
    → m' ≡ TextMap.insert id (pull_domain_events (registration id email (Text.trim_space name))) m
unfolding Commands.register_participant add
command_stores lib id email name m {m'} h = elim (Result-cases (register id email name)) [
  | inl (p, made) ↦
      let made' = made ∙ ap ok (registered_as lib id email name made).0 in
      elim (Option-cases (TextMap.lookup id m)) [
        | inl absent ↦
            elim (Bool-cases
              (TextMap.any_value (same_email (registration id email (Text.trim_space name))) m)) [
                | inl taken ↦ absurd (ground (arith, made', absent, taken))
                | inr free ↦ ground (arith, made', absent, free)
              ]
        | inr (old, there) ↦ absurd (ground (arith, made', there))
      ]
  | inr failed ↦ absurd (ground (arith, failed))
]

-- What a registration that was answered with success left.
pub register_request_stores :
    (lib : Strings) (body : RegisterBody) (m : Participants) {m' : Participants} {location : Text}
    → register_participant lib body m ≡ (ok location, m')
    → TextMap.lookup (normalized lib body.id) m'
      ≡ some (record {
        id = normalized lib body.id;
        email = normalized lib body.email;
        display_name = Text.trim_space body.display_name;
        status = registered;
        version = 1;
        events = [];
      })
unfolding register_participant registration_arguments
register_request_stores lib body m {m'} h =
    let id = normalized lib body.id in
    let email = normalized lib body.email in
    let command = Commands.register_participant id email body.display_name m in
    elim (Result-cases (new_participant_id lib body.id)) [
      | inl (i, read) ↦ elim (Result-cases (new_email_address lib body.email)) [
        | inl (e, read') ↦
            let first = read ∙ ap ok (made_id lib body.id read) in
            let second = read' ∙ ap ok (made_email lib body.email read') in
            elim (Result-cases command.0) [
              | inl (x, done) ↦
                  ap (TextMap.lookup id) (
                    command_stores lib id email body.display_name m {m' = m'}
                      (ground (arith, first, second, done)))
                  ∙ TextMap.lookup-insert_self id _ m
              | inr failed ↦ absurd (ground (arith, first, second, failed))
            ]
        | inr bad ↦ absurd (ground (arith, read, bad))
      ]
      | inr bad ↦ absurd (ground (arith, bad))
    ]
