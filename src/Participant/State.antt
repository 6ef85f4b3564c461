-- ===== src/Participant/State.antt =====
-- internal/participant/domain/participant/participant.go and its events.
use molot.Base.{ℕ, Bool, true, false, not, List, [], ◌∷◌, ◌++◌, Result, ok, ◌>>=◌, ◌>>◌, reject_if}
use molot.Int64
use molot.Text
use molot.Text.{Text}
use molot.Time.{Time}
use molot.Participant.Values.{
  Error, invalid_participant_id, invalid_email, empty_display_name, already_verified, unfit_version,
  forbidden_participant_update, Strings, ParticipantId, EmailAddress, Status, registered, verified,
  Actor, new_participant_id, new_email_address, new_status_from_string,
}

pub data DomainEvent : Type 0 where
  participant_registered :
      (id : ParticipantId) (email : EmailAddress) (display_name : Text) → DomainEvent
  participant_verified : (id : ParticipantId) (occurred_at : Time) → DomainEvent

pub record Participant : Type 0 where
  pub id : ParticipantId
  pub email : EmailAddress
  pub display_name : Text
  pub status : Status
  pub version : ℕ  -- int64
  pub events : List DomainEvent

abbrev pub recorded : DomainEvent → Participant → Participant
recorded e p = record p { events = p.events ++ (e ∷ []) }

abbrev pub pull_domain_events : Participant → Participant
pull_domain_events p = record p { events = [] }

-- The aggregate that `Register` makes of a trimmed name.
abbrev pub registration : ParticipantId → EmailAddress → Text → Participant
registration id email name = recorded (participant_registered id email name) (record {
  id = id;
  email = email;
  display_name = name;
  status = registered;
  version = 1;
  events = [];
})

unfoldable pub register : ParticipantId → EmailAddress → Text → Result Error Participant
register id email display_name = do
  reject_if (Text.is_empty id) invalid_participant_id
  reject_if (Text.is_empty email) invalid_email
  reject_if (Text.is_empty (Text.trim_space display_name)) empty_display_name
  ok (registration id email (Text.trim_space display_name))

unfoldable pub unmarshal_from_database :
    Strings → Text → Text → Text → Text → ℕ → Result Error Participant
unmarshal_from_database lib id email display_name status version = do
  participant_id ← new_participant_id lib id
  email_address ← new_email_address lib email
  participant_status ← new_status_from_string status
  reject_if (Text.is_empty (Text.trim_space display_name)) empty_display_name
  reject_if (Int64.lt version 1) unfit_version
  ok (record {
    id = participant_id;
    email = email_address;
    display_name = display_name;
    status = participant_status;
    version = version;
    events = [];
  })

abbrev pub is_verified : Status → Bool
is_verified verified = true
is_verified _ = false

unfoldable pub verify : Time → Participant → Result Error Participant
verify now p = do
  reject_if (is_verified p.status) already_verified
  ok (recorded (participant_verified p.id now) (record p { status = verified }))

unfoldable pub can_actor_update_participant : Actor → Participant → Result Error (Unit {0})
unfolding Text.eq
can_actor_update_participant actor p =
    reject_if (not (Text.eq actor p.id)) (forbidden_participant_update actor p.id)
