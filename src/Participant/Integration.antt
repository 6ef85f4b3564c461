-- ===== src/Participant/Integration.antt =====
-- internal/participant/events/events.go and internal/participant/adapters/events_mapper.go: the events
-- that the context publishes for the others.
use molot.Text.{Text}
use molot.Time.{Time}
use molot.Participant.State.{DomainEvent, participant_registered, participant_verified}

-- The structs of the package, with their fields in their order.
pub data IntegrationEvent : Type 0 where
  participant_registered_v1 :
      (event_id participant_id email display_name : Text) (occurred_at : Time) → IntegrationEvent
  participant_verified_v1 : (event_id participant_id : Text) (occurred_at : Time) → IntegrationEvent

-- `mapDomainEvent`; `event_id` is the text of the new UUID, and `now` the time of the persist. The
-- error is for an event of another type, of which there is none.
unfoldable pub map_domain_event : Text → Time → DomainEvent → IntegrationEvent
map_domain_event event_id now (participant_registered id email display_name) =
    participant_registered_v1 event_id id email display_name now
map_domain_event event_id now (participant_verified id occurred_at) =
    participant_verified_v1 event_id id occurred_at
