-- ===== src/Participant.antt =====
-- The participant context, internal/participant: registration and verification.
pub mod Values
pub mod State
pub mod Repository
pub mod Commands
pub mod Sound
pub mod Registry
pub mod Uniqueness
pub mod Verified
pub mod Taken
pub mod Http
pub mod Integration
pub mod Requests
mod Tests
pub mod Normal
pub mod Canonical
