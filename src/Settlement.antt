-- ===== src/Settlement.antt =====
-- The settlement context, internal/settlement: the saga's domain (internal/settlement/domain/settlement).
pub mod Errors
pub mod Money
pub mod State
pub mod Closing
pub mod Relist
pub mod Saga
pub mod Diagram
pub mod Commits
pub mod Trace
pub mod Termination
pub mod Ids
pub mod Gateways
pub mod Adapters
pub mod Action
pub mod Repository
pub mod Handlers
pub mod Ports
pub mod Received
pub mod Built
pub mod Contract
pub mod ContractTests
pub mod Decline
pub mod Subscriptions
pub mod Heard
pub mod Row
pub mod RowTrip
pub mod Views
pub mod Http
pub mod Races
pub mod Payment
pub mod Redelivery
pub mod Opening
pub mod Idempotence
pub mod PlatformTests
pub mod Samples
pub mod Tests
pub mod RowTests
pub mod DeclineTests
pub mod OpeningTests
