-- ===== src/Auction.antt =====
-- The auction context, internal/auction: its aggregate with the value objects of
-- internal/auction/domain/auction, one module to a source file.
pub mod Errors
pub mod Ids
pub mod Money
pub mod Bid
pub mod Lot
pub mod Reserve
pub mod Schedule
pub mod AntiSnipe
pub mod ListingRules
pub mod Status
pub mod Events
pub mod Aggregate
pub mod Invariant
pub mod Bidding
pub mod Acceptance
pub mod Lifecycle
pub mod History
pub mod Closing
pub mod Finality
pub mod Integration
pub mod Repository
pub mod Commands
pub mod Facade
pub mod Idempotence
pub mod Relisting
pub mod Worker
pub mod Overdue
pub mod Row
pub mod Columns
pub mod RowTrip
pub mod Http
pub mod Requests
pub mod Placed
mod RequestTests
pub mod Tests
