-- ===== src/Auction/Aggregate.antt =====
-- internal/auction/domain/auction/auction.go: the Auction aggregate, its factories and its behaviour
-- methods. A method that mutates `*Auction` returns the new record; each of them makes all of its
-- checks before its first write, so an error leaves the receiver as it was.
mod State
mod Factories
mod Placing
mod Ending
unfoldable pub use State.*
unfoldable pub use Factories.*
unfoldable pub use Placing.*
unfoldable pub use Ending.*
