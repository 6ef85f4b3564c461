-- ===== src/Auction/Worker.antt =====
-- internal/auction/ports/worker.go: the worker that closes the auctions that are over. Its spans,
-- metrics and logs are left out; `Run` calls `tick` at intervals until it is told to stop.
use molot.Base.{ℕ, List, [], ◌∷◌}
use molot.Time.{Time}
use molot.Auction.Ids.{AuctionId}
use molot.Auction.Repository.{Auctions, due_for_closing}
use molot.Auction.Commands.{close_auction}

-- `closingCandidateLimit`
abbrev pub closing_candidate_limit : ℕ
closing_candidate_limit = 100

-- The loop of `tick`, which goes on after an error; `clock` is the time at which an auction is handled.
unfoldable pub close_all : (AuctionId → Time) → List AuctionId → Auctions → Auctions
close_all clock [] m = m
close_all clock (id ∷ ids) m = close_all clock ids (close_auction id (clock id) m).1

unfoldable pub tick : (Auctions → Auctions) → Time → (AuctionId → Time) → Auctions → Auctions
unfolding close_all due_for_closing
tick order now clock m = close_all clock (due_for_closing order now closing_candidate_limit m) m
