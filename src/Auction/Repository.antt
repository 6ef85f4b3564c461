-- ===== src/Auction/Repository.antt =====
-- internal/auction/adapters/auction_inmem_repository.go: the table of auctions. Its lock makes each
-- operation one step; an aggregate that is added is not a nil pointer.
use molot.Base.{
  ℕ, zero, suc, List, [], ◌∷◌, Bool, ◌&&◌, not, none, some, Result, ok, err, if◌then◌else◌, ◌==◌,
}
use molot.Int64
use molot.Store
use molot.Store.{Store}
use molot.Table
use molot.Uuid.{Uuid, is_nil}
use molot.Auction.Errors.{Error, not_found, already_relisted, missing_actor}
use molot.Time
use molot.Time.{Time}
use molot.Auction.Ids.{AuctionId}
use molot.Auction.Status.{is_listed}
use molot.Auction.Aggregate.{Auction, pull_domain_events, unmarshal_from_database}

abbrev pub Auctions : Type 0
Auctions = Store Auction

-- Does the loop of `Add` meet another replacement of the same original?
unfoldable pub is_relisted : Auction → Auctions → Bool
is_relisted a m = not (is_nil a.relist_of) && Store.any_value (λ e. e.relist_of == a.relist_of) m

-- `Add`: an identity that is there keeps its auction.
unfoldable pub add : Auction → Auctions → Result Error (Unit {0}) × Auctions
unfolding is_relisted
add a m = elim (Store.lookup a.id m) [
  | some old ↦ (ok tt, m)
  | none ↦
      if is_relisted a m
      then (err already_relisted, m)
      else (ok tt, Store.insert a.id (pull_domain_events a) m)
]

unfoldable pub get : AuctionId → Auctions → Result Error Auction
unfolding Table.get
get id m = Table.get not_found id m

-- `cloneWithVersion`, of the next version; the events are drained before.
unfoldable pub cloned : Auction → Result Error Auction
cloned a =
    unmarshal_from_database (record (pull_domain_events a) { version = Int64.add a.version 1 })

-- `update`, and `UpdateAsSystem`
unfoldable pub update :
    AuctionId → (Auction → Result Error Auction) → Auctions → Result Error (Unit {0}) × Auctions
unfolding Table.update
update id f m = Table.update not_found cloned id f m

-- `Update`, which wants an actor.
unfoldable pub update_by :
    AuctionId
    → Uuid
    → (Auction → Result Error Auction)
    → Auctions
    → Result Error (Unit {0}) × Auctions
unfolding update
update_by id actor f m = if is_nil actor then (err missing_actor, m) else update id f m

-- The test of the loop of `DueForClosing`.
abbrev pub is_over : Time → Auction → Bool
is_over before a = is_listed a.status && not (Time.after a.window.ends_at before)

-- The loop of `DueForClosing` over the entries of the map, which stops after `limit` candidates.
unfoldable pub due_loop : Time → ℕ → Auctions → List AuctionId
due_loop before limit [] = []
due_loop before zero (e ∷ m) = []
due_loop before (suc limit) ((id, a) ∷ m) =
    let with_this = id ∷ due_loop before limit m in
    let without = due_loop before (suc limit) m in if is_over before a then with_this else without

-- `DueForClosing`; `order` is the order in which the loop meets the entries.
unfoldable pub due_for_closing : (Auctions → Auctions) → Time → ℕ → Auctions → List AuctionId
unfolding due_loop
due_for_closing order before limit m = due_loop before limit (order m)
