-- ===== src/Settlement/Http.antt =====
-- internal/settlement/ports/http.go, and the query behind it
-- (internal/settlement/app/query/settlement_status.go), whose read model is a parameter.
use molot.Base.{not, Option, Result, ok, err, panic, ◌>>=◌, ◌>>◌, reject_if}
use molot.Slug.{Fault, domain, slug, new_forbidden_error, new_not_found_error}
use molot.Text
use molot.Time.{Time}
use molot.Uuid.{Uuid}
use molot.Common.Auth.{User, role_operations}
use molot.Common.Http.{caller, argument, identity, given}
use molot.Settlement.Errors.{Error, not_found, foreign}
use molot.Settlement.Closing.{AuctionId, BidderId, new_auction_id, new_bidder_id}
use molot.Settlement.Relist.{RelistPolicy}
use molot.Settlement.Ids.{UuidLib}
use molot.Settlement.Gateways.{Gateways}
use molot.Settlement.Action.{World}
use molot.Settlement.Decline

-- An error of the context, as the transport finds the slug error in its chain.
abbrev pub fault_of : Error → Fault Error
fault_of (foreign s) = slug s
fault_of e = domain e

-- The arguments of `DeclineSecondChanceOffer`.
unfoldable pub decline_arguments : Option User → Uuid → Result (Fault Error) (BidderId × AuctionId)
decline_arguments user id = do
  u ← caller user
  actor ← identity (new_bidder_id u.id) "invalid-user-id"
  auction_id ← argument (new_auction_id id) "invalid-auction-id"
  ok (actor, auction_id)

unfoldable pub decline_second_chance_offer :
    {W : Type 0}
    → Gateways W
    → UuidLib
    → RelistPolicy
    → Option User
    → Uuid
    → Time
    → (World W → World W)
    → World W
    → Result (Fault Error) (Unit {0}) × World W
decline_second_chance_offer g lib policy user id now meanwhile =
    given (decline_arguments user id) λ own w.
      let (r, w') = Decline.handle g lib policy own.1 own.0 now meanwhile w in
      (elim r [ ok u ↦ ok tt | err e ↦ err (fault_of e) | panic ↦ panic ], w')

-- What `SettlementStatusHandler.Handle` makes of an error of the read model.
abbrev pub map_query_error : Error → Fault Error
map_query_error (not_found id) = slug (new_not_found_error "settlement-not-found")
map_query_error e = fault_of e

unfoldable pub settlement_status : {V : Type 0} → Result Error V → Result (Fault Error) V
settlement_status (ok view) = ok view
settlement_status (err e) = err (map_query_error e)
settlement_status panic = panic

unfoldable pub get_settlement_status :
    {V : Type 0} → (AuctionId → Result Error V) → Option User → Uuid → Result (Fault Error) V
get_settlement_status by_auction user id = do
  u ← caller user
  reject_if (not (Text.eq u.role role_operations)) (slug (new_forbidden_error "operations-only"))
  auction_id ← argument (new_auction_id id) "invalid-auction-id"
  settlement_status (by_auction auction_id)
