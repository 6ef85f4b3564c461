-- ===== src/Auction/Idempotence.antt =====
-- The saga's commands, repeated (internal/auction/app/command and internal/auction/service/facade.go).
use molot.Base.{◌≡◌, ◌≢◌, refl, arith, ok, err}
use molot.Table
use molot.Time.{Time}
use molot.Auction.Errors.{
  Error, not_found, winner_already_reassigned, already_settled, sale_already_failed,
}
use molot.Auction.Ids.{AuctionId}
use molot.Auction.Status.{FailureReason}
use molot.Auction.Aggregate
use molot.Auction.Aggregate.{Auction, require_closed, unmarshal_from_database}
use molot.Auction.Repository
use molot.Auction.Repository.{Auctions, cloned}
use molot.Auction.Commands
use molot.Auction.Commands.{first, map_award_error, map_confirm_error, map_fail_error}

-- What a stored auction is, and that its store never fails with an error that a handler excuses.
cloned_ok :
    (t : Auction) {u : Auction}
    → cloned t ≡ ok u
    → (u.status ≡ t.status)
      × (u.winner_reassigned ≡ t.winner_reassigned)
      × (u.settled ≡ t.settled)
      × (u.outcome ≡ t.outcome)
unfolding cloned unmarshal_from_database
cloned_ok t h = ground arith

cloned_err :
    (t : Auction) (e : Error)
    → cloned t ≡ err e
    → (map_award_error e ≢ ok tt) × (map_confirm_error e ≢ ok tt) × (map_fail_error e ≢ ok tt)
unfolding cloned unmarshal_from_database map_award_error map_confirm_error map_fail_error
cloned_err t e h = (λ p. ground arith, λ p. ground arith, λ p. ground arith)

award_stored :
    (later : Time) (s t u : Auction) (now : Time)
    → first (Aggregate.award_to_runner_up s now) ≡ ok t
    → cloned t ≡ ok u
    → first (Aggregate.award_to_runner_up u later) ≡ err winner_already_reassigned
unfolding Aggregate.award_to_runner_up
award_stored later s t u now h k = ground (arith, cloned_ok t k)

map_award_ok : (e : Error) → map_award_error e ≡ ok tt → e ≡ winner_already_reassigned
unfolding map_award_error
map_award_ok winner_already_reassigned h = refl
map_award_ok e h = ground arith

award_refused :
    (later now : Time) (s : Auction) (e : Error)
    → first (Aggregate.award_to_runner_up s now) ≡ err e
    → map_award_error e ≡ ok tt
    → first (Aggregate.award_to_runner_up s later) ≡ err e
unfolding Aggregate.award_to_runner_up require_closed
award_refused later now s e h k = let is = map_award_ok e k in ground arith

pub award_again :
    (id : AuctionId) (now later : Time) (m : Auctions) {m' : Auctions}
    → Commands.award_to_runner_up id now m ≡ (ok tt, m')
    → Commands.award_to_runner_up id later m' ≡ (ok tt, m')
unfolding Commands.award_to_runner_up Repository.update
award_again id now later m h =
    Table.update_again not_found cloned map_award_error winner_already_reassigned id
      (λ a. first (Aggregate.award_to_runner_up a now))
      (λ a. first (Aggregate.award_to_runner_up a later)) m refl (λ p. cc)
      (λ t e p. (cloned_err t e p).0) (λ s t u. award_stored later s t u now)
      (award_refused later now) h

confirm_stored :
    (later : Time) (s t u : Auction) (now : Time)
    → Aggregate.confirm_settlement s now ≡ ok t
    → cloned t ≡ ok u
    → Aggregate.confirm_settlement u later ≡ err already_settled
unfolding Aggregate.confirm_settlement require_closed
confirm_stored later s t u now h k = ground (arith, cloned_ok t k)

confirm_refused :
    (later now : Time) (s : Auction) (e : Error)
    → Aggregate.confirm_settlement s now ≡ err e
    → Aggregate.confirm_settlement s later ≡ err e
unfolding Aggregate.confirm_settlement require_closed
confirm_refused later now s e h = ground arith

pub confirm_again :
    (id : AuctionId) (now later : Time) (m : Auctions) {m' : Auctions}
    → Commands.confirm_settlement id now m ≡ (ok tt, m')
    → Commands.confirm_settlement id later m' ≡ (ok tt, m')
unfolding Commands.confirm_settlement Repository.update
confirm_again id now later m h =
    Table.update_again not_found cloned map_confirm_error already_settled id
      (λ a. Aggregate.confirm_settlement a now) (λ a. Aggregate.confirm_settlement a later) m refl
      (λ p. cc) (λ t e p. (cloned_err t e p).1) (λ s t u. confirm_stored later s t u now)
      (λ s e p k. confirm_refused later now s e p) h

fail_stored :
    (reason : FailureReason) (later : Time) (s t u : Auction) (now : Time)
    → Aggregate.fail_sale s reason now ≡ ok t
    → cloned t ≡ ok u
    → Aggregate.fail_sale u reason later ≡ err sale_already_failed
unfolding Aggregate.fail_sale require_closed
fail_stored reason later s t u now h k = ground (arith, cloned_ok t k)

fail_refused :
    (reason : FailureReason) (later now : Time) (s : Auction) (e : Error)
    → Aggregate.fail_sale s reason now ≡ err e
    → Aggregate.fail_sale s reason later ≡ err e
unfolding Aggregate.fail_sale require_closed
fail_refused reason later now s e h = ground arith

pub fail_again :
    (id : AuctionId) (reason : FailureReason) (now later : Time) (m : Auctions) {m' : Auctions}
    → Commands.mark_sale_failed id reason now m ≡ (ok tt, m')
    → Commands.mark_sale_failed id reason later m' ≡ (ok tt, m')
unfolding Commands.mark_sale_failed Repository.update
fail_again id reason now later m h =
    Table.update_again not_found cloned map_fail_error sale_already_failed id
      (λ a. Aggregate.fail_sale a reason now) (λ a. Aggregate.fail_sale a reason later) m refl
      (λ p. cc) (λ t e p. (cloned_err t e p).2) (λ s t u. fail_stored reason later s t u now)
      (λ s e p k. fail_refused reason later now s e p) h

-- What a marked failure leaves in the table.
pub fail_settles :
    (id : AuctionId) (reason : FailureReason) (now later : Time) (m : Auctions) {m' : Auctions}
    → Commands.mark_sale_failed id reason now m ≡ (ok tt, m')
    → (s : Auction) × (e : Error) × (Repository.get id m' ≡ ok s)
      × (Aggregate.fail_sale s reason later ≡ err e)
      × (map_fail_error e ≡ ok tt)
unfolding Commands.mark_sale_failed Repository.update Repository.get
fail_settles id reason now later m h =
    Table.update_settles not_found cloned map_fail_error sale_already_failed id
      (λ a. Aggregate.fail_sale a reason now) (λ a. Aggregate.fail_sale a reason later) m refl
      (λ p. cc) (λ t e p. (cloned_err t e p).2) (λ s t u. fail_stored reason later s t u now)
      (λ s e p k. fail_refused reason later now s e p) h
