-- ===== src/Settlement/Views.antt =====
-- The view of a saga that operations get: internal/settlement/app/query/settlement_status.go,
-- `toSettlementView` (internal/settlement/adapters/settlement_pg_repository.go) and
-- `toAPISettlement` (internal/settlement/ports/http.go).
use molot.Base.{
  ℕ, ◌≡◌, refl, Bool, false, [], Option, none, some, Result, ok, err, arith, if◌then◌else◌, ◌>>=◌,
}
use molot.Text
use molot.Text.{Text, text}
use molot.Uuid.{Uuid, UuidText, is_nil, must_parse, must_parse-to_string}
use molot.Slug.{Fault, slug, new_forbidden_error}
use molot.Common.Auth.{User, role_operations, user_from_ctx}
use molot.Settlement.Errors.{Error}
use molot.Settlement.Closing.{AuctionId, new_auction_id}
use molot.Settlement.Http.{get_settlement_status, settlement_status}
use molot.Settlement.State.{FailureReason, none_given, payment_timeout, second_chance_declined}
use molot.Settlement.Saga.{Settlement}
use molot.Settlement.Adapters.{reason_string}
use molot.Settlement.Row.{PgSettlement, to_pg_settlement, state_string, reason_column, int64_of}

pub record SettlementView : Type 0 where
  pub auction_id : Text
  pub state : Text
  pub winner_id : Text
  pub hammer_minor : ℕ
  pub currency : Text
  pub runner_up_id : Text
  pub runner_up_minor : ℕ
  pub runner_up_qualifies : Bool
  pub relist_generation : ℕ
  pub attempt : ℕ
  pub invoice_id : Text
  pub failure_reason : Text

-- The body of the answer, of the schema `Settlement`; an optional field is an `Option`.
pub record ApiSettlement : Type 0 where
  pub auction_id : Uuid
  pub state : Text
  pub winner_id : Uuid
  pub hammer_minor : ℕ
  pub currency : Text
  pub runner_up_id : Option Uuid
  pub runner_up_minor : Option ℕ
  pub runner_up_qualifies : Bool
  pub relist_generation : ℕ
  pub attempt : ℕ
  pub invoice_id : Option Uuid
  pub failure_reason : Option Text

module _ (texts : UuidText) where
  open texts use {to_string, parse}

  -- A column that may be null, as a text of the view.
  abbrev id_text : Option Uuid → Text
  id_text none = []
  id_text (some id) = to_string id

  abbrev pub shown : Option Text → Text
  shown none = []
  shown (some s) = s

  unfoldable pub to_settlement_view : PgSettlement → SettlementView
  to_settlement_view t = record {
    auction_id = to_string t.auction_id;
    state = t.state;
    winner_id = to_string t.winner_id;
    hammer_minor = t.hammer_minor;
    currency = t.currency;
    runner_up_id = id_text t.runner_up_id;
    runner_up_minor = elim t.runner_up_id [ none ↦ 0 | some id ↦ int64_of t.runner_up_minor ];
    runner_up_qualifies = t.runner_up_qualifies;
    relist_generation = t.relist_generation;
    attempt = t.attempt;
    invoice_id = id_text t.invoice_id;
    failure_reason = shown t.failure_reason;
  }

  -- An identity of the view that may be empty.
  unfoldable pub optional_id : {E : Type 0} → Text → Result E (Option Uuid)
  optional_id s = if Text.is_empty s then ok none else must_parse texts s >>= λ id. ok (some id)

  unfoldable pub to_api_settlement : {E : Type 0} → SettlementView → Result E ApiSettlement
  unfolding optional_id
  to_api_settlement v = do
    auction_id ← must_parse texts v.auction_id
    winner_id ← must_parse texts v.winner_id
    runner_up_id ← optional_id v.runner_up_id
    invoice_id ← optional_id v.invoice_id
    ok (record {
      auction_id = auction_id;
      state = v.state;
      winner_id = winner_id;
      hammer_minor = v.hammer_minor;
      currency = v.currency;
      runner_up_id = runner_up_id;
      runner_up_minor = if Text.is_empty v.runner_up_id then none else some v.runner_up_minor;
      runner_up_qualifies = v.runner_up_qualifies;
      relist_generation = v.relist_generation;
      attempt = v.attempt;
      invoice_id = invoice_id;
      failure_reason = if Text.is_empty v.failure_reason then none else some v.failure_reason;
    })

  optional_parsed :
      {E : Type 0}
      → (id : Uuid)
      → optional_id {E = E} (id_text (if is_nil id then none else some id))
        ≡ ok (if is_nil id then none else some id)
  unfolding optional_id must_parse
  optional_parsed id = ground (arith, texts.parse-to_string id, texts.to_string_set id)

  -- What operations see of a saga.
  abbrev pub status_of : Settlement → ApiSettlement
  status_of s = record {
    auction_id = s.auction_id;
    state = state_string s.state;
    winner_id = s.winner;
    hammer_minor = s.hammer.amount;
    currency = s.hammer.currency;
    runner_up_id = if is_nil s.runner_up then none else some s.runner_up;
    runner_up_minor = if is_nil s.runner_up then none else some s.runner_up_amount.amount;
    runner_up_qualifies = s.runner_up_qualifies;
    relist_generation = s.relist_gen;
    attempt = s.attempt;
    invoice_id = if is_nil s.invoice_id then none else some s.invoice_id;
    failure_reason = reason_column s.failure_reason;
  }

  reason_shown :
      (r : FailureReason)
      → (if Text.is_empty (shown (reason_column r)) then none else some (shown (reason_column r)))
        ≡ reason_column r
  unfolding reason_string
  reason_shown none_given = refl
  reason_shown payment_timeout = refl
  reason_shown second_chance_declined = refl

  view_shows :
      {E : Type 0}
      → (s : Settlement)
      → to_api_settlement {E = E} (to_settlement_view (to_pg_settlement s)) ≡ ok (status_of s)
  unfolding to_api_settlement to_settlement_view to_pg_settlement
  view_shows s =
      rw
        (
          must_parse-to_string texts s.auction_id,
          must_parse-to_string texts s.winner,
          optional_parsed s.runner_up,
          optional_parsed s.invoice_id,
          reason_shown s.failure_reason,
        )
        (ground (arith, texts.to_string_set s.runner_up))

  -- `GetSettlementStatus`
  unfoldable pub settlement_request :
      (AuctionId → Result Error SettlementView)
      → Option User
      → Uuid
      → Result (Fault Error) ApiSettlement
  settlement_request by_auction user id = do
    view ← get_settlement_status by_auction user id
    to_api_settlement view

  -- Where the read model answers with the view of the row of a saga whose auction has an identity,
  -- GetSettlementStatus shows an operations user the terms and the state of that saga, with the
  -- runner-up, the invoice and the reason exactly where it has them, and no identity fails to
  -- parse; any other user is refused.
  pub status_shows :
      (by_auction : AuctionId → Result Error SettlementView) (user : User) (s : Settlement)
      → by_auction s.auction_id ≡ ok (to_settlement_view (to_pg_settlement s))
      → is_nil s.auction_id ≡ false
      → settlement_request by_auction (some user) s.auction_id ≡ (
          if Text.eq user.role role_operations
          then ok (status_of s)
          else err (slug (new_forbidden_error "operations-only")))
  unfolding settlement_request get_settlement_status settlement_status user_from_ctx new_auction_id
  status_shows by_auction user s stored set =
      ground (arith, stored, set, view_shows {E = Fault Error} s)
