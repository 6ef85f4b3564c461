-- ===== src/Settlement/Errors.antt =====
-- internal/settlement/domain/settlement/errors.go, with a constructor for each error that a function
-- of the context makes on the spot. `foreign` is an error of another context, as its facade returns it,
-- and `opaque` one that its facade passes on without a slug.
use molot.Uuid.{Uuid}
use molot.Slug.{SlugError}

pub data Error : Type 0 where
  unexpected_transition not_offer_recipient offer_already_paid winner_mismatch : Error
  negative_amount invalid_currency nil_id unknown_outcome unknown_reason unknown_state : Error
  auction_id_required winner_required hammer_required first_invoice_required : Error
  negative_relist_generation unqualified_runner_up runner_up_amount_mismatch : Error
  closing_required state_required invalid_attempt invalid_version : Error
  delay_not_positive duration_not_positive award_with_reason failure_without_reason : Error
  not_found : Uuid → Error
  foreign : SlugError → Error
  opaque : Error
