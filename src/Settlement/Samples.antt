-- ===== src/Settlement/Samples.antt =====
-- A sale with a runner-up, its saga at its stages, and stand-ins for the other contexts.
use molot.Base.{ℕ, ◌≡◌, true, refl, arith, Bool, ok, [], ◌∷◌}
use molot.Text.{text}
use molot.Settlement.Money.{Money}
use molot.Settlement.State.{
  started, awaiting_payment, awarding_runner_up, second_chance_payment, settled, none_given,
}
use molot.Settlement.Closing.{Closing}
use molot.Settlement.Relist.{RelistPolicy, new_relist_policy}
use molot.Settlement.Saga.{Settlement}
use molot.Settlement.Ids.{UuidLib}
use molot.Settlement.Gateways.{Gateways, Call, IsIdempotent}
use molot.Settlement.Action.{World}

abbrev pub usd : ℕ → Money
usd n = record { amount = n; currency = text "USD" }

abbrev pub closing : Closing
closing = record {
  auction_id = 1;
  winner = 8;
  hammer = usd 1200;
  runner_up = 7;
  runner_up_amount = usd 1000;
  runner_up_qualifies = true;
  relist_gen = 0;
  first_invoice = 31;
}

abbrev pub opened : Settlement
opened = record {
  auction_id = 1;
  state = started;
  winner = 8;
  hammer = usd 1200;
  runner_up = 7;
  runner_up_amount = usd 1000;
  runner_up_qualifies = true;
  relist_gen = 0;
  attempt = 1;
  invoice_id = 31;
  failure_reason = none_given;
  version = 1;
}

abbrev pub awaiting : Settlement
awaiting = record opened { state = awaiting_payment }

abbrev pub awarding : Settlement
awarding = record opened { state = awarding_runner_up }

abbrev pub offered_again : Settlement
offered_again = record opened {
  state = second_chance_payment;
  winner = 7;
  attempt = 2;
  invoice_id = 32;
}

abbrev pub done : Settlement
done = record awaiting { state = settled }

abbrev pub policy : RelistPolicy
policy = record { delay = 60; duration = 600 }

pub policy_made : new_relist_policy 60 600 ≡ ok policy
unfolding new_relist_policy
policy_made = refl

-- Identities by length: a stand-in for the library.
abbrev pub uuids : UuidLib
uuids = record {
  to_string = λ u. u ∷ [];
  new_sha1 = λ ns s. 32;
  new_sha1_set = λ ns s e. omega arith;
}

-- The other contexts remember whether they were called.
abbrev pub reached : Call Bool
reached w = (ok tt, true)

abbrev pub gateways : Gateways Bool
gateways = record {
  award_to_runner_up = λ id now. reached;
  relist = λ id new_id starts_at ends_at now. reached;
  mark_sale_failed = λ id reason now. reached;
  confirm_settlement = λ id now. reached;
  issue_invoice = λ inv id debtor amount attempt now. reached;
  void_invoice = λ inv now. reached;
}

pub gateways-IsIdempotent : IsIdempotent gateways
gateways-IsIdempotent = record {
  award_again = λ id now later v w h. h;
  confirm_again = λ id now later v w h. h;
  fail_again = λ id reason now later v w h. h;
  relist_again = λ id new_id s e s' e' now later v w m n h. h;
  fail_after_relist = λ id new_id reason s e now later last u v w g h. h;
  issue_again = λ inv id debtor amount attempt now later v w set h. h;
  void_again = λ inv now later v w h. h;
}

abbrev pub with_saga : Settlement → Bool → World Bool
with_saga s b = record { sagas = (1, s) ∷ []; far = b }
