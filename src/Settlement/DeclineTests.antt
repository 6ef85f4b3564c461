-- ===== src/Settlement/DeclineTests.antt =====
-- The runner-up declines the second chance: the theorems at one saga.
use molot.Base.{ℕ, ◌≢◌, ◌⊎◌, [], ◌∷◌, some, arith, ◌≡◌, refl, true, false, Bool, inl, ok, err}
use molot.Int64
use molot.Store
use molot.Slug.{new_conflict_error}
use molot.Settlement.Errors.{foreign}
use molot.Settlement.State.{relisted, relist, second_chance_declined}
use molot.Text.{text}
use molot.Auction.Tests.{awarded}
use molot.Billing.Money as BillingMoney
use molot.Billing.Money.{CommissionPolicy}
use molot.Billing.Values.{pending, paid}
use molot.Billing.Invoice.{Invoice, mark_paid}
use molot.Billing.Repository as InvoiceTable
use molot.Billing.Psp.{FakePsp, success}
use molot.Billing.Payments.{Steps, here, onward, commits}
use molot.Settlement.Adapters.{Platform, platform}
use molot.Settlement.Payment.{IsUnpayable, payment_or_decline}
use molot.Settlement.Saga.{
  Settlement, decide_on_decline, can_runner_up_decline, next_step_on_failure, apply_next_step,
  conclude, unmarshal_from_database,
}
use molot.Settlement.Ids.{relist_id_for}
use molot.Settlement.Closing.{new_auction_id}
use molot.Settlement.Repository
use molot.Settlement.Repository.{bumped, store_updated}
use molot.Settlement.Action.{World}
use molot.Settlement.Redelivery.{alone}
use molot.Settlement.Decline.{handle, compensate}
use molot.Settlement.Races.{decline_expires}
use molot.Settlement.Samples.{offered_again, policy, uuids, gateways, with_saga}

abbrev offer : World Bool
offer = with_saga offered_again false

offer_found : Repository.get 1 offer.sagas ≡ ok offered_again
unfolding Repository.get Store.lookup
offer_found = refl

offer_declined : decide_on_decline offered_again 7 ≡ ok relist
unfolding decide_on_decline can_runner_up_decline next_step_on_failure
offer_declined = refl

offer_compensated : compensate gateways uuids policy 1 relist 1000 true ≡ (ok tt, true)
unfolding compensate relist_id_for new_auction_id
offer_compensated = refl

abbrev expired_offer : Settlement
expired_offer = record offered_again { state = relisted; version = 2 }

expired_found : Repository.get 1 (with_saga expired_offer true).sagas ≡ ok expired_offer
unfolding Repository.get Store.lookup
expired_found = refl

decline_expires_example :
    handle gateways uuids policy 1 7 1000 (λ w. with_saga expired_offer true) offer
    ≡ (ok tt, with_saga expired_offer true)
decline_expires_example =
    decline_expires gateways uuids policy 1 7 1000 (λ w. with_saga expired_offer true) offer
      offer_found offer_declined refl offer_compensated expired_found refl (inl refl)

abbrev declined_offer : World Bool
declined_offer =
    with_saga
      (record offered_again {
        state = relisted;
        failure_reason = second_chance_declined;
        version = 2;
      })
      true

decline_handled : handle gateways uuids policy 1 7 1000 alone offer ≡ (ok tt, declined_offer)
unfolding handle compensate relist_id_for new_auction_id decide_on_decline can_runner_up_decline
    next_step_on_failure apply_next_step conclude Repository.get Repository.update bumped
    store_updated unmarshal_from_database Store.lookup Store.insert Int64.add Int64.lt
decline_handled = refl

-- The runner-up's own payment reaches its commit after the void of its invoice.
abbrev eur : ℕ → BillingMoney.Money
eur n = record { amount = n; currency = text "EUR" }

abbrev fee : CommissionPolicy
fee = record { basis_points = 875 }

abbrev bill : Invoice
bill = record {
  id = 32;
  auction_id = 1;
  debtor = 7;
  hammer = eur 100000;
  commission = eur 8750;
  total = eur 108750;
  status = pending;
  due_at = 1500;
  attempt = 2;
  psp_ref = [];
  version = 1;
  events = [];
}

abbrev charged : FakePsp
charged = record {
  mode = success;
  charges = (32, text "ref") ∷ [];
  failed_once = [];
  refunded = [];
}

abbrev commit_payment : World Platform → World Platform
commit_payment w = record w {
  far = record w.far {
    invoices = (InvoiceTable.update 32 7 (λ i. mark_paid i (text "ref") 1000) w.far.invoices).1;
  };
}

charge_there : Store.lookup 32 charged.charges ≡ some (text "ref")
unfolding Store.lookup
charge_there = refl

commits_payment :
    (u : World Platform)
    → (p q : FakePsp) × Steps
        (record { invoices = u.far.invoices; psp = p })
        (record { invoices = (commit_payment u).far.invoices; psp = q })
commits_payment u = (charged, charged, onward here (commits 32 7 (text "ref") 1000 charge_there))

abbrev both : World Platform
both = record {
  sagas = offer.sagas;
  far = record { auctions = (1, awarded) ∷ []; invoices = (32, bill) ∷ [] };
}

bill_there : Store.lookup 32 both.far.invoices ≡ some bill
unfolding Store.lookup
bill_there = refl

payment_or_decline_example :
    ((pending ≡ paid)
      × (handle (platform fee 1000) uuids policy 1 7 1000 commit_payment both
          ≡ (err (foreign (new_conflict_error "offer-already-paid")), both)))
    ⊎ ((pending ≢ paid)
        × IsUnpayable 32
            (handle (platform fee 1000) uuids policy 1 7 1000 commit_payment both).1.far.invoices)
payment_or_decline_example =
    payment_or_decline fee 1000 uuids policy 1 1000 7 commit_payment commits_payment both
      offer_found offer_declined refl bill_there (λ e. ground arith)
