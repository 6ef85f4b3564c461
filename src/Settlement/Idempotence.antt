-- ===== src/Settlement/Idempotence.antt =====
-- The contexts that the saga calls keep the promise of its gateways
-- (internal/settlement/adapters, internal/auction/service/facade.go and
-- internal/billing/service/facade.go).
use molot.Base.{ℕ, ◌≡◌, ◌≢◌, ◌<◌, refl, ap, inl, inr, arith, Result, ok, err, panic, Result-cases}
use molot.Slug.{Fault, domain, slug, parsed_again}
use molot.Text.{Text}
use molot.Time.{Time}
use molot.Uuid.{Uuid}
use molot.Auction.Ids.{new_auction_id as auction_key}
use molot.Auction.Schedule.{BiddingWindow, new_bidding_window}
use molot.Auction.Status.{new_failure_reason_from_string}
use molot.Auction.Repository.{Auctions}
use molot.Auction.Facade as AuctionFacade
use molot.Auction.Idempotence.{award_again, confirm_again, fail_again}
use molot.Auction.Relisting.{relist_again, fail_after_relist}
use molot.Billing.Money.{CommissionPolicy, new_currency, new_money}
use molot.Billing.Values.{PaymentTerm, new_invoice_id, new_auction_id, new_bidder_id, new_attempt}
use molot.Billing.Repository.{Invoices}
use molot.Billing.Facade as BillingFacade
use molot.Billing.Idempotence.{issue_again, void_again}
use molot.Settlement.Errors.{Error}
use molot.Settlement.Gateways.{IsIdempotent}
use molot.Settlement.Adapters.{
  Platform, crossing, on_auctions, on_invoices, platform, reason_string, void_refused,
}

-- A call that succeeded through an adapter succeeded at the facade.
crossing_ok : {E : Type 0} (r : Result (Fault E) (Unit {0})) → crossing r ≡ ok tt → r ≡ ok tt
crossing_ok (ok u) h = refl
crossing_ok (err (domain e)) h = absurd (ground arith)
crossing_ok (err (slug s)) h = absurd (ground arith)
crossing_ok panic h = absurd (ground arith)

auctions_ok :
    {E : Type 0} (c : Auctions → Result (Fault E) (Unit {0}) × Auctions) (v w : Platform)
    → on_auctions c v ≡ (ok tt, w)
    → c v.auctions ≡ (ok tt, w.auctions)
auctions_ok c v w h =
    let fine = crossing_ok (c v.auctions).0 (ap (λ p. p.0) h) in ground (arith, fine)

-- What a facade's call repeats, its adapter's does.
auctions_again :
    {E : Type 0} (c d : Auctions → Result (Fault E) (Unit {0}) × Auctions) (v w : Platform)
    → ((m : Auctions) → c v.auctions ≡ (ok tt, m) → d m ≡ (ok tt, m))
    → on_auctions c v ≡ (ok tt, w)
    → on_auctions d w ≡ (ok tt, w)
auctions_again c d v w again h =
    let done = auctions_ok c v w h in ground (arith, again w.auctions done)

invoices_again :
    {E : Type 0} (c d : Invoices → Result (Fault E) (Unit {0}) × Invoices) (v w : Platform)
    → ((m : Invoices) → c v.invoices ≡ (ok tt, m) → d m ≡ (ok tt, m))
    → on_invoices c v ≡ (ok tt, w)
    → on_invoices d w ≡ (ok tt, w)
invoices_again c d v w again h =
    let fine = crossing_ok (c v.invoices).0 (ap (λ p. p.0) h) in
    ground (arith, fine, again w.invoices)

-- The facade of the auction context.
module _ (now later : Time) (m m' : Auctions) where
  facade_award_again :
      (id : Uuid)
      → AuctionFacade.award_to_runner_up id now m ≡ (ok tt, m')
      → AuctionFacade.award_to_runner_up id later m' ≡ (ok tt, m')
  unfolding AuctionFacade.award_to_runner_up
  facade_award_again id =
      parsed_again (auction_key id) "invalid-id" _ _ λ a key. award_again a now later m

  facade_confirm_again :
      (id : Uuid)
      → AuctionFacade.confirm_settlement id now m ≡ (ok tt, m')
      → AuctionFacade.confirm_settlement id later m' ≡ (ok tt, m')
  unfolding AuctionFacade.confirm_settlement
  facade_confirm_again id =
      parsed_again (auction_key id) "invalid-id" _ _ λ a key. confirm_again a now later m

  facade_fail_again :
      (id : Uuid) (reason : Text)
      → AuctionFacade.mark_sale_failed id reason now m ≡ (ok tt, m')
      → AuctionFacade.mark_sale_failed id reason later m' ≡ (ok tt, m')
  unfolding AuctionFacade.mark_sale_failed
  facade_fail_again id reason = parsed_again (auction_key id) "invalid-id" _ _ λ a key.
      parsed_again (new_failure_reason_from_string reason) "invalid-failure-reason" _ _
        λ why named. fail_again a why now later m

  -- A window that opens later is one that the schedule accepts.
  facade_relist_again :
      (id new_id : Uuid) (s e s' e' : Time)
      → s' < e'
      → later < s'
      → AuctionFacade.relist id new_id s e now m ≡ (ok tt, m')
      → AuctionFacade.relist id new_id s' e' later m' ≡ (ok tt, m')
  unfolding AuctionFacade.relist new_bidding_window
  facade_relist_again id new_id s e s' e' open_window ahead =
      let w' : BiddingWindow = record { starts_at = s'; ends_at = e'; original_ends_at = e' } in
      let made : new_bidding_window s' e' ≡ ok w' = ground arith in
      parsed_again (auction_key id) "invalid-id" _ _ λ a key.
        parsed_again (auction_key new_id) "invalid-id" _ _ λ b new_key.
          elim (Result-cases (new_bidding_window s e)) [
            | inl (w, is_window) ↦
                let again =
                  relist_again a b w w' now later m {m' = m'} (ground arith) (omega arith) in
                ground (arith, is_window, made, again)
            | inr failed ↦ ground (arith, failed)
          ]

facade_fail_after_relist :
    (id new_id : Uuid) (reason : Text) (s e : Time) (now later last : Time) (l m m' : Auctions)
    → AuctionFacade.mark_sale_failed id reason now l ≡ (ok tt, m)
    → AuctionFacade.relist id new_id s e later m ≡ (ok tt, m')
    → AuctionFacade.mark_sale_failed id reason last m' ≡ (ok tt, m')
unfolding AuctionFacade.mark_sale_failed AuctionFacade.relist
facade_fail_after_relist id new_id reason s e now later last l m m' h k =
    elim (Result-cases (auction_key id)) [
      | inl (a, key) ↦ elim (Result-cases (new_failure_reason_from_string reason)) [
        | inl (why, named) ↦ elim (Result-cases (auction_key new_id)) [
          | inl (b, new_key) ↦ elim (Result-cases (new_bidding_window s e)) [
            | inl (w, made) ↦ ground (
              arith,
              key,
              named,
              new_key,
              made,
              fail_after_relist a b why w now later last l m {m' = m'},
            )
            | inr failed ↦ ground (arith, key, new_key, failed)
          ]
          | inr failed ↦ ground (arith, key, failed)
        ]
        | inr unnamed ↦ ground (arith, key, unnamed)
      ]
      | inr failed ↦ ground (arith, failed)
    ]

-- The facade of the billing context.
module _ (now later : Time) (m m' : Invoices) where
  facade_void_again :
      (id : Uuid)
      → BillingFacade.void_invoice id now m ≡ (ok tt, m')
      → BillingFacade.void_invoice id later m' ≡ (ok tt, m')
  unfolding BillingFacade.void_invoice
  facade_void_again id =
      parsed_again (new_invoice_id id) "invalid-invoice-id" _ _ λ a key. void_again a now later m

  facade_issue_again :
      (policy : CommissionPolicy) (term : PaymentTerm) (inv id debtor : Uuid) (amount : ℕ)
      (currency : Text) (attempt : ℕ)
      → later ≢ 0
      → BillingFacade.issue_invoice policy term inv id debtor amount currency attempt now m
        ≡ (ok tt, m')
      → BillingFacade.issue_invoice policy term inv id debtor amount currency attempt later m'
        ≡ (ok tt, m')
  unfolding BillingFacade.issue_invoice
  facade_issue_again policy term inv id debtor amount currency attempt clock =
      parsed_again (new_invoice_id inv) "invalid-invoice-id" _ _ λ a is_a.
        parsed_again (new_auction_id id) "invalid-auction-id" _ _ λ b is_b.
          parsed_again (new_bidder_id debtor) "invalid-debtor-id" _ _ λ c is_c.
            parsed_again (new_currency currency) "invalid-currency" _ _ λ d is_d.
              parsed_again (new_money amount d) "invalid-hammer-price" _ _ λ e is_e.
                parsed_again (new_attempt attempt) "invalid-attempt" _ _
                  λ f is_f. issue_again policy term a b c e f now later m clock

-- A refusal to void is not turned into success, nor success into a refusal.
void_refused_ok : (r : Result Error (Unit {0})) → void_refused r ≡ ok tt → r ≡ ok tt
unfolding void_refused
void_refused_ok (ok u) h = refl
void_refused_ok (err e) h = absurd (ground arith)
void_refused_ok panic h = absurd (ground arith)

void_call_ok :
    (p : Result Error (Unit {0}) × Platform) {w : Platform}
    → ◌≡◌ {A = Result Error (Unit {0}) × Platform} (void_refused p.0, p.1) (ok tt, w)
    → p ≡ (ok tt, w)
void_call_ok (r, v) h = let fine = void_refused_ok r (ap (λ q. q.0) h) in ground (arith, fine)

-- The adapters over the facades of the auction and billing contexts, with whatever commission
-- policy and payment term, keep the promise of the saga's gateways: each of the six calls, once it
-- succeeded, succeeds and changes nothing when it is repeated, a relisting also with a later
-- window, an issue where the clock of the repeat does not show the zero time; and a failure that
-- was marked is still there after a relisting.
pub platform-IsIdempotent :
    (policy : CommissionPolicy) (term : PaymentTerm) → IsIdempotent (platform policy term)
unfolding platform
platform-IsIdempotent policy term = record {
  award_again = λ id now later v w.
      auctions_again (AuctionFacade.award_to_runner_up id now)
        (AuctionFacade.award_to_runner_up id later) v w
        λ m. facade_award_again now later v.auctions m id;
  confirm_again = λ id now later v w.
      auctions_again (AuctionFacade.confirm_settlement id now)
        (AuctionFacade.confirm_settlement id later) v w
        λ m. facade_confirm_again now later v.auctions m id;
  fail_again = λ id reason now later v w.
      auctions_again (AuctionFacade.mark_sale_failed id (reason_string reason) now)
        (AuctionFacade.mark_sale_failed id (reason_string reason) later) v w
        λ m. facade_fail_again now later v.auctions m id (reason_string reason);
  relist_again = λ id new_id s e s' e' now later v w open_window ahead.
      auctions_again (AuctionFacade.relist id new_id s e now)
        (AuctionFacade.relist id new_id s' e' later) v w
        λ m. facade_relist_again now later v.auctions m id new_id s e s' e' open_window ahead;
  fail_after_relist = λ id new_id reason s e now later last u v w g h.
      auctions_again (AuctionFacade.relist id new_id s e later)
        (AuctionFacade.mark_sale_failed id (reason_string reason) last) v w
        (λ m.
          facade_fail_after_relist id new_id (reason_string reason) s e now later last u.auctions
            v.auctions m
            (auctions_ok (AuctionFacade.mark_sale_failed id (reason_string reason) now) u v g))
        h;
  issue_again = λ inv id debtor amount attempt now later v w clock.
      invoices_again
        (BillingFacade.issue_invoice policy term inv id debtor amount.amount amount.currency attempt
          now)
        (BillingFacade.issue_invoice policy term inv id debtor amount.amount amount.currency attempt
          later)
        v w
        λ m.
          facade_issue_again now later v.invoices m policy term inv id debtor amount.amount
            amount.currency attempt clock;
  void_again = λ inv now later v w h.
      let called : on_invoices (BillingFacade.void_invoice inv now) v ≡ (ok tt, w) =
        void_call_ok _ h in
      ap (λ p. (void_refused p.0, p.1))
        (invoices_again (BillingFacade.void_invoice inv now) (BillingFacade.void_invoice inv later)
          v w (λ m. facade_void_again now later v.invoices m inv) called);
}
