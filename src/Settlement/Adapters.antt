-- ===== src/Settlement/Adapters.antt =====
-- internal/settlement/adapters/auction_facade_adapter.go and billing_facade_adapter.go: the saga's
-- gateways over the facades of the other contexts. The spans of `traced` are left out.
use molot.Base.{Result, ok, err, panic, if◌then◌else◌}
use molot.Slug
use molot.Slug.{Fault, domain, slug, new_conflict_error}
use molot.Text.{Text, text}
use molot.Auction.Repository.{Auctions}
use molot.Auction.Facade as AuctionFacade
use molot.Billing.Money.{CommissionPolicy}
use molot.Billing.Values.{PaymentTerm}
use molot.Billing.Repository.{Invoices}
use molot.Billing.Facade as BillingFacade
use molot.Settlement.Errors.{Error, offer_already_paid, foreign, opaque}
use molot.Settlement.State.{FailureReason, none_given, payment_timeout, second_chance_declined}
use molot.Settlement.Gateways.{Gateways, Call}

-- The tables of the two contexts that the saga calls.
pub record Platform : Type 0 where
  pub auctions : Auctions
  pub invoices : Invoices

-- `FailureReason.String`
unfoldable pub reason_string : FailureReason → Text
reason_string none_given = text ""
reason_string payment_timeout = text "payment_timeout"
reason_string second_chance_declined = text "second_chance_declined"

-- An error of a facade as the saga sees it.
abbrev pub crossing : {E : Type 0} → Result (Fault E) (Unit {0}) → Result Error (Unit {0})
crossing (ok u) = ok tt
crossing (err (domain e)) = err opaque
crossing (err (slug s)) = err (foreign s)
crossing panic = panic

abbrev pub on_auctions :
    {E : Type 0} → (Auctions → Result (Fault E) (Unit {0}) × Auctions) → Call Platform
on_auctions c w = let (r, m) = c w.auctions in (crossing r, record w { auctions = m })

abbrev pub on_invoices :
    {E : Type 0} → (Invoices → Result (Fault E) (Unit {0}) × Invoices) → Call Platform
on_invoices c w = let (r, m) = c w.invoices in (crossing r, record w { invoices = m })

-- What `BillingFacadeAdapter.VoidInvoice` makes of the facade's error.
unfoldable pub void_refused : Result Error (Unit {0}) → Result Error (Unit {0})
unfolding Slug.is
void_refused (err (foreign s)) =
    if Slug.is s (new_conflict_error "invoice-already-paid")
    then err offer_already_paid
    else err (foreign s)
void_refused r = r

-- The methods of `AuctionFacadeAdapter` and of `BillingFacadeAdapter`.
unfoldable pub platform : CommissionPolicy → PaymentTerm → Gateways Platform
unfolding reason_string void_refused
platform policy term = record {
  award_to_runner_up = λ id now. on_auctions (AuctionFacade.award_to_runner_up id now);
  relist = λ id new_id starts_at ends_at now.
      on_auctions (AuctionFacade.relist id new_id starts_at ends_at now);
  mark_sale_failed =
      λ id reason now. on_auctions (AuctionFacade.mark_sale_failed id (reason_string reason) now);
  confirm_settlement = λ id now. on_auctions (AuctionFacade.confirm_settlement id now);
  issue_invoice = λ inv id debtor amount attempt now. on_invoices (
      BillingFacade.issue_invoice policy term inv id debtor amount.amount amount.currency attempt
        now);
  void_invoice = λ inv now w.
      let (r, v) = on_invoices (BillingFacade.void_invoice inv now) w in (void_refused r, v);
}
