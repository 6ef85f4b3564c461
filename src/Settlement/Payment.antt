-- ===== src/Settlement/Payment.antt =====
-- The decline of the second chance against the payment of its invoice, over the contexts that the
-- adapters reach (docs/ARCHITECTURE.md, section 6.4;
-- internal/settlement/app/command/decline_second_chance_offer.go and the facade of billing).
use molot.Base.{
  ◌≡◌, ◌≢◌, ◌⊎◌, inl, inr, refl, sym, subst, ap, ◌∙◌, arith, true, false, some, ok, err, panic,
  Result, Result-cases,
}
use molot.Slug
use molot.Slug.{new_conflict_error}
use molot.Store
use molot.Table
use molot.Table.{store_updated}
use molot.Uuid.{is_nil}
use molot.Time.{Time}
use molot.Billing.Money.{CommissionPolicy}
use molot.Billing.Values.{
  InvoiceId, PaymentTerm, InvoiceStatus, invoice_voided, unset, pending, paid, expired, voided,
  new_invoice_id,
}
use molot.Billing.Invoice as Aggregate
use molot.Billing.Invoice.{Invoice, void_status, recorded, pull_domain_events}
use molot.Billing.Repository as InvoiceTable
use molot.Billing.Repository.{Invoices, drained}
use molot.Billing.Commands as Commands
use molot.Billing.Commands.{map_void_error}
use molot.Billing.Facade as BillingFacade
use molot.Billing.Psp.{FakePsp}
use molot.Billing.Payments.{is_lost, Steps}
use molot.Billing.Final.{IsLost-stays}
use molot.Settlement.Errors.{Error, offer_already_paid, foreign}
use molot.Settlement.State.{NextStep, award_runner_up, relist, fail_unsold, second_chance_declined}
use molot.Settlement.Closing.{AuctionId, BidderId}
use molot.Settlement.Relist.{RelistPolicy, window}
use molot.Settlement.Saga.{Settlement, decide_on_decline, apply_next_step}
use molot.Settlement.Ids.{UuidLib, relist_id_for}
use molot.Settlement.Gateways.{Call, then_call, with_result}
use molot.Settlement.Adapters.{Platform, platform, void_refused}
use molot.Settlement.Repository
use molot.Settlement.Action.{World, Action, update, on_error, call, interrupt, ◌>>◌}
use molot.Settlement.Decline.{compensate, handle, commit_failed, answer_by_state}
use molot.Settlement.Races.{decline_void_paid}

-- An invoice of the table is expired or voided.
abbrev pub IsUnpayable : InvoiceId → Invoices → Type 0
IsUnpayable id m = (j : Invoice) × (Store.lookup id m ≡ some j) × (is_lost j.status ≡ true)

module _ (fee : CommissionPolicy) (term : PaymentTerm) (id : InvoiceId) (now : Time) (w : Platform)
    (i : Invoice) (set : is_nil id ≡ false) (there : Store.lookup id w.invoices ≡ some i) where
  void_paid :
      i.status ≡ paid → (platform fee term).void_invoice id now w ≡ (err offer_already_paid, w)
  unfolding platform void_refused BillingFacade.void_invoice new_invoice_id Commands.void_invoice
      InvoiceTable.update_as_system Table.update store_updated Aggregate.void void_status
      map_void_error Slug.is
  void_paid h = ground (arith, set, there, h)

  -- A void that is not refused leaves the invoice expired or voided.
  void-IsUnpayable :
      (i.status ≡ pending) ⊎ (i.status ≡ expired) ⊎ (i.status ≡ voided)
      → (((platform fee term).void_invoice id now w).0 ≡ ok tt)
        × IsUnpayable id ((platform fee term).void_invoice id now w).1.invoices
  unfolding platform void_refused BillingFacade.void_invoice new_invoice_id Commands.void_invoice
      InvoiceTable.update_as_system Table.update store_updated drained Aggregate.void void_status
      map_void_error
  void-IsUnpayable (inl h) =
      let j : Invoice =
        pull_domain_events (recorded (invoice_voided i.id now) (record i { status = voided })) in
      (
        ground (arith, set, there, h),
        (j, ground (arith, set, there, h, Store.lookup-insert_self id j w.invoices), refl),
      )
  void-IsUnpayable (inr (inl h)) =
      (ground (arith, set, there, h), (i, ground (arith, set, there, h), ground (arith, h)))
  void-IsUnpayable (inr (inr h)) =
      (ground (arith, set, there, h), (i, ground (arith, set, there, h), ground (arith, h)))

-- An invoice has one of four statuses.
status_cases :
    (s : InvoiceStatus) → s ≢ unset → (s ≡ paid) ⊎ (s ≡ pending) ⊎ (s ≡ expired) ⊎ (s ≡ voided)
status_cases unset h = absurd (h refl)
status_cases paid h = inl refl
status_cases pending h = inr (inl refl)
status_cases expired h = inr (inr (inl refl))
status_cases voided h = inr (inr (inr refl))

-- A call that leaves the table of invoices as it is.
abbrev KeepsInvoices : Call Platform → Type 0
KeepsInvoices c = (w : Platform) → (c w).1.invoices ≡ w.invoices

then-KeepsInvoices :
    (c d : Call Platform) → KeepsInvoices c → KeepsInvoices d → KeepsInvoices (then_call c d)
then-KeepsInvoices c d h k w = elim (Result-cases (c w).0) [
  | inl (u, fine) ↦
      let second : (then_call c d w).1.invoices ≡ (d (c w).1).1.invoices = ground (arith, fine) in
      second ∙ k (c w).1 ∙ h w
  | inr failed ↦
      let first : (then_call c d w).1.invoices ≡ (c w).1.invoices = ground (arith, failed) in
      first ∙ h w
]

result-KeepsInvoices :
    {A : Type 0} (r : Result Error A) (c : A → Call Platform)
    → ((a : A) → KeepsInvoices (c a))
    → KeepsInvoices (with_result r c)
result-KeepsInvoices (ok a) c h w = h a w
result-KeepsInvoices (err e) c h w = refl
result-KeepsInvoices panic c h w = refl

module _ (fee : CommissionPolicy) (term : PaymentTerm) (lib : UuidLib) (policy : RelistPolicy)
    (id : AuctionId) (now : Time) where
  -- The compensation calls the auction context only.
  compensate_invoices :
      (step : NextStep) (w : Platform)
      → (compensate (platform fee term) lib policy id step now w).1.invoices ≡ w.invoices
  unfolding compensate platform
  compensate_invoices relist =
      let fails = (platform fee term).mark_sale_failed id second_chance_declined now in
      let relists : AuctionId → Call Platform = λ new_id.
        (platform fee term).relist id new_id (window policy now).0 (window policy now).1 now in
      then-KeepsInvoices fails (with_result (relist_id_for lib id) relists) (λ w. refl)
        (result-KeepsInvoices (relist_id_for lib id) relists (λ a w. refl))
  compensate_invoices fail_unsold = λ w. refl
  compensate_invoices award_runner_up = λ w. refl

  failed_far :
      (actor : BidderId) (e : Error) (u : World Platform)
      → (commit_failed (platform fee term) lib policy id actor e u).1.far ≡ u.far
  unfolding commit_failed answer_by_state
  failed_far actor e u = ground arith

  -- The commit calls no other context.
  commit_far :
      (actor : BidderId) (f : Settlement → Result Error Settlement) (u : World Platform)
      → (on_error (commit_failed (platform fee term) lib policy id actor) (update id f) u).1.far
        ≡ u.far
  commit_far actor f u = elim (Result-cases (Repository.update id f u.sagas).0) [
    | inl (x, fine) ↦ ground (arith, fine)
    | inr (inl (e, failed)) ↦ ground (arith, failed, failed_far actor e (update id f u).1)
    | inr (inr panics) ↦ ground (arith, panics)
  ]

  module _ (actor : BidderId) (meanwhile : World Platform → World Platform)
      (calls : (u : World Platform)
        → (p q : FakePsp) × Steps
            (record { invoices = u.far.invoices; psp = p })
            (record { invoices = (meanwhile u).far.invoices; psp = q })) where
    -- What follows the void.
    abbrev rest : NextStep → Action Platform (Unit {0})
    rest step =
        call (compensate (platform fee term) lib policy id step now)
        >> (interrupt meanwhile
            >> on_error (commit_failed (platform fee term) lib policy id actor)
                (update id (λ current. apply_next_step current step second_chance_declined)))

    rest-IsUnpayable :
        (step : NextStep) (inv : InvoiceId) (u : World Platform)
        → IsUnpayable inv u.far.invoices
        → IsUnpayable inv (rest step u).1.far.invoices
    rest-IsUnpayable step inv u lost =
        let called = compensate (platform fee term) lib policy id step now u.far in
        let kept = sym (compensate_invoices step u.far) in
        let u' : World Platform = record u { far = called.1 } in
        elim (Result-cases called.0) [
          | inl (x, fine) ↦
              let ends : (rest step u).1.far ≡ (meanwhile u').far = ground (
                arith,
                fine,
                commit_far actor (λ current. apply_next_step current step second_chance_declined)
                    (meanwhile u'),
              ) in
              let (p, q, steps) = calls u' in
              subst (IsUnpayable inv) (sym (ap (λ (w : Platform). w.invoices) ends))
                (IsLost-stays inv steps (subst (IsUnpayable inv) kept lost))
          | inr failed ↦
              let ends : (rest step u).1.far ≡ called.1 = ground (arith, failed) in
              subst (IsUnpayable inv) (sym (ap (λ (w : Platform). w.invoices) ends))
                (subst (IsUnpayable inv) kept lost)
        ]

    not_paid : (t : InvoiceStatus) → (t ≡ pending) ⊎ (t ≡ expired) ⊎ (t ≡ voided) → t ≢ paid
    not_paid t h = λ e. ground arith

    -- Over the facades of the auction and billing contexts: a decline was decided, the invoice of
    -- its saga has an identity and is stored with a known status, and the handlers that run between
    -- its effects and its commit make what calls of the billing context they like (sagas and
    -- auctions they may change at will). If the invoice is paid when the decline starts, the
    -- decline answers with the conflict offer-already-paid and changes nothing; if it is not, then
    -- in the end the invoice is expired or voided, whatever the decline answers.
    pub payment_or_decline :
        (v : World Platform) {s : Settlement} {step : NextStep} {i : Invoice}
        → Repository.get id v.sagas ≡ ok s
        → decide_on_decline s actor ≡ ok step
        → is_nil s.invoice_id ≡ false
        → Store.lookup s.invoice_id v.far.invoices ≡ some i
        → i.status ≢ unset
        → ((i.status ≡ paid)
            × (handle (platform fee term) lib policy id actor now meanwhile v
                ≡ (err (foreign (new_conflict_error "offer-already-paid")), v)))
          ⊎ ((i.status ≢ paid)
              × IsUnpayable s.invoice_id
                  (handle (platform fee term) lib policy id actor now meanwhile v).1.far.invoices)
    unfolding handle
    payment_or_decline v {s} {step} {i} found decided set there known =
        elim (status_cases i.status known) [
          | inl h ↦ inl (
            h,
            decline_void_paid (platform fee term) lib policy id actor now meanwhile v found decided
                (void_paid fee term s.invoice_id now v.far i set there h),
          )
          | inr h ↦
              let (fine, lost) = void-IsUnpayable fee term s.invoice_id now v.far i set there h in
              let voided_far = ((platform fee term).void_invoice s.invoice_id now v.far).1 in
              let ends : (handle (platform fee term) lib policy id actor now meanwhile v).1.far
                  ≡ (rest step (record v { far = voided_far })).1.far =
                ground (arith, found, decided, fine) in
              inr (
                not_paid i.status h,
                subst (IsUnpayable s.invoice_id) (sym (ap (λ (w : Platform). w.invoices) ends))
                    (rest-IsUnpayable step s.invoice_id (record v { far = voided_far }) lost),
              )
        ]
