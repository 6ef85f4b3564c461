-- ===== src/Billing/Ledger.antt =====
-- The invariant of the money: what is paid was charged and is kept, and what was given back is not
-- paid (internal/billing/app/command and internal/billing/adapters/psp_fake.go).
use molot.Base.{
  ◌≡◌, subst, ◌≢◌, ◌⊎◌, inl, inr, refl, sym, ap, ◌∙◌, arith, true, some, Result, ok, Option-cases,
  Result-cases, Bool-cases, ◌==◌, ◌++◌,
}
use molot.Store
use molot.Store.{Store}
use molot.Text.{Text, text}
use molot.Billing.Errors.{Error}
use molot.Billing.Values.{InvoiceId, PaymentReference, new_payment_reference, paid}
use molot.Billing.Invoice.{Invoice}
use molot.Billing.Repository.{Invoices}
use molot.Billing.Psp
use molot.Billing.Psp.{FakePsp, is_set, success, decline, flaky, accept, charge_new, PspMode}
use molot.Billing.Pay.{Till}
use molot.Billing.Payments.{
  is_lost, Step, issues, expires, voids, charges, commits, refunds, Change, same, added, moved,
  Step-Change,
}

pub record IsBalanced (w : Till FakePsp) : Type 0 where
  pub paid_charged :
      (id : InvoiceId) (i : Invoice)
      → Store.lookup id w.invoices ≡ some i
      → i.status ≡ paid
      → Store.lookup id w.psp.charges ≡ some i.psp_ref
  pub refunded_lost :
      (id : InvoiceId)
      → is_set id w.psp.refunded ≡ true
      → (i : Invoice) × (Store.lookup id w.invoices ≡ some i) × (is_lost i.status ≡ true)

-- A final status stays.
module _ (c : Store PaymentReference) (m m' : Invoices) (change : Change c m m') (id : InvoiceId)
    (i : Invoice) (there : Store.lookup id m ≡ some i) where
  pub lost_kept :
      is_lost i.status ≡ true
      → (j : Invoice) × (Store.lookup id m' ≡ some j) × (is_lost j.status ≡ true)
  lost_kept lost = elim change [
    | same e ↦ (i, ap (Store.lookup id) e ∙ there, lost)
    | added k j absent fresh e ↦
        let apart : id ≢ k = λ q. ground (arith, there, absent, ap (λ x. Store.lookup x m) q) in
        (i, ap (Store.lookup id) e ∙ Store.lookup-insert_ne k id j m apart ∙ there, lost)
    | moved k a j found from to e ↦
        let apart : id ≢ k =
          λ q. ground (arith, there, found, from, lost, ap (λ x. Store.lookup x m) q) in
        (i, ap (Store.lookup id) e ∙ Store.lookup-insert_ne k id j m apart ∙ there, lost)
  ]

  pub paid_kept : i.status ≡ paid → Store.lookup id m' ≡ some i
  paid_kept settled = elim change [
    | same e ↦ ap (Store.lookup id) e ∙ there
    | added k j absent fresh e ↦
        let apart : id ≢ k = λ q. ground (arith, there, absent, ap (λ x. Store.lookup x m) q) in
        ap (Store.lookup id) e ∙ Store.lookup-insert_ne k id j m apart ∙ there
    | moved k a j found from to e ↦
        let apart : id ≢ k =
          λ q. ground (arith, there, found, from, settled, ap (λ x. Store.lookup x m) q) in
        ap (Store.lookup id) e ∙ Store.lookup-insert_ne k id j m apart ∙ there
  ]

-- A paid invoice was charged, after a change as before it.
paid_charged_after :
    (c : Store PaymentReference) (m m' : Invoices)
    → ((id : InvoiceId) (i : Invoice)
        → Store.lookup id m ≡ some i
        → i.status ≡ paid
        → Store.lookup id c ≡ some i.psp_ref)
    → Change c m m'
    → (id : InvoiceId) (i : Invoice) → Store.lookup id m' ≡ some i
    → i.status ≡ paid
    → Store.lookup id c ≡ some i.psp_ref
paid_charged_after c m m' before (same e) id i there settled =
    before id i (ap (Store.lookup id) (sym e) ∙ there) settled
paid_charged_after c m m' before (added k j absent fresh e) id i there settled =
    let at = ap (Store.lookup id) (sym e) ∙ there in
    ground (arith, Store.lookup-insert k id j m, before id i)
paid_charged_after c m m' before (moved k a j found from to e) id i there settled =
    let at = ap (Store.lookup id) (sym e) ∙ there in
    ground (arith, Store.lookup-insert k id j m, before id i)

-- The provider keeps its charges, and gives nothing back on its own.
module _ (fresh : Text) (k : InvoiceId) (p : FakePsp) where
  -- What a call of `Charge` for a key without a charge comes to.
  abbrev Charged : Result Error PaymentReference × FakePsp → Type 0
  Charged (r, q) =
      (q.refunded ≡ p.refunded)
      × (((ref : PaymentReference) × (r ≡ ok ref) × (q.charges ≡ Store.insert k ref p.charges))
          ⊎ (((ref : PaymentReference) → r ≢ ok ref) × (q.charges ≡ p.charges)))

  accept-Charged : Charged (accept fresh k p)
  unfolding accept
  accept-Charged = elim (Result-cases (new_payment_reference (text "psp-" ++ fresh))) [
    | inl (ref, made) ↦
        (ground (arith, made), inl (ref, ground (arith, made), ground (arith, made)))
    | inr failed ↦
        (ground (arith, failed), inr (λ ref e. ground (arith, failed), ground (arith, failed)))
  ]

  charge_new-Charged : (mode : PspMode) → Charged (charge_new mode fresh k p)
  unfolding charge_new
  charge_new-Charged success = accept-Charged
  charge_new-Charged decline = (refl, inr (λ ref e. ground arith, refl))
  charge_new-Charged flaky = elim (Bool-cases (is_set k p.failed_once)) [
    | inl failed ↦
        let e : charge_new flaky fresh k p ≡ accept fresh k p = ground (arith, failed) in
        subst Charged (sym e) accept-Charged
    | inr first ↦
        (ground (arith, first), inr (λ ref e. ground (arith, first), ground (arith, first)))
  ]

  pub charge-refunded : (Psp.charge fresh k p).1.refunded ≡ p.refunded
  unfolding Psp.charge
  charge-refunded = elim (Option-cases (Store.lookup k p.charges)) [
    | inl absent ↦ ground (arith, absent, (charge_new-Charged p.mode).0)
    | inr (ref, there) ↦ ground (arith, there)
  ]

  -- A charge stays.
  pub charge_kept :
      (id : InvoiceId) {ref : PaymentReference}
      → Store.lookup id p.charges ≡ some ref
      → Store.lookup id (Psp.charge fresh k p).1.charges ≡ some ref
  unfolding Psp.charge
  charge_kept id {ref} there = elim (Option-cases (Store.lookup k p.charges)) [
    | inl absent ↦ elim (charge_new-Charged p.mode).1 [
      | inl (new, made, e) ↦
          let apart : id ≢ k = λ q. ground (arith, absent, ap (λ x. Store.lookup x p.charges) q) in
          ground (arith, absent, e, Store.lookup-insert_ne k id new p.charges apart)
      | inr (failed, e) ↦ ground (arith, absent, e)
    ]
    | inr (old, found) ↦ ground (arith, found)
  ]

  -- A reference that is given out is the one of the charge.
  pub charge_ok :
      {ref : PaymentReference}
      → (Psp.charge fresh k p).0 ≡ ok ref
      → Store.lookup k (Psp.charge fresh k p).1.charges ≡ some ref
  unfolding Psp.charge
  charge_ok {ref} h = elim (Option-cases (Store.lookup k p.charges)) [
    | inl absent ↦ elim (charge_new-Charged p.mode).1 [
      | inl (new, made, e) ↦
          ground (arith, absent, e, made, Store.lookup-insert_self k new p.charges)
      | inr (failed, e) ↦ absurd (failed ref (ground (arith, absent)))
    ]
    | inr (old, found) ↦ ground (arith, found)
  ]

-- What a refund leaves.
pub refund-charges : (k : InvoiceId) (p : FakePsp) → (Psp.refund k p).1.charges ≡ p.charges
unfolding Psp.refund
refund-charges k p = elim (Option-cases (Store.lookup k p.charges)) [
  | inl absent ↦ ground (arith, absent)
  | inr (ref, there) ↦ ground (arith, there)
]

pub refund_sets :
    (k : InvoiceId) (p : FakePsp) (id : InvoiceId)
    → is_set id (Psp.refund k p).1.refunded ≡ true
    → (is_set id p.refunded ≡ true) ⊎ (id ≡ k)
unfolding Psp.refund
refund_sets k p id h = elim (Option-cases (Store.lookup k p.charges)) [
  | inl absent ↦ inl (ground (arith, absent))
  | inr (ref, there) ↦ elim (Bool-cases (id == k)) [
    | inl same_key ↦ inr (ground arith)
    | inr apart ↦ inl (ground (arith, there, Store.lookup-insert k id true p.refunded))
  ]
]

-- A charge stays through every call.
pub charges_kept :
    {w v : Till FakePsp}
    → Step w v
    → (id : InvoiceId) (ref : PaymentReference) → Store.lookup id w.psp.charges ≡ some ref
    → Store.lookup id v.psp.charges ≡ some ref
charges_kept (issues policy term k auction_id debtor hammer attempt now) id out there = there
charges_kept (expires k now) id out there = there
charges_kept (voids k now) id out there = there
charges_kept {w} (charges fresh k) id out there = charge_kept fresh k w.psp id there
charges_kept (commits k payer ref now charged) id out there = there
charges_kept {w} (refunds k i found lost) id out there =
    ap (Store.lookup id) (refund-charges k w.psp) ∙ there

-- What a call gives back was found lost.
refunds_only :
    {w v : Till FakePsp}
    → Step w v
    → (id : InvoiceId) → is_set id v.psp.refunded ≡ true
    → (is_set id w.psp.refunded ≡ true)
      ⊎ ((i : Invoice) × (Store.lookup id v.invoices ≡ some i) × (is_lost i.status ≡ true))
refunds_only (issues policy term k auction_id debtor hammer attempt now) id back = inl back
refunds_only (expires k now) id back = inl back
refunds_only (voids k now) id back = inl back
refunds_only {w} (charges fresh k) id back =
    inl (ap (is_set id) (sym (charge-refunded fresh k w.psp)) ∙ back)
refunds_only (commits k payer ref now charged) id back = inl back
refunds_only {w} (refunds k i found lost) id back = elim (refund_sets k w.psp id back) [
  | inl before ↦ inl before
  | inr e ↦ inr (i, ap (λ x. Store.lookup x w.invoices) e ∙ found, lost)
]

-- Every call keeps the balance.
pub Step-IsBalanced : {w v : Till FakePsp} → Step w v → IsBalanced w → IsBalanced v
Step-IsBalanced {w} {v} step b = record {
  paid_charged = λ id i there settled. charges_kept step id i.psp_ref (
      paid_charged_after w.psp.charges w.invoices v.invoices b.paid_charged (Step-Change step) id i
        there settled);
  refunded_lost = λ id back. elim (refunds_only step id back) [
    | inl before ↦
        let (i, there, lost) = b.refunded_lost id before in
        lost_kept w.psp.charges w.invoices v.invoices (Step-Change step) id i there lost
    | inr found ↦ found
  ];
}
