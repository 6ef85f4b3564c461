-- ===== src/Billing/Overdue.antt =====
-- What a tick of the worker does to the invoices that are overdue (internal/billing/ports/worker.go).
use mathlib.Core.List.Memᴰ
use molot.Base.{
  ◌≡◌, ◌≢◌, ◌≤◌, inl, inr, sym, ap, ◌∙◌, subst, Bool, true, false, List, [], ◌∷◌, map, take,
  take_all, length, Memᴰ, arith, some, Result-cases, Bool-cases, ◌==◌, if◌then◌else◌,
}
use molot.Store
use molot.Table
use molot.Time.{Time}
use molot.Billing.Errors.{not_found}
use molot.Billing.Values.{InvoiceId, pending, expired}
use molot.Billing.Invoice
use molot.Billing.Invoice.{Invoice, expire_status, pull_domain_events}
use molot.Billing.Repository
use molot.Billing.Repository.{Invoices, due_at_before, pending_due_before, drained, is_due}
use molot.Billing.Commands.{expire_invoice}
use molot.Billing.Worker.{expire_all, tick, expiry_batch_limit}

expire_other :
    (k : InvoiceId) (t : Time) (m : Invoices) (id : InvoiceId)
    → id ≢ k
    → Store.lookup id (expire_invoice k t m).1 ≡ Store.lookup id m
unfolding expire_invoice Repository.update_as_system
expire_other k t m id apart =
    Table.update-lookup_ne not_found drained k (λ i. Invoice.expire i t) m id apart

module _ (id : InvoiceId) (t : Time) (m : Invoices) (i : Invoice)
    (there : Store.lookup id m ≡ some i) where
  expire_due :
      i.status ≡ pending
      → i.due_at ≤ t
      → (j : Invoice) × (Store.lookup id (expire_invoice id t m).1 ≡ some j) × (j.status ≡ expired)
  unfolding expire_invoice Repository.update_as_system Table.update Table.store_updated drained
      Invoice.expire expire_status
  expire_due open_invoice due = elim (Result-cases (Invoice.expire i t)) [
    | inl (j, made) ↦ (
      pull_domain_events j,
      ground (arith, there, made, Store.lookup-insert_self id (pull_domain_events j) m),
      ground (arith, made),
    )
    | inr failed ↦ absurd (ground (arith, failed))
  ]

  expire_again : i.status ≡ expired → Store.lookup id (expire_invoice id t m).1 ≡ some i
  unfolding expire_invoice Repository.update_as_system Table.update Table.store_updated
      Invoice.expire expire_status
  expire_again gone = ground (arith, there)

-- An expired invoice stays so through the loop.
expire_all_kept :
    (clock : InvoiceId → Time) (ids : List InvoiceId) (m : Invoices) (id : InvoiceId) (i : Invoice)
    → Store.lookup id m ≡ some i
    → i.status ≡ expired
    → Store.lookup id (expire_all clock ids m) ≡ some i
unfolding expire_all
expire_all_kept clock [] m id i there gone = there
expire_all_kept clock (k ∷ ids) m id i there gone =
    expire_all_kept clock ids (expire_invoice k (clock k) m).1 id i
      (elim (Bool-cases (id == k)) [
        | inl same ↦
            let e : k ≡ id = ground arith in
            ap (λ x. Store.lookup id (expire_invoice x (clock x) m).1) e
            ∙ expire_again id (clock id) m i there gone
        | inr apart ↦ expire_other k (clock k) m id (λ e. ground arith) ∙ there
      ])
      gone

-- The loop expires what it handles.
expire_all_done :
    (clock : InvoiceId → Time) (ids : List InvoiceId) (m : Invoices) (id : InvoiceId) (i : Invoice)
    → Memᴰ id ids
    → Store.lookup id m ≡ some i
    → i.status ≡ pending
    → i.due_at ≤ clock id
    → (j : Invoice) × (Store.lookup id (expire_all clock ids m) ≡ some j) × (j.status ≡ expired)
unfolding expire_all
expire_all_done clock [] m id i among there open_invoice due = absurd (Memᴰ.not-nil among)
expire_all_done clock (k ∷ ids) m id i among there open_invoice due =
    let next : Invoices = (expire_invoice k (clock k) m).1 in
    elim (Bool-cases (id == k)) [
      | inl same ↦
          let e : id ≡ k = ground arith in
          let (j, found, gone) = expire_due id (clock id) m i there open_invoice due in
          let at : Store.lookup id next ≡ some j =
            ap (λ x. Store.lookup id (expire_invoice x (clock x) m).1) (sym e) ∙ found in
          (j, expire_all_kept clock ids next id j at gone, gone)
      | inr apart ↦ elim (Memᴰ.cases_cons among) [
        | inl first ↦ absurd (ground arith)
        | inr later ↦
            expire_all_done clock ids next id i later
              (expire_other k (clock k) m id (λ e. ground arith) ∙ there) open_invoice due
      ]
    ]

-- The list of a loop that keeps what passes a test.
module _ {A : Type 0} (x : A) where
  kept_tail : (b : Bool) (c : A) (l : List A) → Memᴰ x l → Memᴰ x (if b then c ∷ l else l)
  kept_tail true c l among = Memᴰ.tail among
  kept_tail false c l among = among

  kept_head : (b : Bool) (c : A) (l : List A) → b ≡ true → x ≡ c → Memᴰ x (if b then c ∷ l else l)
  kept_head true c l passes e = Memᴰ.head e
  kept_head false c l passes e = absurd (ground arith)

-- A pending invoice that is overdue is a candidate.
due_among :
    (t : Time) (m : Invoices) (id : InvoiceId) (i : Invoice)
    → Store.lookup id m ≡ some i
    → i.status ≡ pending
    → i.due_at ≤ t
    → Memᴰ (id, i.due_at) (due_at_before t m)
unfolding due_at_before Store.lookup
due_among t [] id i there open_invoice due = absurd (ground arith)
due_among t ((k, v) ∷ m) id i there open_invoice due = elim (Bool-cases (id == k)) [
  | inl same ↦
      let found : v ≡ i = ground arith in
      let e : id ≡ k = ground arith in
      let d : i.due_at ≡ v.due_at = ap (λ q. q.due_at) (sym found) in
      kept_head (id, i.due_at) (is_due t v) (k, v.due_at) (due_at_before t m) (ground arith)
        (ap (λ q. (q, i.due_at)) e ∙ ap (λ q. (k, q)) d)
  | inr apart ↦
      kept_tail (id, i.due_at) (is_due t v) (k, v.due_at) (due_at_before t m)
        (due_among t m id i (ground arith) open_invoice due)
]

-- What the worker relies on of its candidates' order: nothing is lost and nothing is added.
pub record IsArrangement (arrange : List (InvoiceId × Time) → List (InvoiceId × Time))
    : Type 0 where
  pub keeps : (c : InvoiceId × Time) (l : List (InvoiceId × Time)) → Memᴰ c l → Memᴰ c (arrange l)
  pub keeps_length : (l : List (InvoiceId × Time)) → length (arrange l) ≡ length l

-- A tick of the expiry worker expires every pending invoice that is due at the time of its scan,
-- where no other handler runs meanwhile, at most 100 invoices are due, the clock does not go back,
-- and the arrangement of the candidates neither loses nor adds one.
pub tick_expires :
    (arrange : List (InvoiceId × Time) → List (InvoiceId × Time)) (now : Time)
    (clock : InvoiceId → Time) (m : Invoices) (id : InvoiceId) (i : Invoice)
    → IsArrangement arrange
    → length (due_at_before now m) ≤ expiry_batch_limit
    → now ≤ clock id
    → Store.lookup id m ≡ some i
    → i.status ≡ pending
    → i.due_at ≤ now
    → (j : Invoice) × (Store.lookup id (tick arrange now clock m) ≡ some j) × (j.status ≡ expired)
unfolding tick pending_due_before
tick_expires arrange now clock m id i fair few later there open_invoice due =
    let arranged = arrange (due_at_before now m) in
    let all : take expiry_batch_limit arranged ≡ arranged =
      take_all expiry_batch_limit arranged
        (omega (arith, fair.keeps_length (due_at_before now m))) in
    let among : Memᴰ id (map (λ c. c.0) (take expiry_batch_limit arranged)) =
      subst (λ l. Memᴰ id (map (λ c. c.0) l)) (sym all)
        (Memᴰ.map (λ c. c.0)
          (fair.keeps (id, i.due_at) (due_at_before now m)
            (due_among now m id i there open_invoice due))) in
    expire_all_done clock (map (λ c. c.0) (take expiry_batch_limit arranged)) m id i among there
      open_invoice (omega arith)
