-- ===== src/Billing/Amounts.antt =====
-- The amounts of an invoice: hammer, commission and total (internal/billing/domain/invoice).
use molot.Base.{ℕ, ◌+◌, ◌*◌, ◌/◌, ◌≤◌, ◌<◌, ◌≡◌, true, arith, ok, ◌∙◌, ap}
use molot.Int64
use molot.Time.{Time}
use molot.Billing.Money
use molot.Billing.Money.{Money, CommissionPolicy, new_commission_policy, commission_for}
use molot.Billing.Values.{InvoiceId, AuctionId, BidderId, Attempt, PaymentTerm, pending}
use molot.Billing.Invoice.{Invoice, issued, new_invoice}

-- A rate that the constructor accepts is 10,000 basis points at most.
pub new_commission_policy-le :
    (bp : ℕ) {p : CommissionPolicy}
    → bp < Int64.modulus
    → new_commission_policy bp ≡ ok p
    → p.basis_points ≤ 10000
unfolding new_commission_policy Int64.lt
new_commission_policy-le bp small h = ground arith

-- Below 2 ^ 63 the product does not wrap.
commission_exact :
    (hammer : Money) (p : CommissionPolicy)
    → hammer.amount * p.basis_points < Int64.sign_bit
    → (commission_for hammer p).amount ≡ hammer.amount * p.basis_points / 10000
unfolding commission_for Int64.mul Int64.quot
commission_exact hammer p small = ground arith

scale_le : (h bp : ℕ) → bp ≤ 10000 → h * bp ≤ h * 10000
scale_le h bp e = grind arith

module _ (id : InvoiceId) (auction_id : AuctionId) (debtor : BidderId) (hammer : Money)
    (cp : CommissionPolicy) (pt : PaymentTerm) (attempt : Attempt) (now : Time) {i : Invoice}
    (made : new_invoice id auction_id debtor hammer cp pt attempt now ≡ ok i) where
  made_fields :
      (i.hammer ≡ hammer)
      × (i.commission ≡ commission_for hammer cp)
      × (i.total.amount ≡ Int64.add hammer.amount (commission_for hammer cp).amount)
      × (i.total.currency ≡ hammer.currency)
      × (i.status ≡ pending)
  unfolding new_invoice Money.add issued
  made_fields = ground arith

  -- For a hammer price below 2 ^ 63 / 10,000 and a rate of 10,000 basis points at most, the
  -- commission of a new invoice is the rate's share of the hammer price rounded down, the total is
  -- the exact sum of the two, the commission is no more than the hammer price, and the total is in
  -- its currency.
  pub new_invoice_amounts :
      hammer.amount * 10000 < Int64.sign_bit
      → cp.basis_points ≤ 10000
      → (i.commission.amount ≡ hammer.amount * cp.basis_points / 10000)
        × (i.total.amount ≡ hammer.amount + i.commission.amount)
        × (i.commission.amount ≤ hammer.amount)
        × (i.total.currency ≡ hammer.currency)
  new_invoice_amounts small rate =
      let s = scale_le hammer.amount cp.basis_points rate in
      let c = commission_exact hammer cp (omega (arith, s)) in
      let (f, g, t, u, _) = made_fields in
      let share = ap (λ (m : Money). m.amount) g ∙ c in
      let below : i.commission.amount ≤ hammer.amount = omega (arith, share, s) in
      (
        share,
        t ∙ rw (← g) (Int64.add_eq hammer.amount i.commission.amount (omega (arith, below))),
        below,
        u,
      )

-- Where the product of the hammer price and the rate lies between 2 ^ 63 and 2 ^ 64 - 10,000, it
-- wraps to a negative number, and so does the commission.
pub commission_wraps :
    (hammer : Money) (p : CommissionPolicy)
    → Int64.sign_bit ≤ hammer.amount * p.basis_points
    → hammer.amount * p.basis_points + 10000 ≤ Int64.modulus
    → Int64.is_neg (commission_for hammer p).amount ≡ true
unfolding commission_for Int64.mul Int64.quot Int64.neg
commission_wraps hammer p low high = ground arith
