-- ===== src/Billing/Money.antt =====
-- internal/billing/domain/invoice/money.go and commission.go: amounts and the platform's cut.
use molot.Base.{
  ℕ, Bool, true, false, ◌&&◌, ◌||◌, not, [], ◌∷◌, Result, ok, ◌>>◌, reject_if, ltb, ◌==◌,
  if◌then◌else◌,
}
use molot.Int64
use molot.Text
use molot.Text.{Text}
use molot.Billing.Errors.{
  Error, currency_mismatch, negative_amount, invalid_currency, invalid_commission_rate,
}

abbrev pub Currency : Type 0
Currency = Text

-- The loop `for _, r := range code`.
unfoldable pub all_upper : Text → Bool
all_upper [] = true
all_upper (r ∷ s) = if ltb r b'A' || ltb b'Z' r then false else all_upper s

-- `NewCurrency`. Its test `strings.ToUpper(code) != code` returns the same error as the loop after
-- it, and no code that passes the loop fails it, so it has no branch of its own here.
unfoldable pub new_currency : Text → Result Error Currency
unfolding all_upper Text.len
new_currency code = do
  reject_if (not (Text.len code == 3)) invalid_currency
  reject_if (not (all_upper code)) invalid_currency
  ok code

pub record Money : Type 0 where
  pub amount : ℕ  -- int64
  pub currency : Currency

unfoldable pub new_money : ℕ → Currency → Result Error Money
new_money amount_minor currency = do
  reject_if (Int64.is_neg amount_minor) negative_amount
  reject_if (Text.is_empty currency) invalid_currency
  ok (record { amount = amount_minor; currency = currency })

-- `m == Money{}`
abbrev pub is_zero : Money → Bool
is_zero m = (m.amount == 0) && Text.is_empty m.currency

unfoldable pub add : Money → Money → Result Error Money
add m other = do
  reject_if (not (Text.eq m.currency other.currency)) currency_mismatch
  ok (record { amount = Int64.add m.amount other.amount; currency = m.currency })

unfoldable pub mul_basis_points : Money → ℕ → Money
mul_basis_points m bp = record {
  amount = Int64.quot (Int64.mul m.amount bp) 10000;
  currency = m.currency;
}

pub record CommissionPolicy : Type 0 where
  pub basis_points : ℕ  -- int

unfoldable pub new_commission_policy : ℕ → Result Error CommissionPolicy
new_commission_policy basis_points = do
  reject_if (Int64.is_neg basis_points || Int64.lt 10000 basis_points) invalid_commission_rate
  ok (record { basis_points = basis_points })

unfoldable pub commission_for : Money → CommissionPolicy → Money
unfolding mul_basis_points
commission_for hammer p = mul_basis_points hammer p.basis_points
