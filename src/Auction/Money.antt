-- ===== src/Auction/Money.antt =====
-- internal/auction/domain/auction/money.go: currency codes and amounts in minor units (int64).
use molot.Base.{
  ℕ, ◌<◌, ◌≡◌, Bool, true, false, ◌&&◌, ◌||◌, not, [], ◌∷◌, Result, ok, err, panic, ◌>>◌, reject_if,
  arith, ltb, ◌==◌, if◌then◌else◌,
}
use molot.Int64
use molot.Text
use molot.Text.{Text}
use molot.Auction.Errors.{Error, invalid_currency, negative_amount, currency_mismatch}

abbrev pub Currency : Type 0
Currency = Text

-- The loop `for _, r := range code`.
unfoldable pub all_upper : Text → Bool
all_upper [] = true
all_upper (r ∷ s) = if ltb r b'A' || ltb b'Z' r then false else all_upper s

unfoldable pub new_currency : Text → Result Error Currency
unfolding all_upper Text.len
new_currency code = do
  reject_if (not (Text.len code == 3)) invalid_currency
  reject_if (not (all_upper code)) invalid_currency
  ok code

pub record Money : Type 0 where
  pub amount : ℕ  -- int64
  pub currency : Currency

unfoldable pub new_money : ℕ → Currency → Result Error Money
new_money amount_minor currency = do
  reject_if (Text.is_empty currency) invalid_currency
  reject_if (Int64.is_neg amount_minor) negative_amount
  ok (record { amount = amount_minor; currency = currency })

-- `m == Money{}`
abbrev pub is_zero : Money → Bool
is_zero m = (m.amount == 0) && Text.is_empty m.currency

abbrev pub zero_money : Money
zero_money = record { amount = 0; currency = [] }

unfoldable pub add : Money → Money → Result Error Money
add m o = do
  reject_if (not (Text.eq m.currency o.currency)) currency_mismatch
  ok (record { amount = Int64.add m.amount o.amount; currency = m.currency })

unfoldable pub gte : Money → Money → Result Error Bool
gte m o = do
  reject_if (not (Text.eq m.currency o.currency)) currency_mismatch
  ok (Int64.le o.amount m.amount)

-- `ok, err := m.GTE(o); err == nil && ok`, and `err != nil || ok`.
abbrev pub holds : Result Error Bool → Bool
holds (ok b) = b
holds (err e) = false
holds panic = false

abbrev pub holds_or_fails : Result Error Bool → Bool
holds_or_fails (ok b) = b
holds_or_fails (err e) = true
holds_or_fails panic = true

unfoldable pub mul_basis_points : Money → ℕ → Money
mul_basis_points m bp = record {
  amount = Int64.quot (Int64.mul m.amount bp) 10000;
  currency = m.currency;
}

-- A money value that the constructor can have made.
pub record IsMoney (m : Money) : Type 0 where
  pub nonneg : m.amount < Int64.sign_bit
  pub has_currency : Text.is_empty m.currency ≡ false

-- What the constructor accepts is an amount that is not negative, in a currency.
pub new_money-IsMoney :
    (amount : ℕ) (c : Currency) {m : Money} → new_money amount c ≡ ok m → IsMoney m
unfolding new_money
new_money-IsMoney amount c h = ground arith
