-- ===== src/Settlement/Money.antt =====
-- internal/settlement/domain/settlement/money.go: the saga's own money, which it only carries.
use molot.Base.{
  ℕ, Bool, true, false, ◌&&◌, ◌||◌, not, [], ◌∷◌, Result, ok, ◌>>◌, reject_if, ltb, ◌==◌,
  if◌then◌else◌,
}
use molot.Int64
use molot.Text
use molot.Text.{Text}
use molot.Settlement.Errors.{Error, negative_amount, invalid_currency}

abbrev pub Currency : Type 0
Currency = Text

-- The loop `for _, r := range code`.
unfoldable pub all_upper : Text → Bool
all_upper [] = true
all_upper (r ∷ s) = if ltb r b'A' || ltb b'Z' r then false else all_upper s

unfoldable pub new_currency : Text → Result Error Currency
unfolding all_upper Text.len
new_currency code = do
  reject_if (not (Text.len code == 3)) invalid_currency
  reject_if (not (all_upper code)) invalid_currency
  ok code

pub record Money : Type 0 where
  pub amount : ℕ  -- int64
  pub currency : Currency

unfoldable pub new_money : ℕ → Currency → Result Error Money
new_money amount currency = do
  reject_if (Int64.is_neg amount) negative_amount
  reject_if (Text.is_empty currency) invalid_currency
  ok (record { amount = amount; currency = currency })

abbrev pub zero_money : Money
zero_money = record { amount = 0; currency = [] }

-- `m == Money{}`
abbrev pub is_zero : Money → Bool
is_zero m = (m.amount == 0) && Text.is_empty m.currency

-- `m == o`
abbrev pub eq : Money → Money → Bool
eq m o = (m.amount == o.amount) && Text.eq m.currency o.currency
