-- ===== src/Auction/AntiSnipe.antt =====
-- internal/auction/domain/auction/antisnipe.go: the anti-sniping rule of an auction.
use molot.Base.{ℕ, Bool, ◌&&◌, ◌||◌, not, Result, ok, ◌>>◌, reject_if, ◌==◌}
use molot.Int64
use molot.Time
use molot.Time.{Time, Duration}
use molot.Auction.Errors.{Error, invalid_anti_snipe_policy}

pub record AntiSnipePolicy : Type 0 where
  pub window : Duration
  pub extension : Duration
  pub max_extensions : ℕ  -- int

unfoldable pub new_anti_snipe_policy : Duration → Duration → ℕ → Result Error AntiSnipePolicy
new_anti_snipe_policy window extension max_extensions = do
  reject_if
      (not (Int64.is_pos window) || not (Int64.is_pos extension) || Int64.is_neg max_extensions)
      invalid_anti_snipe_policy
  ok (record { window = window; extension = extension; max_extensions = max_extensions })

-- `p == AntiSnipePolicy{}`
abbrev pub is_zero : AntiSnipePolicy → Bool
is_zero p = (p.window == 0) && (p.extension == 0) && (p.max_extensions == 0)

unfoldable pub triggers_at : AntiSnipePolicy → Time → Time → Bool
triggers_at p now ends_at = not (Time.before now (Time.add ends_at (Int64.neg p.window)))
