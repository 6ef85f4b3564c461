-- ===== src/Settlement/Relist.antt =====
-- internal/settlement/domain/settlement/relist.go: when the replacement listing runs.
use molot.Base.{◌≡◌, ◌<◌, not, Result, ok, ◌>>◌, reject_if, arith}
use molot.Int64
use molot.Time
use molot.Time.{Time, Duration}
use molot.Settlement.Errors.{Error, delay_not_positive, duration_not_positive}

pub record RelistPolicy : Type 0 where
  pub delay : Duration
  pub duration : Duration

unfoldable pub new_relist_policy : Duration → Duration → Result Error RelistPolicy
new_relist_policy delay duration = do
  reject_if (not (Int64.is_pos delay)) delay_not_positive
  reject_if (not (Int64.is_pos duration)) duration_not_positive
  ok (record { delay = delay; duration = duration })

-- `Window`
unfoldable pub window : RelistPolicy → Time → Time × Time
window p now = let starts_at = Time.add now p.delay in (starts_at, Time.add starts_at p.duration)

-- The window of a policy that the constructor made starts after the current time, and is not empty.
pub window_after :
    (delay duration : Duration) (now : Time) {p : RelistPolicy}
    → new_relist_policy delay duration ≡ ok p
    → (now < (window p now).0) × ((window p now).0 < (window p now).1)
unfolding new_relist_policy window Time.add
window_after delay duration now h = ground arith
