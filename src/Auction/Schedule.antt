-- ===== src/Auction/Schedule.antt =====
-- internal/auction/domain/auction/schedule.go: the bidding window.
use molot.Base.{Bool, ◌&&◌, ◌||◌, not, Result, ok, ◌>>◌, reject_if}
use molot.Time
use molot.Time.{Time, Duration}
use molot.Auction.Errors.{Error, invalid_bidding_window}

pub record BiddingWindow : Type 0 where
  pub starts_at : Time
  pub ends_at : Time
  pub original_ends_at : Time

unfoldable pub new_bidding_window : Time → Time → Result Error BiddingWindow
new_bidding_window starts_at ends_at = do
  reject_if (Time.is_zero starts_at || Time.is_zero ends_at || not (Time.after ends_at starts_at))
      invalid_bidding_window
  ok (record { starts_at = starts_at; ends_at = ends_at; original_ends_at = ends_at })

unfoldable pub unmarshal_bidding_window : Time → Time → Time → Result Error BiddingWindow
unmarshal_bidding_window starts_at ends_at original_ends_at = do
  reject_if (Time.is_zero starts_at || Time.is_zero ends_at || Time.is_zero original_ends_at)
      invalid_bidding_window
  reject_if (not (Time.after ends_at starts_at) || Time.before ends_at original_ends_at)
      invalid_bidding_window
  ok (record { starts_at = starts_at; ends_at = ends_at; original_ends_at = original_ends_at })

-- `w == BiddingWindow{}`
abbrev pub is_zero : BiddingWindow → Bool
is_zero w = Time.is_zero w.starts_at && Time.is_zero w.ends_at && Time.is_zero w.original_ends_at

unfoldable pub is_open_at : BiddingWindow → Time → Bool
is_open_at w now = not (Time.before now w.starts_at) && Time.before now w.ends_at

unfoldable pub extended_by : BiddingWindow → Duration → BiddingWindow
extended_by w d = record w { ends_at = Time.add w.ends_at d }
