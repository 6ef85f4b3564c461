-- ===== src/Auction/Lot.antt =====
-- internal/auction/domain/auction/lot.go: what is being sold.
use molot.Base.{Bool, ◌&&◌, Result, ok, ◌>>◌, reject_if}
use molot.Text
use molot.Text.{Text}
use molot.Auction.Errors.{Error, invalid_lot}

pub record Lot : Type 0 where
  pub title : Text
  pub description : Text

unfoldable pub new_lot : Text → Text → Result Error Lot
unfolding Text.trim_space
new_lot title description = do
  reject_if (Text.is_empty (Text.trim_space title)) invalid_lot
  ok (record { title = title; description = description })

-- `l == Lot{}`
abbrev pub is_zero : Lot → Bool
is_zero l = Text.is_empty l.title && Text.is_empty l.description
