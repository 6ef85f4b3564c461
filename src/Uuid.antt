-- ===== src/Uuid.antt =====
-- `uuid.UUID` of github.com/google/uuid is an array of 16 bytes, compared with `==` only. A value is
-- the number that its bytes write, and `uuid.Nil`, all zero bytes, is 0. A typed identity
-- (`struct{ id uuid.UUID }`) is its UUID.
use molot.Base.{ℕ, Bool, false, Option, none, some, Result, ok, panic, ◌≡◌, ◌==◌, arith}
use molot.Text
use molot.Text.{Text}

abbrev pub Uuid : Type 0
Uuid = ℕ

abbrev pub nil : Uuid
nil = 0

-- `i == AuctionID{}` and `id == uuid.Nil`
abbrev pub is_nil : Uuid → Bool
is_nil u = u == 0

-- What the contexts use of github.com/google/uuid to write an identity into an event and to read it
-- there: `String`, which is never empty, and `Parse`, which reads what `String` writes.
pub record UuidText : Type 0 where
  pub to_string : Uuid → Text
  pub parse : Text → Option Uuid
  pub to_string_set : (u : Uuid) → Text.is_empty (to_string u) ≡ false
  pub parse-to_string : (u : Uuid) → parse (to_string u) ≡ some u

-- `uuid.MustParse`, which panics where `Parse` fails.
unfoldable pub must_parse : {E : Type 0} → UuidText → Text → Result E Uuid
must_parse lib s = elim (lib.parse s) [ none ↦ panic | some id ↦ ok id ]

pub must_parse-to_string :
    {E : Type 0} → (lib : UuidText) (u : Uuid) → must_parse {E = E} lib (lib.to_string u) ≡ ok u
unfolding must_parse
must_parse-to_string lib u = ground (arith, lib.parse-to_string u)
