-- ===== src/Participant/Values.antt =====
-- internal/participant/domain/participant: errors.go, id.go, email.go, status.go and actor.go.
use molot.Base.{
  ℕ, suc, ◌≡◌, Bool, true, false, ◌&&◌, ◌||◌, not, Option, none, some, [], ◌∷◌, map, Result, ok,
  err, panic, ◌>>◌, reject_if, ltb, ◌==◌, if◌then◌else◌,
}
use molot.Text
use molot.Text.{Text, text}

-- `unfit_version` is the error that `UnmarshalFromDatabase` makes of a version below 1.
pub data Error : Type 0 where
  invalid_participant_id invalid_email invalid_status empty_display_name already_verified : Error
  email_taken unfit_version : Error
  not_found : (id : Text) → Error
  forbidden_participant_update : (actor target : Text) → Error

-- What the context uses of the standard library beside `TrimSpace`: `unicode.ToLower`, which
-- `strings.ToLower` applies to each code point, and `mail.ParseAddress`, with the name and the
-- address that it finds. A letter in lower case is its own lower case, as are the digits and the
-- ASCII signs below the letters, and no letter or lower case of one is a space.
pub record Strings : Type 0 where
  pub lower : ℕ → ℕ
  pub parse_address : Text → Option (Text × Text)
  pub lower-lower : (r : ℕ) → lower (lower r) ≡ lower r
  pub lower-is_space : (r : ℕ) → Text.is_space (lower r) ≡ Text.is_space r

-- A canonical UUID in lower case, and empty for the zero value.
abbrev pub ParticipantId : Type 0
ParticipantId = Text

abbrev nil_uuid : Text
nil_uuid = text "00000000-0000-0000-0000-000000000000"

-- The `case` of the byte at an index. It holds of no code point beyond ASCII and of none of its
-- bytes, so the loop goes over the code points.
abbrev pub fits : ℕ → ℕ → Bool
fits i c =
    if (i == 8) || (i == 13) || (i == 18) || (i == 23)
    then c == b'-'
    else not ((ltb c b'0' || ltb b'9' c) && (ltb c b'a' || ltb b'f' c))

-- The loop of `isCanonicalUUID` from index i.
unfoldable pub fits_from : ℕ → Text → Bool
fits_from i [] = true
fits_from i (c ∷ s) = let rest = fits_from (suc i) s in if not (fits i c) then false else rest

unfoldable pub is_canonical_uuid : Text → Bool
unfolding fits_from Text.len
is_canonical_uuid s = if not (Text.len s == 36) then false else fits_from 0 s

-- An address that is trimmed and in lower case, and empty for the zero value.
abbrev pub EmailAddress : Type 0
EmailAddress = Text

module _ (lib : Strings) where
  -- `strings.ToLower(strings.TrimSpace(raw))`
  unfoldable pub normalized : Text → Text
  unfolding Text.trim_space
  normalized raw = map lib.lower (Text.trim_space raw)

  unfoldable pub new_participant_id : Text → Result Error ParticipantId
  new_participant_id raw = do
    reject_if (not (is_canonical_uuid (normalized raw)) || Text.eq (normalized raw) nil_uuid)
        invalid_participant_id
    ok (normalized raw)

  -- Is the parsed address bare, and the text itself?
  unfoldable pub is_bare : Text → Bool
  unfolding Text.eq
  is_bare address = elim (lib.parse_address address) [
    | none ↦ false
    | some (name, parsed) ↦ not (not (Text.is_empty name) || not (Text.eq parsed address))
  ]

  unfoldable pub new_email_address : Text → Result Error EmailAddress
  new_email_address raw = do
    reject_if (Text.is_empty (normalized raw) || ltb 320 (Text.len (normalized raw))) invalid_email
    reject_if (not (is_bare (normalized raw))) invalid_email
    ok (normalized raw)

-- `unset` is the zero value.
pub data Status : Type 0 where
  unset registered verified : Status

unfoldable pub new_status_from_string : Text → Result Error Status
unfolding Text.eq
new_status_from_string raw =
    if Text.eq raw (text "registered")
    then ok registered
    else if Text.eq raw (text "verified")
    then ok verified
    else err invalid_status

-- `Status.String`
unfoldable pub status_string : Status → Result Error Text
status_string registered = ok (text "registered")
status_string verified = ok (text "verified")
status_string unset = panic

-- The identity of the acting participant.
abbrev pub Actor : Type 0
Actor = ParticipantId

unfoldable pub new_actor : ParticipantId → Result Error Actor
new_actor id = do reject_if (Text.is_empty id) invalid_participant_id; ok id
