-- ===== src/Participant/Tests.antt =====
-- Runs of the participant context, and the instances of its theorems.
use molot.Base.{
  ℕ, ◌≡◌, refl, true, some, [], ◌∷◌, ok, err, arith, leb, ◌+◌, ◌&&◌, if◌then◌else◌, ◌↔◌, inr,
}
use molot.Int64
use molot.Slug.{slug, new_conflict_error}
use molot.Text
use molot.Text.{Text, text}
use molot.TextMap
use molot.Participant.Values.{
  Strings, invalid_participant_id, new_participant_id, new_email_address, is_canonical_uuid,
  fits_from, normalized, is_bare, registered,
}
use molot.Participant.State.{Participant, register}
use molot.Participant.Repository.{Participants, add, same_email, reassembled}
use molot.Participant.Commands.{register_participant, verify_participant}
use molot.Participant.Registry.{registers, Steps, here, onward, IsRegistry}
use molot.Participant.Canonical.{IsUuid, canonical_iff}
use molot.Participant.Sound.{IsSound, reassembled_lem}
use molot.Participant.Uniqueness.{Steps-IsRegistry}
use molot.Participant.Verified.{verify_once}
use molot.Participant.Taken.{register_taken}

-- Letters outside ASCII have no case here, and every text is an address without a name.
abbrev lower : ℕ → ℕ
lower r = if leb b'A' r && leb r b'Z' then r + 32 else r

lower-lower : (r : ℕ) → lower (lower r) ≡ lower r
lower-lower r = ground arith

lower-is_space : (r : ℕ) → Text.is_space (lower r) ≡ Text.is_space r
unfolding Text.is_space
lower-is_space r = ground arith

abbrev lib : Strings
lib = record {
  lower = lower;
  parse_address = λ s. some ([], s);
  lower-lower = lower-lower;
  lower-is_space = lower-is_space;
}

abbrev raw_id : Text
raw_id = text " 0D6CBD0A-5f2f-4b3f-9c2a-6c1b2a3d4e5f "

abbrev id : Text
id = text "0d6cbd0a-5f2f-4b3f-9c2a-6c1b2a3d4e5f"

abbrev other_id : Text
other_id = text "1d6cbd0a-5f2f-4b3f-9c2a-6c1b2a3d4e5f"

abbrev email : Text
email = text "b@x.io"

abbrev boris : Text
boris = text "Boris"

id_made : new_participant_id lib raw_id ≡ ok id
unfolding new_participant_id normalized is_canonical_uuid fits_from Text.len Text.eq Text.trim_space
id_made = refl

email_made : new_email_address lib email ≡ ok email
unfolding new_email_address normalized is_bare Text.len Text.eq Text.trim_space
email_made = refl

nil_refused :
    new_participant_id lib (text "00000000-0000-0000-0000-000000000000")
    ≡ err invalid_participant_id
unfolding new_participant_id normalized is_canonical_uuid fits_from Text.len Text.eq Text.trim_space
nil_refused = refl

abbrev stored : Participant
stored = record {
  id = id;
  email = email;
  display_name = boris;
  status = registered;
  version = 1;
  events = [];
}

abbrev one : Participants
one = (id, stored) ∷ []

registers_one : register_participant id email boris [] ≡ (ok tt, one)
unfolding register_participant register add same_email TextMap.lookup TextMap.any_value
    TextMap.insert Text.trim_space
registers_one = refl

canonical_iff_example : (is_canonical_uuid id ≡ true) ↔ IsUuid id
canonical_iff_example = canonical_iff id

abbrev after : Participants
after = (register_participant id email boris []).1

past : Steps lib [] after
past = onward here (registers raw_id email boris id_made email_made)

there : TextMap.lookup id after ≡ some stored
unfolding register_participant register add same_email TextMap.lookup TextMap.any_value
    TextMap.insert Text.trim_space
there = refl

Steps-IsRegistry_example : IsRegistry lib after
Steps-IsRegistry_example = Steps-IsRegistry lib past

stored-IsSound : IsSound lib stored
stored-IsSound = (Steps-IsRegistry lib past).sound id stored there

reassembled_lem_example : reassembled lib stored stored ≡ ok (record stored { version = 2 })
unfolding Int64.add Int64.lt
reassembled_lem_example = reassembled_lem lib stored stored stored-IsSound

verify_once_example :
    ((verify_participant lib id 1000 after).0 ≡ ok tt)
    × (verify_participant lib id 1001 (verify_participant lib id 1000 after).1 ≡ (
      err (slug (new_conflict_error "already-verified")),
      (verify_participant lib id 1000 after).1,
    ))
verify_once_example = verify_once lib id 1000 1001 past there refl here

register_taken_example :
    register_participant other_id email boris after
    ≡ (err (slug (new_conflict_error "email-taken")), after)
unfolding Text.trim_space
register_taken_example =
    register_taken lib other_id id email boris refl refl refl past there here (inr refl)
