-- ===== src/Participant/Normal.antt =====
-- Identities and e-mail addresses are normal forms (internal/participant/domain/participant: id.go,
-- email.go): what a constructor made passes the constructor unchanged, as on the way to the store.
use molot.Base.{◌≡◌, refl, ap, ◌∙◌, [], ◌∷◌, map, ok, arith}
use molot.Text
use molot.Text.{Text}
use molot.Text.Trimming.{trim_space-trim_space, trim_space-map}
use molot.Participant.Values.{
  Strings, ParticipantId, EmailAddress, normalized, new_participant_id, new_email_address,
}

module _ (lib : Strings) where
  lower-lower : (s : Text) → map lib.lower (map lib.lower s) ≡ map lib.lower s
  lower-lower [] = refl
  lower-lower (r ∷ s) =
      ap (λ x. x ∷ map lib.lower (map lib.lower s)) (lib.lower-lower r)
      ∙ ap (λ x. lib.lower r ∷ x) (lower-lower s)

  pub normalized-normalized : (s : Text) → normalized lib (normalized lib s) ≡ normalized lib s
  unfolding normalized
  normalized-normalized s =
      ap (map lib.lower) (
        trim_space-map lib.lower lib.lower-is_space (Text.trim_space s)
        ∙ ap (map lib.lower) (trim_space-trim_space s))
      ∙ lower-lower (Text.trim_space s)

  pub made_id :
      (raw : Text) {id : ParticipantId}
      → new_participant_id lib raw ≡ ok id
      → id ≡ normalized lib raw
  unfolding new_participant_id
  made_id raw h = ground arith

  pub made_email :
      (raw : Text) {e : EmailAddress} → new_email_address lib raw ≡ ok e → e ≡ normalized lib raw
  unfolding new_email_address
  made_email raw h = ground arith

  -- The constructors read only the normal form.
  id_normalized :
      (raw : Text) → new_participant_id lib (normalized lib raw) ≡ new_participant_id lib raw
  unfolding new_participant_id
  id_normalized raw = cc (normalized-normalized raw)

  email_normalized :
      (raw : Text) → new_email_address lib (normalized lib raw) ≡ new_email_address lib raw
  unfolding new_email_address
  email_normalized raw = cc (normalized-normalized raw)

  pub id_again :
      (raw : Text) {id : ParticipantId}
      → new_participant_id lib raw ≡ ok id
      → new_participant_id lib id ≡ ok id
  id_again raw h = ap (new_participant_id lib) (made_id raw h) ∙ id_normalized raw ∙ h

  pub email_again :
      (raw : Text) {e : EmailAddress}
      → new_email_address lib raw ≡ ok e
      → new_email_address lib e ≡ ok e
  email_again raw h = ap (new_email_address lib) (made_email raw h) ∙ email_normalized raw ∙ h
