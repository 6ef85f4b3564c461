-- ===== src/Participant/Sound.antt =====
-- Participants as the context stores them: what each operation of the aggregate keeps, and what the
-- round trip through `UnmarshalFromDatabase` (internal/participant/domain/participant/participant.go)
-- makes of one.
use molot.Base.{
  ℕ, ◌≡◌, ◌≢◌, refl, sym, ap, ◌∙◌, subst, false, [], ◌∷◌, ◌++◌, Bool-cases, ok, err, ◌>>=◌, arith,
  inl, inr, if◌then◌else◌,
}
use molot.Int64
use molot.Text
use molot.Text.{Text}
use molot.Text.Trimming.{trim_space-trim_space}
use molot.Time.{Time}
use molot.Participant.Values.{
  unfit_version, already_verified, Strings, ParticipantId, EmailAddress, Status, unset, registered,
  verified, new_participant_id, new_email_address, new_status_from_string, status_string,
}
use molot.Participant.State.{
  Participant, participant_verified, registration, register, verify, pull_domain_events,
  unmarshal_from_database, is_verified,
}
use molot.Participant.Repository.{reassembled, updated_by}
use molot.Participant.Normal.{id_again, email_again}

pub record IsSound (lib : Strings) (p : Participant) : Type 0 where
  pub id_made : new_participant_id lib p.id ≡ ok p.id
  pub email_made : new_email_address lib p.email ≡ ok p.email
  pub named : Text.is_empty (Text.trim_space p.display_name) ≡ false
  pub known : p.status ≢ unset
  pub counted : Int64.lt p.version 1 ≡ false

-- A status is read as it was written.
status_again : (s : Status) {t : Text} → status_string s ≡ ok t → new_status_from_string t ≡ ok s
unfolding status_string new_status_from_string Text.eq
status_again registered h = ground arith
status_again verified h = ground arith
status_again unset h = absurd (ground arith)

written : (s : Status) → s ≢ unset → (t : Text) × (status_string s ≡ ok t)
unfolding status_string
written registered h = (_, refl)
written verified h = (_, refl)
written unset h = absurd (h refl)

module _ (lib : Strings) where
  unmarshal_lem :
      (id email name status : Text) (version : ℕ) {i : ParticipantId} {e : EmailAddress}
      {s : Status}
      → new_participant_id lib id ≡ ok i
      → new_email_address lib email ≡ ok e
      → new_status_from_string status ≡ ok s
      → Text.is_empty (Text.trim_space name) ≡ false
      → unmarshal_from_database lib id email name status version ≡ (
          if Int64.lt version 1
          then err unfit_version
          else ok (record {
            id = i;
            email = e;
            display_name = name;
            status = s;
            version = version;
            events = [];
          }))
  unfolding unmarshal_from_database
  unmarshal_lem id email name status version hi he hs hn = ground (arith, hi, he, hs, hn)

  -- The stored form of a sound participant, under the next version.
  pub reassembled_lem :
      (stored p : Participant)
      → IsSound lib p
      → reassembled lib stored p ≡ (
          if Int64.lt (Int64.add stored.version 1) 1
          then err unfit_version
          else ok (record (pull_domain_events p) { version = Int64.add stored.version 1 }))
  unfolding reassembled
  reassembled_lem stored p v =
      let (t, wrote) = written p.status v.known in
      ap
        (λ r. r >>= λ s.
          unmarshal_from_database lib p.id p.email p.display_name s (Int64.add stored.version 1))
        wrote
      ∙ unmarshal_lem p.id p.email p.display_name t (Int64.add stored.version 1) v.id_made
          v.email_made (status_again p.status wrote) v.named

  pub registered_as :
      (id : ParticipantId) (email : EmailAddress) (name : Text) {p : Participant}
      → register id email name ≡ ok p
      → (p ≡ registration id email (Text.trim_space name))
        × (Text.is_empty (Text.trim_space name) ≡ false)
  unfolding register
  registered_as id email name h = (ground arith, ground arith)

  -- What a registration makes of an identity and an address that the constructors made.
  pub register-IsSound :
      (raw_id raw_email name : Text) {id : ParticipantId} {email : EmailAddress} {p : Participant}
      → new_participant_id lib raw_id ≡ ok id
      → new_email_address lib raw_email ≡ ok email
      → register id email name ≡ ok p
      → (p ≡ registration id email (Text.trim_space name)) × IsSound lib (pull_domain_events p)
  unfolding Int64.lt
  register-IsSound raw_id raw_email name {id = id} {email = email} i e h =
      let (made, fit) = registered_as id email name h in
      let sound : IsSound lib (pull_domain_events (registration id email (Text.trim_space name))) =
        record {
          id_made = id_again lib raw_id i;
          email_made = email_again lib raw_email e;
          named = ap Text.is_empty (trim_space-trim_space name) ∙ fit;
          known = λ k. ground arith;
          counted = refl;
        } in
      (made, subst (λ q. IsSound lib (pull_domain_events q)) (sym made) sound)

  -- What a verification stores.
  pub verified_lem :
      (now : Time) (p : Participant)
      → IsSound lib p
      → updated_by lib (verify now) p ≡ (
          if is_verified p.status
          then err already_verified
          else if Int64.lt (Int64.add p.version 1) 1
          then err unfit_version
          else ok (record (pull_domain_events p) {
            status = verified;
            version = Int64.add p.version 1;
          }))
  unfolding updated_by verify
  verified_lem now p v = elim (Bool-cases (is_verified p.status)) [
    | inl done ↦ ground (arith, done)
    | inr waits ↦
        let next : Participant = record p {
          status = verified;
          events = p.events ++ (participant_verified p.id now ∷ []);
        } in
        let kept : IsSound lib next = record {
          id_made = v.id_made;
          email_made = v.email_made;
          named = v.named;
          known = λ h. ground arith;
          counted = v.counted;
        } in
        ground (arith, waits, reassembled_lem p next kept)
  ]
