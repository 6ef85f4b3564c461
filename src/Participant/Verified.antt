-- ===== src/Participant/Verified.antt =====
-- A verification happens once, and what was registered stays (internal/participant/app/command).
use molot.Base.{◌≡◌, refl, sym, ap, ◌∙◌, some, [], err, ok, arith, inl, inr, Bool-cases}
use molot.Int64
use molot.Slug.{slug, new_conflict_error}
use molot.Text
use molot.Text.{Text}
use molot.TextMap
use molot.Time.{Time}
use molot.Participant.Values.{Strings, ParticipantId, registered, verified}
use molot.Participant.State.{Participant, pull_domain_events}
use molot.Participant.Repository.{Participants, update_guarded, update_as_operations}
use molot.Participant.Commands.{verify_participant}
use molot.Participant.Sound.{verified_lem}
use molot.Participant.Registry.{
  Steps, here, onward, verifies, Change, unchanged, added, confirmed, IsRegistry, Step-Change,
}
use molot.Participant.Uniqueness.{Steps-keep, Steps-IsRegistry}

module _ (lib : Strings) where
  -- What stays of a participant: its address, its name, and that it is verified.
  abbrev pub Stays : Participant → Text → Participants → Type 0
  Stays p id m =
      (q : Participant) × (TextMap.lookup id m ≡ some q)
      × (q.email ≡ p.email)
      × (q.display_name ≡ p.display_name)
      × (p.status ≡ verified → q.status ≡ verified)

  Change-Stays :
      {m m' : Participants} (id : Text) (p : Participant)
      → Change lib m m'
      → Stays p id m
      → Stays p id m'
  Change-Stays id p unchanged s = s
  Change-Stays {m = m} id p (added new fit fresh first absent free) (q, there, e, n, v) =
      elim (Bool-cases (Text.eq id new.id)) [
        | inl same ↦ absurd (
            ground
              (arith, there, absent, ap (λ k. TextMap.lookup k m) (Text.eq_sound id new.id same)))
        | inr apart ↦
            (q, ground (arith, apart, there, TextMap.lookup-insert new.id id new m), e, n, v)
      ]
  Change-Stays {m = m} id p (confirmed id' old found waits counts) (q, there, e, n, v) =
      let next : Participant = record (pull_domain_events old) {
        status = verified;
        version = Int64.add old.version 1;
      } in
      let looked = TextMap.lookup-insert id' id next m in
      elim (Bool-cases (Text.eq id id')) [
        | inl same ↦
            let one : TextMap.lookup id m ≡ TextMap.lookup id' m =
              ap (λ k. TextMap.lookup k m) (Text.eq_sound id id' same) in
            let held : q ≡ old = ground (arith, one, there, found) in
            (
              next,
              ground (arith, looked, same),
              sym (ap (λ r. r.email) held) ∙ e,
              sym (ap (λ r. r.display_name) held) ∙ n,
              λ h. refl,
            )
        | inr apart ↦ (q, ground (arith, apart, there, looked), e, n, v)
      ]

  Steps-Stays :
      {m m' : Participants} (id : Text) (p : Participant)
      → IsRegistry lib m
      → Steps lib m m'
      → Stays p id m
      → Stays p id m'
  Steps-Stays id p v here s = s
  Steps-Stays id p v (onward past step) s =
      Change-Stays id p (Step-Change lib step (Steps-keep lib v past)) (Steps-Stays id p v past s)

  -- On a registered participant.
  verify_waiting :
      (id : ParticipantId) (now : Time) (m : Participants) {p : Participant}
      → IsRegistry lib m
      → TextMap.lookup id m ≡ some p
      → p.status ≡ registered
      → verify_participant lib id now m ≡ (
        ok tt,
        TextMap.insert id (record (pull_domain_events p) { status = verified; version = 2 }) m,
      )
  unfolding verify_participant update_as_operations update_guarded Int64.add Int64.lt
  verify_waiting id now m {p} v there new =
      ground
        (arith, there, new, v.fresh id p there new, verified_lem lib now p (v.sound id p there))

  -- On a verified one.
  verify_done :
      (id : ParticipantId) (now : Time) (m : Participants) {p : Participant}
      → IsRegistry lib m
      → TextMap.lookup id m ≡ some p
      → p.status ≡ verified
      → verify_participant lib id now m ≡ (err (slug (new_conflict_error "already-verified")), m)
  unfolding verify_participant update_as_operations update_guarded
  verify_done id now m {p} v there done =
      ground (arith, there, done, verified_lem lib now p (v.sound id p there))

  verified_after :
      (id : ParticipantId) (now : Time) (m : Participants) {p : Participant}
      → IsRegistry lib m
      → TextMap.lookup id m ≡ some p
      → p.status ≡ registered
      → (q : Participant) × (TextMap.lookup id (verify_participant lib id now m).1 ≡ some q)
        × (q.status ≡ verified)
  verified_after id now m {p} v there new =
      let next : Participant = record (pull_domain_events p) { status = verified; version = 2 } in
      (
        next,
        ap (λ r. TextMap.lookup id r.1) (verify_waiting id now m v there new)
            ∙ TextMap.lookup-insert_self id next m,
        refl,
      )

  -- In a table that the commands made from an empty one: the verification of a registered
  -- participant succeeds, and, whatever commands follow, a further verification reports
  -- already-verified and changes nothing.
  pub verify_once :
      (id : ParticipantId) (now later : Time) {m m' : Participants} {p : Participant}
      → Steps lib [] m
      → TextMap.lookup id m ≡ some p
      → p.status ≡ registered
      → Steps lib (verify_participant lib id now m).1 m'
      → ((verify_participant lib id now m).0 ≡ ok tt)
        × (verify_participant lib id later m'
            ≡ (err (slug (new_conflict_error "already-verified")), m'))
  verify_once id now later {m} {m'} past there new next =
      let v = Steps-IsRegistry lib past in
      let (q, found, done) = verified_after id now m v there new in
      let w = Steps-keep lib v (onward here (verifies id now)) in
      let (r, found', e, n, stays) = Steps-Stays id q w next (q, found, refl, refl, λ h. h) in
      (
        ap (λ a. a.0) (verify_waiting id now m v there new),
        verify_done id later m' (Steps-keep lib w next) found' (stays done),
      )

  pub registered-Stays :
      (id : ParticipantId) {m m' : Participants} {p : Participant}
      → Steps lib [] m
      → TextMap.lookup id m ≡ some p
      → Steps lib m m'
      → Stays p id m'
  registered-Stays id {p = p} past there next =
      Steps-Stays id p (Steps-IsRegistry lib past) next (p, there, refl, refl, λ h. h)
