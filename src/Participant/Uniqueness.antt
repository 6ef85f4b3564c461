-- ===== src/Participant/Uniqueness.antt =====
-- The invariant of the table of participants: one participant for each identity and for each e-mail
-- address (internal/participant/domain/participant/repository.go, `Add`).
use molot.Base.{◌≡◌, refl, sym, ap, ◌∙◌, subst, true, false, some, [], arith, inl, inr}
use molot.Int64
use molot.Text
use molot.Text.{Text}
use molot.TextMap
use molot.Participant.Values.{Strings, registered, verified}
use molot.Participant.State.{Participant, pull_domain_events}
use molot.Participant.Repository.{Participants, same_email}
use molot.Participant.Sound.{IsSound}
use molot.Participant.Registry.{
  Steps, here, onward, Change, unchanged, added, confirmed, IsRegistry, Step-Change,
}

module _ (lib : Strings) where
  -- An insertion keeps the registry where the new participant is sound, stands under its identity,
  -- and shares its address with no other.
  insert-IsRegistry :
      (id : Text) (p : Participant) (m : Participants)
      → IsSound lib p
      → p.id ≡ id
      → ((j : Text) (q : Participant) → TextMap.lookup j m ≡ some q → q.email ≡ p.email → j ≡ id)
      → (p.status ≡ registered → p.version ≡ 1)
      → IsRegistry lib m
      → IsRegistry lib (TextMap.insert id p m)
  insert-IsRegistry id p m fit own alone new v = record {
    sound = λ j q h. elim (TextMap.insert-lookup id j p m h) [
      | inl (at, same) ↦ subst (IsSound lib) (sym same) fit
      | inr there ↦ v.sound j q there
    ];
    keyed = λ j q h. elim (TextMap.insert-lookup id j p m h) [
      | inl (at, same) ↦ ap (λ r. r.id) same ∙ own ∙ sym at
      | inr there ↦ v.keyed j q there
    ];
    fresh = λ j q h e. elim (TextMap.insert-lookup id j p m h) [
      | inl (at, same) ↦ ap (λ r. r.version) same ∙ new (sym (ap (λ r. r.status) same) ∙ e)
      | inr there ↦ v.fresh j q there e
    ];
    unique = λ j k q r h h' e. elim (TextMap.insert-lookup id j p m h) [
      | inl (at, same) ↦ elim (TextMap.insert-lookup id k p m h') [
        | inl (at', same') ↦ at ∙ sym at'
        | inr there' ↦ at ∙ sym (alone k r there' (sym e ∙ ap (λ x. x.email) same))
      ]
      | inr there ↦ elim (TextMap.insert-lookup id k p m h') [
        | inl (at', same') ↦ alone j q there (e ∙ ap (λ x. x.email) same') ∙ sym at'
        | inr there' ↦ v.unique j k q r there there' e
      ]
    ];
  }

  confirmed-IsSound :
      (p : Participant)
      → IsSound lib p
      → Int64.lt (Int64.add p.version 1) 1 ≡ false
      → IsSound lib
          (record (pull_domain_events p) { status = verified; version = Int64.add p.version 1 })
  confirmed-IsSound p v h = record {
    id_made = v.id_made;
    email_made = v.email_made;
    named = v.named;
    known = λ k. ground arith;
    counted = h;
  }

  Change-IsRegistry : {m m' : Participants} → Change lib m m' → IsRegistry lib m → IsRegistry lib m'
  Change-IsRegistry unchanged v = v
  Change-IsRegistry {m = m} (added p fit new first absent free) v =
      insert-IsRegistry p.id p m fit refl
        (λ j q there e. absurd (
          let clash : same_email p q ≡ true =
            unfold same_email in (ap (λ x. Text.eq x p.email) e ∙ Text.eq_refl p.email) in
          ground (arith, clash, TextMap.any_value-lookup (same_email p) m j free there)))
        (λ e. first) v
  Change-IsRegistry {m = m} (confirmed id p there waits counts) v =
      insert-IsRegistry id _ m (confirmed-IsSound p (v.sound id p there) counts)
        (v.keyed id p there) (λ j q found e. v.unique j id q p found there e)
        (λ e. absurd (ground arith)) v

  empty-IsRegistry : IsRegistry lib []
  unfolding TextMap.lookup
  empty-IsRegistry = record {
    sound = λ id p h. absurd (ground arith);
    keyed = λ id p h. absurd (ground arith);
    fresh = λ id p h e. absurd (ground arith);
    unique = λ j k p q h h' e. absurd (ground arith);
  }

  pub Steps-keep : {m m' : Participants} → IsRegistry lib m → Steps lib m m' → IsRegistry lib m'
  Steps-keep v here = v
  Steps-keep v (onward past s) =
      let w = Steps-keep v past in Change-IsRegistry (Step-Change lib s w) w

  -- Whatever registrations (of identities and addresses that the constructors made) and
  -- verifications follow one another from an empty table, it stays a registry: every entry is sound
  -- and stands under its identity, one that is not verified has the version 1, and no two entries
  -- share an e-mail address.
  pub Steps-IsRegistry : {m : Participants} → Steps lib [] m → IsRegistry lib m
  Steps-IsRegistry past = Steps-keep empty-IsRegistry past
