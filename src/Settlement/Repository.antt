-- ===== src/Settlement/Repository.antt =====
-- internal/settlement/adapters/settlement_inmem_repository.go: the table of sagas. Its mutex makes
-- each operation one step.
use molot.Base.{
  ap, ◌≡◌, ◌≢◌, none, some, Result, ok, err, panic, arith, refl, inl, inr, Option-cases,
  Result-cases,
}
use molot.Int64
use molot.Store
use molot.Store.{Store}
use molot.Settlement.Errors.{Error, not_found, unexpected_transition}
use molot.Settlement.Closing.{AuctionId}
use molot.Settlement.Saga.{Settlement, unmarshal_from_database}

abbrev pub Sagas : Type 0
Sagas = Store Settlement

-- `Add`: an existing saga is kept.
unfoldable pub add : Settlement → Sagas → Sagas
add s m = elim (Store.lookup s.auction_id m) [ none ↦ Store.insert s.auction_id s m | some old ↦ m ]

unfoldable pub get : AuctionId → Sagas → Result Error Settlement
get id m = elim (Store.lookup id m) [ none ↦ err (not_found id) | some s ↦ ok s ]

-- The new version is written through `UnmarshalFromDatabase`.
unfoldable pub bumped : Settlement → Result Error Settlement
bumped s = unmarshal_from_database (record s { version = Int64.add s.version 1 })

-- What `updateFn` made of the stored saga is stored, or its error is returned.
unfoldable pub store_updated :
    AuctionId → Sagas → Result Error Settlement → Result Error (Unit {0}) × Sagas
store_updated id m (err e) = (err e, m)
store_updated id m panic = (panic, m)
store_updated id m (ok s) = elim (bumped s) [
  | ok t ↦ (ok tt, Store.insert id t m)
  | err e ↦ (err e, m)
  | panic ↦ (panic, m)
]

unfoldable pub update :
    AuctionId → (Settlement → Result Error Settlement) → Sagas → Result Error (Unit {0}) × Sagas
update id f m = elim (Store.lookup id m) [
  | none ↦ (err (not_found id), m)
  | some s ↦ store_updated id m (f s)
]

-- A saga as it is stored: the version is the repository's.
abbrev pub next_version : Settlement → Settlement
next_version s = record s { version = Int64.add s.version 1 }

bumped_lem : (s : Settlement) {t : Settlement} → bumped s ≡ ok t → t ≡ next_version s
unfolding bumped unmarshal_from_database
bumped_lem s h = ground arith

stored_ok :
    (id : AuctionId) (m : Sagas) (r : Result Error Settlement) {m' : Sagas}
    → store_updated id m r ≡ (ok tt, m')
    → (t : Settlement) × (r ≡ ok t) × (get id m' ≡ ok (next_version t))
unfolding store_updated get
stored_ok id m (ok s) h = elim (Result-cases (bumped s)) [
  | inl (t, made) ↦
      (s, refl, ground (arith, made, bumped_lem s made, Store.lookup-insert_self id t m))
  | inr failed ↦ absurd (ground arith)
]
stored_ok id m (err e) h = absurd (ground arith)
stored_ok id m panic h = absurd (ground arith)

-- A successful update stores what `updateFn` made of the saga that was there.
pub update_ok :
    (id : AuctionId) (f : Settlement → Result Error Settlement) (m : Sagas) {m' : Sagas}
    → update id f m ≡ (ok tt, m')
    → (s t : Settlement) × (get id m ≡ ok s) × (f s ≡ ok t) × (get id m' ≡ ok (next_version t))
unfolding update get
update_ok id f m {m'} h = elim (Option-cases (Store.lookup id m)) [
  | inl missing ↦ absurd (ground arith)
  | inr (s, found) ↦
      let (t, made, there) = stored_ok id m (f s) (rw (found, update) at h) in
      (s, t, ground arith, made, there)
]

-- A failed update stores nothing.
pub update_err :
    (id : AuctionId) (f : Settlement → Result Error Settlement) (m : Sagas) {e : Error}
    → (update id f m).0 ≡ err e
    → (update id f m).1 ≡ m
unfolding update store_updated
update_err id f m h = ground arith

bumped-ne-unexpected : (s : Settlement) → bumped s ≢ err unexpected_transition
unfolding bumped unmarshal_from_database
bumped-ne-unexpected s h = ground arith

refused :
    (id : AuctionId) (m : Sagas) (r : Result Error Settlement)
    → (store_updated id m r).0 ≡ err unexpected_transition
    → r ≡ err unexpected_transition
unfolding store_updated
refused id m (ok s) h = elim (Result-cases (bumped s)) [
  | inl (t, made) ↦ absurd (ground arith)
  | inr (inl (e, failed)) ↦ absurd (bumped-ne-unexpected s (ground arith))
  | inr (inr panics) ↦ absurd (ground arith)
]
refused id m (err e) h = ground arith
refused id m panic h = absurd (ground arith)

-- `unexpected_transition` comes from `updateFn`.
pub update_unexpected :
    (id : AuctionId) (f : Settlement → Result Error Settlement) (m : Sagas)
    → (update id f m).0 ≡ err unexpected_transition
    → (s : Settlement) × (get id m ≡ ok s) × (f s ≡ err unexpected_transition)
unfolding update get
update_unexpected id f m h = elim (Option-cases (Store.lookup id m)) [
  | inl missing ↦ absurd (ground arith)
  | inr (s, found) ↦ (s, ground arith, refused id m (f s) (rw (found, update) at h))
]

-- An error of `updateFn` is the error of the update, which stores nothing.
pub update_refused :
    (id : AuctionId) (f : Settlement → Result Error Settlement) (m : Sagas) {s : Settlement}
    {e : Error}
    → get id m ≡ ok s
    → f s ≡ err e
    → update id f m ≡ (err e, m)
unfolding get update store_updated
update_refused id f m {s} found h = elim (Option-cases (Store.lookup id m)) [
  | inl missing ↦ absurd (ground arith)
  | inr (s', there) ↦
      let same : s' ≡ s = ground (arith, there, found) in ground (arith, there, ap f same)
]

-- `Add` keeps a saga that is there.
pub add_kept :
    (s : Settlement) (m : Sagas) {t : Settlement} → get s.auction_id m ≡ ok t → add s m ≡ m
unfolding add get
add_kept s m h = ground arith
