-- ===== src/Table.antt =====
-- The read-modify-write of the in-memory repositories, which each context writes out for its own
-- aggregate (internal/auction/adapters/auction_inmem_repository.go,
-- internal/billing/adapters/invoice_inmem_repository.go and
-- internal/participant/adapters/participant_inmem_repository.go). `missing` is the context's error of
-- an absent key, and `persist` what the adapter does to an aggregate before it is stored.
use molot.Base.{
  ◌≡◌, ◌≢◌, ◌∙◌, sym, ◌⊎◌, inl, inr, refl, ap, arith, none, some, Result, ok, err, panic,
  Option-cases, Result-cases,
}
use molot.Uuid.{Uuid}
use molot.Store
use molot.Store.{Store}

module _ {E V : Type 0} (missing : Uuid → E) where
  unfoldable pub get : Uuid → Store V → Result E V
  get id m = elim (Store.lookup id m) [ none ↦ err (missing id) | some s ↦ ok s ]

  pub get-insert_self : (id : Uuid) (v : V) (m : Store V) → get id (Store.insert id v m) ≡ ok v
  unfolding get
  get-insert_self id v m = ground (arith, Store.lookup-insert_self id v m)

module _ {E V : Type 0} (missing : Uuid → E) (persist : V → Result E V) where
  -- What the update function made of the stored aggregate is stored, or its error is returned.
  unfoldable pub store_updated : Uuid → Store V → Result E V → Result E (Unit {0}) × Store V
  store_updated id m (err e) = (err e, m)
  store_updated id m panic = (panic, m)
  store_updated id m (ok s) = elim (persist s) [
    | ok t ↦ (ok tt, Store.insert id t m)
    | err e ↦ (err e, m)
    | panic ↦ (panic, m)
  ]

  unfoldable pub update : Uuid → (V → Result E V) → Store V → Result E (Unit {0}) × Store V
  update id f m = elim (Store.lookup id m) [
    | none ↦ (err (missing id), m)
    | some s ↦ store_updated id m (f s)
  ]

  stored_ok :
      (id : Uuid) (m : Store V) (r : Result E V) {m' : Store V}
      → store_updated id m r ≡ (ok tt, m')
      → (t u : V) × (r ≡ ok t) × (persist t ≡ ok u) × (m' ≡ Store.insert id u m)
  unfolding store_updated
  stored_ok id m (ok s) h = elim (Result-cases (persist s)) [
    | inl (t, made) ↦ (s, t, refl, made, ground (arith, made))
    | inr failed ↦ absurd (ground (arith, failed))
  ]
  stored_ok id m (err e) h = absurd (ground arith)
  stored_ok id m panic h = absurd (ground arith)

  stored_err :
      (id : Uuid) (m : Store V) (r : Result E V) {e : E}
      → (store_updated id m r).0 ≡ err e
      → ((r ≡ err e) ⊎ ((t : V) × (persist t ≡ err e))) × ((store_updated id m r).1 ≡ m)
  unfolding store_updated
  stored_err id m (ok s) h = elim (Result-cases (persist s)) [
    | inl (t, made) ↦ absurd (ground (arith, made))
    | inr (inl (e', failed)) ↦ (inr (s, ground (arith, failed)), ground (arith, failed))
    | inr (inr panics) ↦ absurd (ground (arith, panics))
  ]
  stored_err id m (err e) h = (inl (ground arith), refl)
  stored_err id m panic h = absurd (ground arith)

  -- A successful update stores what the update function made of the aggregate that was there.
  pub update_ok :
      (id : Uuid) (f : V → Result E V) (m : Store V) {m' : Store V}
      → update id f m ≡ (ok tt, m')
      → (s t u : V) × (get missing id m ≡ ok s)
        × (f s ≡ ok t)
        × (persist t ≡ ok u)
        × (m' ≡ Store.insert id u m)
  unfolding update get
  update_ok id f m h = elim (Option-cases (Store.lookup id m)) [
    | inl none_there ↦ absurd (ground (arith, none_there))
    | inr (s, found) ↦
        let (t, u, made, kept, same) = stored_ok id m (f s) (rw (found, update) at h) in
        (s, t, u, ground (arith, found), made, kept, same)
  ]

  -- A failed update stores nothing, and its error has one of three sources.
  pub update_err :
      (id : Uuid) (f : V → Result E V) (m : Store V) {e : E}
      → (update id f m).0 ≡ err e
      → ((e ≡ missing id)
          ⊎ (((s : V) × (get missing id m ≡ ok s) × (f s ≡ err e))
              ⊎ ((t : V) × (persist t ≡ err e))))
        × ((update id f m).1 ≡ m)
  unfolding update get
  update_err id f m h = elim (Option-cases (Store.lookup id m)) [
    | inl none_there ↦ (inl (ground (arith, none_there)), ground (arith, none_there))
    | inr (s, found) ↦
        let (cause, same) = stored_err id m (f s) (rw (found, update) at h) in
        let kept : (update id f m).1 ≡ m = ground (arith, found, same) in
        elim cause [
          | inl refused ↦ (inr (inl (s, ground (arith, found), refused)), kept)
          | inr unfit ↦ (inr (inr unfit), kept)
        ]
  ]

  -- An update succeeds or leaves the table as it is.
  pub update_kept :
      (id : Uuid) (f : V → Result E V) (m : Store V)
      → ((update id f m).0 ≡ ok tt) ⊎ ((update id f m).1 ≡ m)
  unfolding update store_updated
  update_kept id f m = elim (Option-cases (Store.lookup id m)) [
    | inl none_there ↦ inr (ground (arith, none_there))
    | inr (s, found) ↦ elim (Result-cases (f s)) [
      | inl (t, made) ↦ elim (Result-cases (persist t)) [
        | inl (u, kept) ↦ inl (ground (arith, found, made, kept))
        | inr unfit ↦ inr (ground (arith, found, made, unfit))
      ]
      | inr failed ↦ inr (ground (arith, found, failed))
    ]
  ]

  -- An error of the update function is the error of the update, which stores nothing.
  pub update_refused :
      (id : Uuid) (f : V → Result E V) (m : Store V) {s : V} {e : E}
      → get missing id m ≡ ok s
      → f s ≡ err e
      → update id f m ≡ (err e, m)
  unfolding get update store_updated
  update_refused id f m {s} found h = elim (Option-cases (Store.lookup id m)) [
    | inl none_there ↦ absurd (ground (arith, none_there))
    | inr (s', there) ↦
        let same : s' ≡ s = ground (arith, there, found) in ground (arith, there, ap f same)
  ]

  -- An update leaves the other keys alone.
  pub update-lookup_ne :
      (id : Uuid) (f : V → Result E V) (m : Store V) (j : Uuid)
      → j ≢ id
      → Store.lookup j (update id f m).1 ≡ Store.lookup j m
  unfolding update store_updated
  update-lookup_ne id f m j apart = elim (Option-cases (Store.lookup id m)) [
    | inl absent ↦ ground (arith, absent)
    | inr (s, there) ↦ elim (Result-cases (f s)) [
      | inl (t, made) ↦ elim (Result-cases (persist t)) [
        | inl (u, kept) ↦ ground (arith, there, made, kept, Store.lookup-insert_ne id j u m apart)
        | inr unfit ↦ ground (arith, there, made, unfit)
      ]
      | inr failed ↦ ground (arith, there, failed)
    ]
  ]

-- What a command handler makes of an error of its repository; `ok` is a nil error.
abbrev pub answer :
    {E F V : Type 0}
    → (E → Result F (Unit {0}))
    → Result E (Unit {0}) × Store V
    → Result F (Unit {0}) × Store V
answer map_error (r, m) = (elim r [ ok u ↦ ok tt | err e ↦ map_error e | panic ↦ panic ], m)

-- A handler that succeeds, or leaves the table as it is.
pub answer_kept :
    {E F V : Type 0} (map_error : E → Result F (Unit {0})) (r : Result E (Unit {0}) × Store V)
    {m : Store V}
    → (r.0 ≡ ok tt) ⊎ (r.1 ≡ m)
    → ((answer map_error r).0 ≡ ok tt) ⊎ ((answer map_error r).1 ≡ m)
answer_kept map_error r (inl stored) = inl (ground (arith, stored))
answer_kept map_error r (inr same) = inr same

-- Updates of which the second finds nothing to do: what the first stored makes it fail with an error
-- that the handler takes for success, and so does what made the first fail.
module _ {E F V : Type 0} (missing : Uuid → E) (persist : V → Result E V)
    (map_error : E → Result F (Unit {0})) (done : E) (id : Uuid) (f g : V → Result E V)
    (m : Store V) {m' : Store V} (is_done : map_error done ≡ ok tt)
    (not_missing : map_error (missing id) ≢ ok tt)
    (not_unfit : (t : V) (e : E) → persist t ≡ err e → map_error e ≢ ok tt)
    (again : (s t u : V) → f s ≡ ok t → persist t ≡ ok u → g u ≡ err done)
    (refused : (s : V) (e : E) → f s ≡ err e → map_error e ≡ ok tt → g s ≡ err e)
    (ran : answer map_error (update missing persist id f m) ≡ (ok tt, m')) where
  -- What the first leaves for the second.
  pub update_settles :
      (s : V) × (e : E) × (get missing id m' ≡ ok s) × (g s ≡ err e) × (map_error e ≡ ok tt)
  update_settles = elim (Result-cases (update missing persist id f m).0) [
    | inl (x, stored) ↦
        let (s, t, u, found, made, kept, same) =
          update_ok missing persist id f m {m' = (update missing persist id f m).1}
            (ground (arith, stored)) in
        let now_there : m' ≡ Store.insert id u m = ground (arith, stored, same) in
        (
          u,
          done,
          ap (get missing id) now_there ∙ get-insert_self missing id u m,
          again s t u made kept,
          is_done,
        )
    | inr (inl (e, failed)) ↦
        let (cause, same) = update_err missing persist id f m {e = e} failed in
        let fine : map_error e ≡ ok tt = ground (arith, failed) in
        let kept : m' ≡ m = ground (arith, failed, same) in
        elim cause [
          | inl absent ↦ absurd (not_missing (ap map_error (sym absent) ∙ fine))
          | inr (inl (s, found, said)) ↦
              (s, e, ap (get missing id) kept ∙ found, refused s e said fine, fine)
          | inr (inr (t, unfit)) ↦ absurd (not_unfit t e unfit fine)
        ]
    | inr (inr panics) ↦ absurd (ground (arith, panics))
  ]

  pub update_again : answer map_error (update missing persist id g m') ≡ (ok tt, m')
  update_again =
      let (s, e, there, said, fine) = update_settles in
      ap (answer map_error) (update_refused missing persist id g m' there said)
      ∙ ap (λ x. (x, m')) fine
