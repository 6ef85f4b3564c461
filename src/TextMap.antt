-- ===== src/TextMap.antt =====
-- A Go map with strings for keys, in insertion order: the tables of the in-memory adapters of the
-- notification context, and the participants by their identity.
use molot.Base.{
  ◌≡◌, ◌≢◌, refl, Bool, false, ◌||◌, Option, none, some, List, [], ◌∷◌, arith, if◌then◌else◌, ap,
  ◌⊎◌, inl, inr, Bool-cases,
}
use molot.Text
use molot.Text.{Text}

abbrev pub TextMap : Type 0 → Type 0
TextMap V = List (Text × V)

module _ {V : Type 0} where
  -- `v, ok := m[k]`
  unfoldable pub lookup : Text → TextMap V → Option V
  unfolding Text.eq
  lookup k [] = none
  lookup k ((j, v) ∷ m) = if Text.eq k j then some v else lookup k m

  -- `m[k] = v`
  unfoldable pub insert : Text → V → TextMap V → TextMap V
  unfolding Text.eq
  insert k v [] = (k, v) ∷ []
  insert k v ((j, w) ∷ m) = if Text.eq k j then (k, v) ∷ m else (j, w) ∷ insert k v m

  pub insert-insert : (k : Text) (v : V) (m : TextMap V) → insert k v (insert k v m) ≡ insert k v m
  unfolding insert
  insert-insert k v [] = ground (arith, Text.eq_refl k)
  insert-insert k v ((j, w) ∷ m) = ground (arith, Text.eq_refl k, insert-insert k v m)

  pub lookup-insert :
      (k j : Text) (v : V) (m : TextMap V)
      → lookup j (insert k v m) ≡ (if Text.eq j k then some v else lookup j m)
  unfolding lookup insert
  lookup-insert k j v [] = refl
  lookup-insert k j v ((i, w) ∷ m) = elim (Bool-cases (Text.eq k i)) [
    | inl same ↦ ground (arith, same, ap (Text.eq j) (Text.eq_sound k i same))
    | inr apart ↦ elim (Bool-cases (Text.eq j k)) [
      | inl found ↦ ground (
        arith,
        apart,
        found,
        ap (λ x. Text.eq x i) (Text.eq_sound j k found),
        lookup-insert k j v m,
      )
      | inr other ↦ ground (arith, apart, other, lookup-insert k j v m)
    ]
  ]

  pub lookup-insert_self : (k : Text) (v : V) (m : TextMap V) → lookup k (insert k v m) ≡ some v
  lookup-insert_self k v m = ground (arith, lookup-insert k k v m, Text.eq_refl k)

  pub lookup-insert_ne :
      (k j : Text) (v : V) (m : TextMap V) → j ≢ k → lookup j (insert k v m) ≡ lookup j m
  lookup-insert_ne k j v m h = ground (arith, lookup-insert k j v m, Text.eq_sound j k)

  -- Does a loop over the values meet one that passes the test?
  unfoldable pub any_value : (V → Bool) → TextMap V → Bool
  any_value test [] = false
  any_value test ((k, v) ∷ m) = test v || any_value test m

  pub any_value-lookup :
      (test : V → Bool) (m : TextMap V) (k : Text) {v : V}
      → any_value test m ≡ false
      → lookup k m ≡ some v
      → test v ≡ false
  unfolding any_value lookup
  any_value-lookup test [] k h e = absurd (ground arith)
  any_value-lookup test ((j, w) ∷ m) k h e = elim (Bool-cases (Text.eq k j)) [
    | inl here ↦ ground (arith, here)
    | inr further ↦ any_value-lookup test m k (ground arith) (ground (arith, further))
  ]

  -- What is found after an insertion is the new value, or was there.
  pub insert-lookup :
      (k j : Text) (v : V) (m : TextMap V) {w : V}
      → lookup j (insert k v m) ≡ some w
      → ((j ≡ k) × (w ≡ v)) ⊎ (lookup j m ≡ some w)
  insert-lookup k j v m h = elim (Bool-cases (Text.eq j k)) [
    | inl same ↦ inl (Text.eq_sound j k same, ground (arith, same, lookup-insert k j v m))
    | inr apart ↦ inr (ground (arith, apart, lookup-insert k j v m))
  ]
