-- ===== src/Store.antt =====
-- A Go map keyed by UUIDs, in insertion order: the tables of the in-memory repositories.
use molot.Base.{
  ◌≡◌, ◌≢◌, refl, Bool, false, Option, none, some, List, [], ◌∷◌, arith, ◌==◌, if◌then◌else◌, ◌||◌,
  ◌∙◌, ap, Memᴰ, count, Bool-cases, inl, inr,
}
use molot.Uuid.{Uuid}

abbrev pub Store {ℓ} : Type ℓ → Type ℓ
Store V = List (Uuid × V)

module _ {ℓ} {V : Type ℓ} where
  -- `v, ok := m[k]`
  unfoldable pub lookup : Uuid → Store V → Option V
  lookup k [] = none
  lookup k ((j, v) ∷ m) = if k == j then some v else lookup k m

  -- `m[k] = v`
  unfoldable pub insert : Uuid → V → Store V → Store V
  insert k v [] = (k, v) ∷ []
  insert k v ((j, w) ∷ m) = if k == j then (k, v) ∷ m else (j, w) ∷ insert k v m

  -- Does a loop over the values meet one that passes the test?
  unfoldable pub any_value : (V → Bool) → Store V → Bool
  any_value test [] = false
  any_value test ((k, v) ∷ m) = test v || any_value test m

  pub lookup-insert :
      (k j : Uuid) (v : V) (m : Store V)
      → lookup j (insert k v m) ≡ (if j == k then some v else lookup j m)
  unfolding lookup insert
  lookup-insert k j v [] = refl
  lookup-insert k j v ((i, w) ∷ m) = ground (arith, lookup-insert k j v m)

  pub lookup-insert_self : (k : Uuid) (v : V) (m : Store V) → lookup k (insert k v m) ≡ some v
  lookup-insert_self k v m = ground (arith, lookup-insert k k v m)

  pub lookup-insert_ne :
      (k j : Uuid) (v : V) (m : Store V) → j ≢ k → lookup j (insert k v m) ≡ lookup j m
  lookup-insert_ne k j v m h = ground (arith, lookup-insert k j v m)

-- What a loop over a map is known to do: it visits every entry once, in an order that is not specified.
pub record IsIteration {ℓ} {V : Type ℓ} (order : Store V → Store V) : Type ℓ where
  pub keeps : (e : Uuid × V) (m : Store V) → Memᴰ e m → Memᴰ e (order m)
  pub keeps_count : (test : Uuid × V → Bool) (m : Store V) → count test (order m) ≡ count test m

pub lookup-Memᴰ {ℓ} :
    {V : Type ℓ} (k : Uuid) (m : Store V) {v : V} → lookup k m ≡ some v → Memᴰ (k, v) m
unfolding lookup
lookup-Memᴰ k [] h = absurd (ground arith)
lookup-Memᴰ k ((j, w) ∷ m) {v} h = elim (Bool-cases (k == j)) [
  | inl same ↦
      let e : k ≡ j = ground arith in
      let d : v ≡ w = ground arith in Memᴰ.head (ap (λ x. (x, v)) e ∙ ap (λ x. (j, x)) d)
  | inr apart ↦ Memᴰ.tail (lookup-Memᴰ k m (ground arith))
]
