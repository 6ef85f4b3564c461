-- ===== src/Text/Trimming.antt =====
-- What `strings.TrimSpace` leaves has no space at either end, and a map that moves no code point into
-- or out of the spaces goes past it.
use molot.Base.{
  ℕ, ◌≡◌, refl, sym, ap, ◌∙◌, Bool, false, [], ◌∷◌, ◌++◌, map, reverse, arith, Bool-cases, inl, inr,
  if◌then◌else◌,
}
use mathlib.Core.List.{reverse_aux, reverse-reverse, reverse-append}
use molot.Text.{Text, is_space, trim_left, trim_space}

abbrev starts_space : Text → Bool
starts_space [] = false
starts_space (r ∷ s) = is_space r

trim_left-starts_space : (s : Text) → starts_space (trim_left s) ≡ false
unfolding trim_left
trim_left-starts_space [] = refl
trim_left-starts_space (r ∷ s) = elim (Bool-cases (is_space r)) [
  | inl space ↦
      ap (λ b. starts_space (if b then trim_left s else r ∷ s)) space ∙ trim_left-starts_space s
  | inr letter ↦ ap (λ b. starts_space (if b then trim_left s else r ∷ s)) letter ∙ letter
]

trim_left_bare : (s : Text) → starts_space s ≡ false → trim_left s ≡ s
unfolding trim_left
trim_left_bare [] h = refl
trim_left_bare (r ∷ s) h = ap (λ b. if b then trim_left s else r ∷ s) h

append-starts_space : (s t : Text) → starts_space (s ++ t) ≡ false → starts_space s ≡ false
append-starts_space [] t h = refl
append-starts_space (r ∷ s) t h = h

-- What `trim_left` takes away.
trim_left_suffix : (s : Text) → (p : Text) × (s ≡ p ++ trim_left s)
unfolding trim_left
trim_left_suffix [] = ([], refl)
trim_left_suffix (r ∷ s) = elim (Bool-cases (is_space r)) [
  | inl space ↦
      let (p, e) = trim_left_suffix s in
      (
        r ∷ p,
        ap (λ x. r ∷ x) e ∙ ap (λ b. (r ∷ p) ++ (if b then trim_left s else r ∷ s)) (sym space),
      )
  | inr letter ↦ ([], ap (λ b. if b then trim_left s else r ∷ s) (sym letter))
]

trim_space-starts_space : (s : Text) → starts_space (trim_space s) ≡ false
unfolding trim_space
trim_space-starts_space s =
    let (p, e) = trim_left_suffix (reverse (trim_left s)) in
    let whole : trim_left s ≡ reverse (trim_left (reverse (trim_left s))) ++ reverse p =
      sym (reverse-reverse (trim_left s)) ∙ ap reverse e ∙ reverse-append p _ in
    append-starts_space (reverse (trim_left (reverse (trim_left s)))) (reverse p)
      (ap starts_space (sym whole) ∙ trim_left-starts_space s)

pub trim_space-trim_space : (s : Text) → trim_space (trim_space s) ≡ trim_space s
unfolding trim_space
trim_space-trim_space s =
    let w = trim_left (reverse (trim_left s)) in
    ap (λ x. reverse (trim_left (reverse x)))
      (trim_left_bare (trim_space s) (trim_space-starts_space s))
    ∙ ap (λ x. reverse (trim_left x)) (reverse-reverse w)
    ∙ ap reverse (trim_left_bare w (trim_left-starts_space (reverse (trim_left s))))

module _ (f : ℕ → ℕ) (keeps : (r : ℕ) → is_space (f r) ≡ is_space r) where
  trim_left-map : (s : Text) → trim_left (map f s) ≡ map f (trim_left s)
  unfolding trim_left
  trim_left-map [] = refl
  trim_left-map (r ∷ s) = elim (Bool-cases (is_space r)) [
    | inl space ↦ ground (arith, space, keeps r, trim_left-map s)
    | inr letter ↦ ground (arith, letter, keeps r)
  ]

  reverse-map : (s t : Text) → reverse_aux (map f s) (map f t) ≡ map f (reverse_aux s t)
  reverse-map [] t = refl
  reverse-map (r ∷ s) t = reverse-map s (r ∷ t)

  pub trim_space-map : (s : Text) → trim_space (map f s) ≡ map f (trim_space s)
  unfolding trim_space
  trim_space-map s =
      ap (λ x. reverse (trim_left (reverse x))) (trim_left-map s)
      ∙ ap (λ x. reverse (trim_left x)) (reverse-map (trim_left s) [])
      ∙ ap reverse (trim_left-map (reverse (trim_left s)))
      ∙ reverse-map (trim_left (reverse (trim_left s))) []
