-- ===== src/Participant/Canonical.antt =====
-- The loop of `isCanonicalUUID` (internal/participant/domain/participant/id.go) against the textual
-- form of RFC 9562, section 4: five groups of hexadecimal digits, joined by hyphens.
use molot.Base.{
  ℕ, zero, suc, ◌+◌, ◌≤◌, ◌≡◌, refl, sym, ap, ◌∙◌, subst, Bool, true, ◌&&◌, ◌||◌, not, [], ◌∷◌,
  ◌++◌, arith, leb, ◌==◌, ◌↔◌,
}
use mathlib.Core.List.{append-nil}
use molot.Text
use molot.Text.{Text}
use molot.Participant.Values.{fits, fits_from, is_canonical_uuid}

-- A digit, or a letter from `a` to `f`.
abbrev is_hex : ℕ → Bool
is_hex c = (leb b'0' c && leb c b'9') || (leb b'a' c && leb c b'f')

-- Exactly `n` hexadecimal digits.
pub data Group : ℕ → Text → Type 0 where
  none_left : Group 0 []
  digit : {n : ℕ} {s : Text} (c : ℕ) → is_hex c ≡ true → Group n s → Group (suc n) (c ∷ s)

-- `n` hexadecimal digits and a hyphen, before a text with a property.
abbrev Joined : ℕ → (Text → Type 0) → Text → Type 0
Joined n P s = (g t : Text) × Group n g × P t × (s ≡ g ++ (b'-' ∷ t))

-- Groups of 8, 4, 4, 4 and 12 digits.
abbrev pub IsUuid : Text → Type 0
IsUuid = Joined 8 (Joined 4 (Joined 4 (Joined 4 (Group 12))))

-- Does the loop ask for a digit at each of n indices from i?
digits_at : ℕ → ℕ → Bool
digits_at i zero = true
digits_at i (suc n) = not ((i == 8) || (i == 13) || (i == 18) || (i == 23)) && digits_at (suc i) n

hex_fits : (i c : ℕ) → digits_at i 1 ≡ true → fits i c ≡ is_hex c
unfolding digits_at
hex_fits i c h = ground arith

-- What the loop makes of a group.
Group-fits :
    (i n : ℕ) {s : Text} (t : Text)
    → digits_at i n ≡ true
    → Group n s
    → fits_from i (s ++ t) ≡ fits_from (i + n) t
unfolding digits_at fits_from
Group-fits i zero t h none_left = ap (λ j. fits_from j t) (omega arith)
Group-fits i (suc n) t h (digit c hex g) =
    let moved : suc i + n ≡ i + suc n = omega arith in
    ground (arith, hex, h, Group-fits (suc i) n t (ground arith) g, ap (λ j. fits_from j t) moved)

-- A group at the head of what the loop accepts, and what follows it.
abbrev Met : ℕ → ℕ → Text → Type 0
Met i n s =
    (g t : Text) × Group n g
    × (s ≡ g ++ t)
    × (fits_from (i + n) t ≡ true)
    × (Text.len s ≡ n + Text.len t)

Met-cons :
    (i n c : ℕ) (s : Text)
    → is_hex c ≡ true
    → Text.len (c ∷ s) ≡ suc (Text.len s)
    → Met (suc i) n s
    → Met i (suc n) (c ∷ s)
Met-cons i n c s hex one (g, t, met, split, rest, size) =
    let moved : i + suc n ≡ suc i + n = omega arith in
    (
      c ∷ g,
      t,
      digit c hex met,
      ap (λ x. c ∷ x) split,
      ap (λ j. fits_from j t) moved ∙ rest,
      omega (arith, one, size),
    )

fits-Met :
    (i n : ℕ) (s : Text) → digits_at i n ≡ true → n ≤ Text.len s → fits_from i s ≡ true → Met i n s
unfolding digits_at fits_from Text.len
fits-Met i zero s h l f =
    ([], s, none_left, refl, ap (λ j. fits_from j s) (omega arith) ∙ f, omega arith)
fits-Met i (suc n) [] h l f = absurd (omega arith)
fits-Met i (suc n) (c ∷ s) h l f =
    let one : Text.len (c ∷ s) ≡ suc (Text.len s) = ground arith in
    Met-cons i n c s (ground arith) one
      (fits-Met (suc i) n s (ground arith) (ground (arith, one)) (ground arith))

-- A hyphen where the loop asks for one.
fits-hyphen :
    (i : ℕ) (s : Text)
    → (i == 8) || (i == 13) || (i == 18) || (i == 23) ≡ true
    → 1 ≤ Text.len s
    → fits_from i s ≡ true
    → (t : Text) × (s ≡ b'-' ∷ t) × (fits_from (suc i) t ≡ true) × (Text.len s ≡ suc (Text.len t))
unfolding fits_from Text.len
fits-hyphen i [] at l f = absurd (omega arith)
fits-hyphen i (c ∷ s) at l f =
    let hyphen : c ≡ b'-' = ground arith in (s, ap (λ x. x ∷ s) hyphen, ground arith, ground arith)

len_zero : (s : Text) → Text.len s ≡ 0 → s ≡ []
unfolding Text.len
len_zero [] h = refl
len_zero (c ∷ s) h = absurd (ground arith)

Group-len : (n : ℕ) {s : Text} (t : Text) → Group n s → Text.len (s ++ t) ≡ n + Text.len t
unfolding Text.len
Group-len zero t none_left = omega arith
Group-len (suc n) t (digit c hex g) = ground (arith, hex, Group-len n t g)

-- What the loop accepts from index i, of k bytes.
abbrev Accepts : ℕ → ℕ → Text → Type 0
Accepts i k s = (Text.len s ≡ k) × (fits_from i s ≡ true)

abbrev hyphen_at : ℕ → Bool
hyphen_at i = (i == 8) || (i == 13) || (i == 18) || (i == 23)

module _ (i n k : ℕ) (P : Text → Type 0) (digits : digits_at i n ≡ true)
    (hyphen : hyphen_at (i + n) ≡ true) where
  Accepts-Joined :
      ((t : Text) → Accepts (suc (i + n)) k t → P t)
      → (s : Text) → Accepts i (suc n + k) s
      → Joined n P s
  Accepts-Joined follows s (whole, loop) =
      let (g, t, met, split, rest, size) = fits-Met i n s digits (omega (arith, whole)) loop in
      let (u, split', rest', size') =
        fits-hyphen (i + n) t hyphen (omega (arith, whole, size)) rest in
      let kept : Text.len u ≡ k = omega (arith, whole, size, size') in
      (g, u, met, follows u (kept, rest'), split ∙ ap (λ x. g ++ x) split')

  Joined-Accepts :
      ((t : Text) → P t → Accepts (suc (i + n)) k t)
      → (s : Text) → Joined n P s
      → Accepts i (suc n + k) s
  unfolding fits_from Text.len
  Joined-Accepts follows s (g, t, met, p, e) =
      let (size, loop) = follows t p in
      let goes_on : fits_from i (g ++ (b'-' ∷ t)) ≡ true =
        ground (arith, hyphen, loop, Group-fits i n (b'-' ∷ t) digits met) in
      let long : Text.len (g ++ (b'-' ∷ t)) ≡ suc n + k =
        ground (arith, size, Group-len n (b'-' ∷ t) met) in
      (ap Text.len e ∙ long, ap (fits_from i) e ∙ goes_on)

Accepts-Group : (i n : ℕ) (s : Text) → digits_at i n ≡ true → Accepts i n s → Group n s
Accepts-Group i n s digits (whole, loop) =
    let (g, t, met, split, rest, size) = fits-Met i n s digits (omega (arith, whole)) loop in
    let bare : s ≡ g =
      split ∙ ap (λ x. g ++ x) (len_zero t (omega (arith, whole, size))) ∙ append-nil g in
    subst (Group n) (sym bare) met

Group-Accepts : (i n : ℕ) (s : Text) → digits_at i n ≡ true → Group n s → Accepts i n s
unfolding fits_from Text.len
Group-Accepts i n s digits g =
    let same = append-nil s in
    (
      ap Text.len (sym same) ∙ Group-len n [] g ∙ omega arith,
      ap (fits_from i) (sym same) ∙ Group-fits i n [] digits g,
    )

canonical-Accepts : (s : Text) → (is_canonical_uuid s ≡ true) ↔ Accepts 0 36 s
unfolding is_canonical_uuid
canonical-Accepts s = (λ h. (ground arith, ground arith), λ h. ground arith)

-- The loop of isCanonicalUUID accepts exactly the texts of five groups of 8, 4, 4, 4 and 12
-- lowercase hexadecimal digits with dashes between them.
pub canonical_iff : (s : Text) → (is_canonical_uuid s ≡ true) ↔ IsUuid s
unfolding digits_at
canonical_iff s = (
  λ h.
      Accepts-Joined 0 8 27 _ refl refl
        (Accepts-Joined 9 4 22 _ refl refl (
          Accepts-Joined 14 4 17 _ refl refl
            (Accepts-Joined 19 4 12 _ refl refl (λ t. Accepts-Group 24 12 t refl))))
        s ((canonical-Accepts s).0 h),
  λ u. (canonical-Accepts s).1 (
      Joined-Accepts 0 8 27 _ refl refl
        (Joined-Accepts 9 4 22 _ refl refl (
          Joined-Accepts 14 4 17 _ refl refl
            (Joined-Accepts 19 4 12 _ refl refl (λ t. Group-Accepts 24 12 t refl))))
        s u),
)
