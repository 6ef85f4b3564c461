-- ===== src/Slug.antt =====
-- internal/common/errs/errors.go: the errors that cross a port, told by their kind and slug. The
-- wrapped cause serves only the logs, and is left out.
use molot.Base.{Bool, true, false, ◌&&◌, ◌≡◌, refl, arith, Result, ok, err, panic}
use Prim.Native.String.{String}
use text.Mathlib.Text.{◌==◌ as str_eq}

pub data ErrorKind : Type 0 where
  unknown incorrect_input forbidden not_found conflict unavailable : ErrorKind

pub record SlugError : Type 0 where
  pub slug : String
  pub kind : ErrorKind

abbrev pub kind_eq : ErrorKind → ErrorKind → Bool
kind_eq unknown unknown = true
kind_eq incorrect_input incorrect_input = true
kind_eq forbidden forbidden = true
kind_eq not_found not_found = true
kind_eq conflict conflict = true
kind_eq unavailable unavailable = true
kind_eq _ _ = false

-- `SlugError.Is`
unfoldable pub is : SlugError → SlugError → Bool
is e target = str_eq target.slug e.slug && kind_eq target.kind e.kind

abbrev pub new_incorrect_input_error : String → SlugError
new_incorrect_input_error s = record { slug = s; kind = incorrect_input }

abbrev pub new_forbidden_error : String → SlugError
new_forbidden_error s = record { slug = s; kind = forbidden }

abbrev pub new_not_found_error : String → SlugError
new_not_found_error s = record { slug = s; kind = not_found }

abbrev pub new_conflict_error : String → SlugError
new_conflict_error s = record { slug = s; kind = conflict }

abbrev pub new_unavailable_error : String → SlugError
new_unavailable_error s = record { slug = s; kind = unavailable }

abbrev pub new_unknown_error : String → SlugError
new_unknown_error s = record { slug = s; kind = unknown }

-- An error of a command handler: one of the context's own, or the slug error that it is wrapped into.
pub data Fault (E : Type 0) : Type 0 where
  domain : E → Fault E
  slug : SlugError → Fault E

-- `KindFromError`; every error that is made has a kind.
unfoldable pub kind_from_error : {E : Type 0} → Fault E → ErrorKind
kind_from_error (domain e) = unknown
kind_from_error (slug s) = s.kind

-- An argument that a facade parses before it calls a handler; the error is an `incorrect_input` of the
-- given slug.
abbrev pub parsed :
    {D E S A : Type 0}
    → Result D A
    → String
    → (A → S → Result (Fault E) (Unit {0}) × S)
    → S
    → Result (Fault E) (Unit {0}) × S
parsed (ok a) s k m = k a m
parsed (err e) s k m = (err (slug (new_incorrect_input_error s)), m)
parsed panic s k m = (panic, m)

-- A handler that succeeds again does so behind its parsed arguments.
pub parsed_again :
    {D E S A : Type 0} (r : Result D A) (s : String)
    (k k' : A → S → Result (Fault E) (Unit {0}) × S) {m m' m'' : S}
    → ((a : A) → r ≡ ok a → k a m ≡ (ok tt, m') → k' a m'' ≡ (ok tt, m''))
    → parsed r s k m ≡ (ok tt, m')
    → parsed r s k' m'' ≡ (ok tt, m'')
parsed_again (ok a) s k k' again h = again a refl h
parsed_again (err e) s k k' again h = absurd (ground arith)
parsed_again panic s k k' again h = absurd (ground arith)
