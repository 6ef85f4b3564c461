-- ===== src/Common/Http.antt =====
-- What the HTTP ports share: the caller and the arguments of a request, and the answers to errors
-- (internal/common/server/httperr/httperr.go). A port is a function of the state that its command
-- changes; an error of a port is a fault, as a command's is.
use Prim.Native.String.{String}
use molot.Base.{ℕ, ◌≡◌, ◌⊎◌, refl, inr, true, false, Option, Result, ok, err, panic}
use text.Mathlib.Text.{◌==◌ as str_eq}
use molot.Slug.{
  ErrorKind, unknown, incorrect_input, forbidden, not_found, conflict, unavailable, Fault, domain,
  slug, kind_from_error, new_incorrect_input_error, new_unknown_error,
}
use molot.Common.Auth.{User, user_from_ctx}

-- `statusFromKind`
unfoldable pub status_from_kind : ErrorKind → ℕ
status_from_kind incorrect_input = 400
status_from_kind forbidden = 403
status_from_kind not_found = 404
status_from_kind conflict = 409
status_from_kind unavailable = 502
status_from_kind unknown = 500

-- The slug that leaves the process.
abbrev pub visible_slug : {E : Type 0} → Fault E → String
visible_slug (domain e) = "internal-server-error"
visible_slug (slug s) = elim (str_eq s.slug "") [ true ↦ "internal-server-error" | false ↦ s.slug ]

-- What a client sees of a request: the port's answer, the status and the slug of an error, or the end
-- of a panic.
pub data Response (A : Type 0) : Type 0 where
  answered : A → Response A
  failed : (status : ℕ) (slug : String) → Response A
  crashed : Response A

-- `RespondWithSlugError`, of what a port returns.
unfoldable pub respond : {E A : Type 0} → Result (Fault E) A → Response A
respond (ok a) = answered a
respond (err e) = failed (status_from_kind (kind_from_error e)) (visible_slug e)
respond panic = crashed

-- `user, err := auth.UserFromCtx(ctx)`
abbrev pub caller : {E : Type 0} → Option User → Result (Fault E) User
caller u = elim (user_from_ctx u) [ ok user ↦ ok user | err e ↦ err (slug e) | panic ↦ panic ]

-- An argument that a port makes; its error is an incorrect input of the given slug, or, of the caller's
-- identity in some ports, an unknown error.
abbrev pub argument : {E D A : Type 0} → Result D A → String → Result (Fault E) A
argument (ok a) s = ok a
argument (err e) s = err (slug (new_incorrect_input_error s))
argument panic s = panic

abbrev pub identity : {E D A : Type 0} → Result D A → String → Result (Fault E) A
identity (ok a) s = ok a
identity (err e) s = err (slug (new_unknown_error s))
identity panic s = panic

module _ {E A B S : Type 0} where
  -- The command that follows the arguments.
  abbrev pub given :
      Result (Fault E) A → (A → S → Result (Fault E) B × S) → S → Result (Fault E) B × S
  given (ok a) k m = k a m
  given (err e) k m = (err e, m)
  given panic k m = (panic, m)

  -- A request that is refused changes nothing, where that holds of the command.
  pub given_refused :
      (r : Result (Fault E) A) (k : A → S → Result (Fault E) B × S) (m : S)
      → ((a : A) → ((b : B) × ((k a m).0 ≡ ok b)) ⊎ ((k a m).1 ≡ m))
      → ((b : B) × ((given r k m).0 ≡ ok b)) ⊎ ((given r k m).1 ≡ m)
  given_refused (ok a) k m h = h a
  given_refused (err e) k m h = inr refl
  given_refused panic k m h = inr refl

-- The answer of a port to a command that succeeded.
abbrev pub with_answer :
    {E A S : Type 0} → A → Result (Fault E) (Unit {0}) × S → Result (Fault E) A × S
with_answer a (r, m) = (elim r [ ok u ↦ ok a | err e ↦ err e | panic ↦ panic ], m)
