-- ===== src/Common/Auth.antt =====
-- internal/common/auth/auth.go: who calls, by a signed token. A user that no middleware has put into
-- the context is `none`.
use molot.Base.{
  ◌≡◌, ◌<◌, Bool, true, false, ◌||◌, ◌∙◌, ap, Option, none, some, [], ◌∷◌, ◌++◌, Result, ok, err,
  ◌>>◌, reject_if, not, arith, ◌==◌, Option-cases, inl, inr, if◌then◌else◌,
}
use molot.Slug.{SlugError, new_unknown_error}
use molot.Text
use molot.Text.{Text, text}
use molot.Time
use molot.Time.{Time, Duration}
use molot.Uuid.{Uuid, UuidText}

abbrev pub Role : Type 0
Role = Text

abbrev pub role_bidder : Role
role_bidder = text "bidder"

abbrev pub role_seller : Role
role_seller = text "seller"

abbrev pub role_operations : Role
role_operations = text "operations"

-- `Role.valid`
unfoldable pub valid : Role → Bool
valid r = Text.eq r role_bidder || Text.eq r role_seller || Text.eq r role_operations

pub record User : Type 0 where
  pub id : Uuid
  pub role : Role

-- `UserFromCtx`
unfoldable pub user_from_ctx : Option User → Result SlugError User
user_from_ctx none = err (new_unknown_error "no-user-in-context")
user_from_ctx (some user) = ok user

-- What `NewMiddleware` answers for a mode: whether there is a middleware.
unfoldable pub new_middleware : Text → Text → Bool
new_middleware mode hs256_secret =
    if Text.eq mode (text "local-hs256") then not (Text.is_empty hs256_secret) else false

-- `claims`
pub record Claims : Type 0 where
  pub role : Text
  pub subject : Text
  pub issued_at : Time
  pub expires_at : Time

-- What the package uses of github.com/golang-jwt/jwt: `NewNumericDate`, which cuts a time to its
-- seconds; `SignedString`, whose tokens are not empty; and `ParseWithClaims` at a time, without a
-- result where the token is not valid. It reads the claims that were signed with the same secret
-- until they expire.
pub record Jwt : Type 0 where
  pub numeric_date : Time → Time
  pub signed_string : Text → Claims → Option Text
  pub parse_with_claims : Text → Time → Text → Option Claims
  pub signed_set :
      (secret : Text) (c : Claims) (t : Text)
      → signed_string secret c ≡ some t
      → Text.is_empty t ≡ false
  pub parse-signed :
      (secret : Text) (c : Claims) (t : Text) (now : Time)
      → signed_string secret c ≡ some t
      → now < c.expires_at
      → parse_with_claims secret now t ≡ some c

-- Why a request has no user.
pub data AuthError : Type 0 where
  missing_token invalid_token bad_subject unknown_role sign_failed : AuthError

-- `strings.CutPrefix`
abbrev cut_prefix : Text → Text → Option Text
cut_prefix s [] = some s
cut_prefix [] (c ∷ prefix) = none
cut_prefix (r ∷ s) (c ∷ prefix) = if r == c then cut_prefix s prefix else none

module _ (jwt : Jwt) (uuids : UuidText) where
  -- The user that the claims tell of.
  unfoldable pub user_of : Claims → Result AuthError User
  user_of c = elim (uuids.parse c.subject) [
    | none ↦ err bad_subject
    | some id ↦ do
      reject_if (not (valid c.role)) unknown_role
      ok (record { id = id; role = c.role })
  ]

  -- `userFromRequest`, of the Authorization header.
  unfoldable pub user_from_request : Text → Text → Time → Result AuthError User
  user_from_request header secret now = elim (cut_prefix header (text "Bearer ")) [
    | none ↦ err missing_token
    | some token ↦ do
      reject_if (Text.is_empty token) missing_token
      elim (jwt.parse_with_claims secret now token) [
        | none ↦ err invalid_token
        | some c ↦ user_of c
      ]
  ]

  -- `GenerateToken`
  unfoldable pub generate_token : Text → User → Duration → Time → Result AuthError Text
  generate_token secret user ttl now =
      elim (jwt.signed_string secret (record {
        role = user.role;
        subject = uuids.to_string user.id;
        issued_at = jwt.numeric_date now;
        expires_at = jwt.numeric_date (Time.add now ttl);
      })) [ none ↦ err sign_failed | some signed ↦ ok signed ]

  pub token_names_user :
      (secret token : Text) (user : User) (ttl : Duration) (now later : Time)
      → valid user.role ≡ true
      → generate_token secret user ttl now ≡ ok token
      → later < jwt.numeric_date (Time.add now ttl)
      → user_from_request (text "Bearer " ++ token) secret later ≡ ok user
  unfolding generate_token user_from_request user_of
  token_names_user secret token user ttl now later known h fresh =
      let c : Claims = record {
        role = user.role;
        subject = uuids.to_string user.id;
        issued_at = jwt.numeric_date now;
        expires_at = jwt.numeric_date (Time.add now ttl);
      } in
      elim (Option-cases (jwt.signed_string secret c)) [
        | inl failed ↦ absurd (ground (arith, failed))
        | inr (t, signed) ↦
            let same : t ≡ token = ground (arith, signed) in
            let made = signed ∙ ap some same in
            ground (
              arith,
              known,
              jwt.signed_set secret c token made,
              jwt.parse-signed secret c token later made fresh,
              uuids.parse-to_string user.id,
            )
      ]
