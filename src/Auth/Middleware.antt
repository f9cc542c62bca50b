-- ===== src/Auth/Middleware.antt =====
-- The HTTP middleware of internal/auth/middleware.go, and the principal in a request's context
-- (context.go).
mod Tests
use on_call_agent.Base.{
  ℕ, ◌≡◌, ◌≢◌, refl, Bool, true, false, not, ◌&&◌, ◌||◌, List, [], ◌∷◌, Option, none, some, arith,
  if◌then◌else◌, ◌=?◌, map, Text, codes, is_empty, fields, fold_ascii, Result, ok, err, nat_eq,
  list_eq, Option-cases, Result-cases, inl, inr,
}
use on_call_agent.Auth.Service.{
  invalid_credentials, issuer_required, secret_too_short, ttl_not_positive, user_incomplete,
  duplicate_user, invalid_password_hash, principal_incomplete, no_randomness, signing_failed,
  AuthError, Jwt, Principal, Service, expired, invalid_token, is_incomplete, token_expired,
  unreadable, valid, validate_token,
}

-- strings.EqualFold with "Bearer", whose letters fold to no other letters than a to z.
unfoldable pub is_bearer : Text → Bool
unfolding fold_ascii
is_bearer scheme = map fold_ascii scheme =? codes "bearer"

unfoldable pub scheme_token : List Text → Option Text
scheme_token (scheme ∷ token ∷ []) =
    if not (is_bearer scheme) || is_empty token then none else some token
scheme_token (scheme ∷ token ∷ other ∷ rest) = none
scheme_token (scheme ∷ []) = none
scheme_token [] = none

-- bearerToken
unfoldable pub bearer_token : Text → Option Text
bearer_token header = scheme_token (fields header)

-- The bodies of the three refusals, all with status 401, and the call of the next handler with the
-- principal in its context.
pub data Reply : Type 0 where
  missing_token invalid_or_expired authentication_failed : Reply
  next : Principal → Reply

-- The tests of the middleware on an error of Validate.
unfoldable pub refusal : AuthError → Reply
refusal e = elim e [
  | token_expired ↦ invalid_or_expired
  | invalid_token ↦ invalid_or_expired
  | invalid_credentials ↦ authentication_failed
  | issuer_required ↦ authentication_failed
  | secret_too_short ↦ authentication_failed
  | ttl_not_positive ↦ authentication_failed
  | user_incomplete ↦ authentication_failed
  | duplicate_user ↦ authentication_failed
  | invalid_password_hash ↦ authentication_failed
  | principal_incomplete ↦ authentication_failed
  | no_randomness ↦ authentication_failed
  | signing_failed ↦ authentication_failed
]

-- Service.Middleware at a time.
unfoldable pub middleware : Jwt → Service → ℕ → Text → Reply
middleware jwt s now header = elim (bearer_token header) [
  | none ↦ missing_token
  | some token ↦ elim (validate_token jwt s now token) [ ok p ↦ next p | err e ↦ refusal e ]
]

validate_token_complete :
    (jwt : Jwt) (s : Service) (now : ℕ) (raw : Text) (p : Principal)
    → validate_token jwt s now raw ≡ ok p
    → is_incomplete p.user_id p.tenant_id p.username ≡ false
unfolding validate_token
validate_token_complete jwt s now raw p h = ground arith

-- The next handler runs only for a header of two words, the first of them `Bearer` in any letters,
-- whose second word Validate accepts; the principal in its context has all three identifiers.
pub middleware-next :
    (jwt : Jwt) (s : Service) (now : ℕ) (header : Text) (p : Principal)
    → middleware jwt s now header ≡ next p
    → (scheme : Text) × (token : Text) × (fields header ≡ scheme ∷ token ∷ [])
      × (is_bearer scheme ≡ true)
      × (validate_token jwt s now token ≡ ok p)
      × (is_incomplete p.user_id p.tenant_id p.username ≡ false)
unfolding middleware bearer_token scheme_token refusal
middleware-next jwt s now header p h = next_of (fields header) refl h
  where
    next_of :
        (words : List Text)
        → fields header ≡ words
        → middleware jwt s now header ≡ next p
        → (scheme : Text) × (token : Text) × (fields header ≡ scheme ∷ token ∷ [])
          × (is_bearer scheme ≡ true)
          × (validate_token jwt s now token ≡ ok p)
          × (is_incomplete p.user_id p.tenant_id p.username ≡ false)
    next_of [] q h = absurd (ground (arith, q))
    next_of (a ∷ []) q h = absurd (ground (arith, q))
    next_of (a ∷ b ∷ c ∷ rest) q h = absurd (ground (arith, q))
    next_of (a ∷ b ∷ []) q h = elim (Result-cases (validate_token jwt s now b)) [
      | inl (p', v) ↦ (
        a,
        b,
        q,
        ground (arith, q, v),
        ground (arith, q, v),
        ground (arith, q, v, validate_token_complete jwt s now b p' v),
      )
      | inr (e, v) ↦ absurd (ground (arith, q, v))
    ]
