-- ===== src/Auth/Service/Tokens.antt =====
-- Access tokens: what Login or Issue signs, Validate reads back while the token lives.
use on_call_agent.Base.{
  ℕ, ◌≤◌, ◌<◌, ◌+◌, ◌≡◌, false, Option, none, some, arith, Text, is_empty, trim_space, ok, err,
}
use on_call_agent.Auth.Service.{
  AuthConfig, Bcrypt, Claims, Jwt, Principal, Service, claims_for, expired, issue, issue_token,
  is_incomplete, login, new_service, seconds, token_expired, valid, validate_token,
}
use on_call_agent.Auth.Service.Users.{login-authenticates}

-- What RFC 7519 and the library say of a signed token: it is a compact text without spaces; with
-- the secret and issuer of its claims it is read back from its `nbf` until before its `exp`, and is
-- expired from then on.
pub record IsHs256 (jwt : Jwt) : Type 0 where
  pub sign-compact :
      (secret token : Text) (c : Claims)
      → jwt.sign secret c ≡ some token
      → (trim_space token ≡ token) × (is_empty token ≡ false)
  pub parse-live :
      (secret token : Text) (c : Claims) (at : ℕ)
      → jwt.sign secret c ≡ some token
      → c.not_before ≤ at
      → at < c.expires_at
      → jwt.parse secret c.claim_issuer at token ≡ valid c
  pub parse-expired :
      (secret token : Text) (c : Claims) (at : ℕ)
      → jwt.sign secret c ≡ some token
      → c.not_before ≤ at
      → c.expires_at ≤ at
      → jwt.parse secret c.claim_issuer at token ≡ expired

issue_lem :
    (jwt : Jwt) (s : Service) (p : Principal) (random : Option Text) (now : ℕ) (token : Text)
    → issue jwt s p random now ≡ ok token
    → (jti : Text) × (jwt.sign s.secret (claims_for s p jti now) ≡ some token)
unfolding issue
issue_lem jwt s p (some jti) now token h = (jti, ground arith)
issue_lem jwt s p none now token h = absurd (ground arith)

login-issue :
    (b : Bcrypt) (jwt : Jwt) (s : Service) (name password : Text) (random : Option Text) (now : ℕ)
    (p : Principal) (token : Text)
    → login b jwt s name password random now ≡ ok (p, token)
    → issue jwt s p random now ≡ ok token
unfolding login
login-issue b jwt s name password random now p token h = ground arith

module _ (jwt : Jwt) (laws : IsHs256 jwt) (s : Service) (p : Principal) (token : Text) where
  live_token :
      (jti : Text) (now at : ℕ)
      → jwt.sign s.secret (claims_for s p jti now) ≡ some token
      → is_incomplete p.user_id p.tenant_id p.username ≡ false
      → seconds now ≤ at
      → at < seconds (now + s.access_token_ttl)
      → validate_token jwt s at token ≡ ok p
  unfolding validate_token claims_for
  live_token jti now at signed complete from until = ground (
    arith,
    signed,
    laws.sign-compact s.secret token (claims_for s p jti now) signed,
    laws.parse-live s.secret token (claims_for s p jti now) at signed from until,
  )

  dead_token :
      (jti : Text) (now at : ℕ)
      → jwt.sign s.secret (claims_for s p jti now) ≡ some token
      → seconds now ≤ at
      → seconds (now + s.access_token_ttl) ≤ at
      → validate_token jwt s at token ≡ err token_expired
  unfolding validate_token claims_for
  dead_token jti now at signed from over = ground (
    arith,
    signed,
    laws.sign-compact s.secret token (claims_for s p jti now) signed,
    laws.parse-expired s.secret token (claims_for s p jti now) at signed from over,
  )

-- A token that Issue returned is read back by Validate as the principal it was issued for, from the
-- second of its issue until before the second in which its time to live ends, if signing and parsing
-- obey the laws of JWT.
validate_token-issue_token :
    (jwt : Jwt)
    → IsHs256 jwt
    → (s : Service) (p : Principal) (random : Option Text) (now at : ℕ) (token : Text)
    → issue_token jwt s p random now ≡ ok token
    → seconds now ≤ at
    → at < seconds (now + s.access_token_ttl)
    → validate_token jwt s at token ≡ ok p
unfolding issue_token
validate_token-issue_token jwt laws s p random now at token h from until =
    let (jti, signed) = issue_lem jwt s p random now token (ground arith) in
    live_token jwt laws s p token jti now at signed (ground arith) from until

-- A token from Login at a service made from settings is read back as the principal that Login
-- returned, from the second of the login until before the second in which its time to live ends, if
-- signing and parsing obey the laws of JWT.
pub validate_token-login :
    (b : Bcrypt) (jwt : Jwt)
    → IsHs256 jwt
    → (cfg : AuthConfig) (s : Service) → new_service b cfg ≡ ok s
    → (name password : Text) (random : Option Text) (now at : ℕ) (p : Principal) (token : Text)
    → login b jwt s name password random now ≡ ok (p, token)
    → seconds now ≤ at
    → at < seconds (now + s.access_token_ttl)
    → validate_token jwt s at token ≡ ok p
validate_token-login b jwt laws cfg s made name password random now at p token h from until =
    let (user, found, matched, same, named, complete) =
      login-authenticates b jwt cfg s made name password random now p token h in
    let (jti, signed) =
      issue_lem jwt s p random now token (login-issue b jwt s name password random now p token h) in
    live_token jwt laws s p token jti now at signed complete from until

-- From the second in which its time to live ends, Validate answers ErrTokenExpired for a token that
-- Issue returned, if signing and parsing obey the laws of JWT.
validate_token-expired :
    (jwt : Jwt)
    → IsHs256 jwt
    → (s : Service) (p : Principal) (random : Option Text) (now at : ℕ) (token : Text)
    → issue_token jwt s p random now ≡ ok token
    → seconds now ≤ at
    → seconds (now + s.access_token_ttl) ≤ at
    → validate_token jwt s at token ≡ err token_expired
unfolding issue_token
validate_token-expired jwt laws s p random now at token h from over =
    let (jti, signed) = issue_lem jwt s p random now token (ground arith) in
    dead_token jwt laws s p token jti now at signed from over
