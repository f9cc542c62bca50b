-- ===== src/Auth/Service.antt =====
-- Service of internal/auth/service.go and the types of types.go. bcrypt, JWT and the random token
-- identifiers are parameters: what a password hash accepts, and how claims are signed and parsed.
pub mod Tokens
pub mod Users
pub mod Tests
use on_call_agent.Base.{
  ℕ, ◌+◌, ◌/◌, ◌≡◌, Bool, true, false, not, ◌&&◌, ◌||◌, List, [], ◌∷◌, Option, none, some, ℤ, pos,
  negsuc, if◌then◌else◌, ltb, ◌==◌, Text, codes, is_empty, trim_space, Result, ok, err, ◌>>=◌, ◌>>◌,
  guard, require, length, nat_eq, list_eq,
}
use on_call_agent.Base.Map.{get, put}

-- The errors of the package, and those that the code builds in place.
pub data AuthError : Type 0 where
  invalid_credentials invalid_token token_expired : AuthError
  issuer_required secret_too_short ttl_not_positive user_incomplete duplicate_user : AuthError
  invalid_password_hash principal_incomplete no_randomness signing_failed : AuthError

pub record Principal : Type 0 where
  pub user_id : Text
  pub tenant_id : Text
  pub username : Text
  pub roles : List Text

pub record LocalUser : Type 0 where
  pub login_name : Text
  pub password_hash : Text
  pub local_user_id : Text
  pub local_tenant_id : Text
  pub local_roles : List Text

-- Config; durations are in nanoseconds.
pub record AuthConfig : Type 0 where
  pub cfg_issuer : Text
  pub cfg_secret : Text
  pub cfg_ttl : ℤ
  pub cfg_users : List LocalUser

-- What bcrypt.CompareHashAndPassword answers; `malformed` is any error but a mismatch.
pub data Compared : Type 0 where
  matches mismatched malformed : Compared

pub record Bcrypt : Type 0 where
  pub compare : Text → Text → Compared
  pub has_cost : Text → Bool

pub record Service : Type 0 where
  pub issuer : Text
  pub secret : Text
  pub access_token_ttl : ℕ
  pub users : List (Text × LocalUser)

-- The claims of a token. The three times are NumericDates, in whole seconds.
pub record Claims : Type 0 where
  pub claim_tenant : Text
  pub claim_username : Text
  pub claim_roles : List Text
  pub claim_issuer : Text
  pub subject : Text
  pub token_id : Text
  pub issued_at : ℕ
  pub not_before : ℕ
  pub expires_at : ℕ

-- What jwt.ParseWithClaims answers: an error, which is ErrTokenExpired or another one, or claims.
pub data Parsed : Type 0 where
  expired unreadable : Parsed
  valid : Claims → Parsed

-- Signing with HS256, and parsing with the same secret and issuer at a time in seconds.
pub record Jwt : Type 0 where
  pub sign : Text → Claims → Option Text
  pub parse : Text → Text → ℕ → Text → Parsed

-- len of a Go string: the bytes of its UTF-8 encoding.
unfoldable pub byte_length : Text → ℕ
byte_length [] = 0
byte_length (c ∷ s) =
    (if ltb c 128 then 1 else if ltb c 2048 then 2 else if ltb c 65536 then 3 else 4)
    + byte_length s

-- The test of a password hash against the sentinel password.
unfoldable pub check_hash : Bcrypt → Text → Result AuthError (Unit {0})
check_hash b hash = elim (b.compare hash (codes "validation-only")) [
  | matches ↦ ok tt
  | mismatched ↦ guard (b.has_cost hash) invalid_password_hash
  | malformed ↦ err invalid_password_hash
]

-- One user of NewService.
unfoldable pub add_user :
    Bcrypt → List (Text × LocalUser) → LocalUser → Result AuthError (List (Text × LocalUser))
add_user b users user = do
  guard
      (not (
        is_empty (trim_space user.login_name)
        || is_empty user.local_user_id
        || is_empty user.local_tenant_id))
      user_incomplete
  elim (get user.login_name users) [
    | some other ↦ err duplicate_user
    | none ↦ (do check_hash b user.password_hash; ok (put user.login_name user users))
  ]

unfoldable pub add_users :
    Bcrypt → List (Text × LocalUser) → List LocalUser → Result AuthError (List (Text × LocalUser))
add_users b users [] = ok users
add_users b users (user ∷ rest) = do users' ← add_user b users user; add_users b users' rest

-- A Duration that is positive, as a number.
abbrev pub positive : ℤ → Option ℕ
positive (pos n) = if n == 0 then none else some n
positive (negsuc n) = none

-- NewService
unfoldable pub new_service : Bcrypt → AuthConfig → Result AuthError Service
new_service b cfg = do
  guard (not (is_empty (trim_space cfg.cfg_issuer))) issuer_required
  guard (not (ltb (byte_length cfg.cfg_secret) 32)) secret_too_short
  ttl ← require (positive cfg.cfg_ttl) ttl_not_positive
  users ← add_users b [] cfg.cfg_users
  ok (record {
    issuer = cfg.cfg_issuer;
    secret = cfg.cfg_secret;
    access_token_ttl = ttl;
    users = users;
  })

-- jwt.NewNumericDate cuts a time, here in nanoseconds, to whole seconds.
abbrev pub seconds : ℕ → ℕ
seconds ns = ns / 1_000_000_000

-- The claims that Service.issue signs.
unfoldable pub claims_for : Service → Principal → Text → ℕ → Claims
claims_for s p jti now = record {
  claim_tenant = p.tenant_id;
  claim_username = p.username;
  claim_roles = p.roles;
  claim_issuer = s.issuer;
  subject = p.user_id;
  token_id = jti;
  issued_at = seconds now;
  not_before = seconds now;
  expires_at = seconds (now + s.access_token_ttl);
}

-- Service.issue; `random` is what randomID answers.
unfoldable pub issue : Jwt → Service → Principal → Option Text → ℕ → Result AuthError Text
issue jwt s p random now = do
  jti ← require random no_randomness
  require (jwt.sign s.secret (claims_for s p jti now)) signing_failed

-- Whether one of the three identifiers is empty.
unfoldable pub is_incomplete : Text → Text → Text → Bool
is_incomplete user tenant name = is_empty user || is_empty tenant || is_empty name

-- Service.Issue
unfoldable pub issue_token : Jwt → Service → Principal → Option Text → ℕ → Result AuthError Text
issue_token jwt s p random now = do
  guard (not (is_incomplete p.user_id p.tenant_id p.username)) principal_incomplete
  issue jwt s p random now

abbrev pub is_match : Compared → Bool
is_match matches = true
is_match mismatched = false
is_match malformed = false

abbrev pub principal_of : LocalUser → Principal
principal_of user = record {
  user_id = user.local_user_id;
  tenant_id = user.local_tenant_id;
  username = user.login_name;
  roles = user.local_roles;
}

-- Service.Login
unfoldable pub login :
    Bcrypt → Jwt → Service → Text → Text → Option Text → ℕ → Result AuthError (Principal × Text)
login b jwt s username password random now = do
  user ← require (get username s.users) invalid_credentials
  guard (is_match (b.compare user.password_hash password)) invalid_credentials
  token ← issue jwt s (principal_of user) random now
  ok (principal_of user, token)

-- Service.Validate
unfoldable pub validate_token : Jwt → Service → ℕ → Text → Result AuthError Principal
validate_token jwt s now raw = do
  let token = trim_space raw
  guard (not (is_empty token)) invalid_token
  elim (jwt.parse s.secret s.issuer now token) [
    | expired ↦ err token_expired
    | unreadable ↦ err invalid_token
    | valid c ↦ (do
      guard (not (is_incomplete c.subject c.claim_tenant c.claim_username)) invalid_token
      ok (record {
        user_id = c.subject;
        tenant_id = c.claim_tenant;
        username = c.claim_username;
        roles = c.claim_roles;
      }))
  ]
