-- ===== src/Auth/Service/Tests.antt =====
-- A service with one user, and a signer that knows one token.
use on_call_agent.Base.{
  ◌≡◌, refl, Bool, true, false, ◌&&◌, [], ◌∷◌, none, some, pos, arith, if◌then◌else◌, ltb, ◌=?◌,
  Text, codes, ok, nat_eq, list_eq, trim_space, is_space, trim_left, =?_iff, sym, ap, ◌∙◌, is_empty,
}
use on_call_agent.Base.Map.{get, put}
use on_call_agent.Auth.Service.{
  AuthConfig, Bcrypt, Claims, Jwt, LocalUser, Service, claims_for, expired, issue, is_incomplete,
  login, new_service, principal_of, unreadable, valid, validate_token, matches, mismatched,
  add_user, add_users, check_hash, byte_length,
}
use on_call_agent.Auth.Service.Users.{find_user, login-authenticates}
use on_call_agent.Auth.Service.Tokens.{IsHs256, validate_token-login}

abbrev pub alice : LocalUser
alice = record {
  login_name = codes "alice";
  password_hash = codes "hash";
  local_user_id = codes "user-alice";
  local_tenant_id = codes "tenant-acme";
  local_roles = codes "operator" ∷ [];
}

abbrev pub settings : AuthConfig
settings = record {
  cfg_issuer = codes "local";
  cfg_secret = codes "0123456789abcdef0123456789abcdef";
  cfg_ttl = pos 3_600_000_000_000;
  cfg_users = alice ∷ [];
}

abbrev pub bcrypt : Bcrypt
bcrypt = record {
  compare = λ hash password. if password =? codes "pw" then matches else mismatched;
  has_cost = λ hash. true;
}

abbrev pub service : Service
service = record {
  issuer = codes "local";
  secret = codes "0123456789abcdef0123456789abcdef";
  access_token_ttl = 3_600_000_000_000;
  users = (codes "alice", alice) ∷ [];
}

abbrev pub sample : Claims
sample = claims_for service (principal_of alice) (codes "id") 5_000_000_000

abbrev pub same_claims : Claims → Bool
same_claims c =
    c.claim_tenant =? sample.claim_tenant
    && c.claim_username =? sample.claim_username
    && c.claim_roles =? sample.claim_roles
    && c.claim_issuer =? sample.claim_issuer
    && c.subject =? sample.subject
    && c.token_id =? sample.token_id
    && c.issued_at =? sample.issued_at
    && c.not_before =? sample.not_before
    && c.expires_at =? sample.expires_at

abbrev pub one_token : Jwt
one_token = record {
  sign = λ secret c. if same_claims c then some (codes "tok") else none;
  parse = λ secret issuer at token.
      if token =? codes "tok"
      then (if ltb at sample.expires_at then valid sample else expired)
      else unreadable;
}

same_claims_lem : (c : Claims) → same_claims c ≡ true → c ≡ sample
same_claims_lem c h = ground (
  arith,
  =?_iff c.claim_tenant sample.claim_tenant,
  =?_iff c.claim_username sample.claim_username,
  =?_iff c.claim_roles sample.claim_roles,
  =?_iff c.claim_issuer sample.claim_issuer,
  =?_iff c.subject sample.subject,
  =?_iff c.token_id sample.token_id,
  =?_iff c.issued_at sample.issued_at,
  =?_iff c.not_before sample.not_before,
  =?_iff c.expires_at sample.expires_at,
)

some_token :
    (c : Claims) (token : Text)
    → (if same_claims c then some (codes "tok") else none) ≡ some token
    → (c ≡ sample) × (token ≡ codes "tok")
some_token c token h = (same_claims_lem c (ground arith), ground arith)

pub one_token-IsHs256 : IsHs256 one_token
unfolding trim_space trim_left is_space
one_token-IsHs256 = record {
  sign-compact = λ secret token c h.
      let (_, e) = some_token c token h in (ap trim_space e ∙ sym e, ap is_empty e);
  parse-live = λ secret token c at h from until.
      let (same, e) = some_token c token h in ground (arith, e, same, ap (λ k. k.expires_at) same);
  parse-expired = λ secret token c at h from over.
      let (same, e) = some_token c token h in ground (arith, e, same, ap (λ k. k.expires_at) same);
}

login-authenticates_example :
    (user : LocalUser) × (find_user (codes "alice") (alice ∷ []) ≡ some user)
    × (bcrypt.compare user.password_hash (codes "pw") ≡ matches)
    × (principal_of alice ≡ principal_of user)
    × ((principal_of alice).username ≡ codes "alice")
    × (is_incomplete (codes "user-alice") (codes "tenant-acme") (codes "alice") ≡ false)
unfolding new_service login issue claims_for trim_space byte_length add_users add_user get
    check_hash put
login-authenticates_example =
    login-authenticates bcrypt one_token settings service refl (codes "alice") (codes "pw")
      (some (codes "id")) 5_000_000_000 (principal_of alice) (codes "tok") refl

validate_token-login_example :
    validate_token one_token service 3604 (codes "tok") ≡ ok (principal_of alice)
unfolding new_service login issue claims_for trim_space byte_length add_users add_user get
    check_hash put
validate_token-login_example =
    validate_token-login bcrypt one_token one_token-IsHs256 settings service refl (codes "alice")
      (codes "pw") (some (codes "id")) 5_000_000_000 3604 (principal_of alice) (codes "tok") refl
      (omega arith) (omega arith)
