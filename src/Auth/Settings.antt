-- ===== src/Auth/Settings.antt =====
-- LoadConfig of internal/auth/config.go. The environment is a function (a variable that is not set
-- reads as the empty text); time.ParseDuration is a parameter.
pub mod Roles
pub mod Accepted
mod Tests
use on_call_agent.Base.{
  contains, ◌≡◌, Bool, true, false, not, ◌&&◌, ◌||◌, List, [], ◌∷◌, Option, none, some, ℤ, pos,
  negsuc, arith, if◌then◌else◌, ◌=?◌, Text, codes, is_empty, trim_space, split, Result, ok, err,
  ◌>>=◌, ◌>>◌, guard, require, nat_eq, list_eq, ◌==◌,
}
use on_call_agent.Auth.Service.{AuthConfig, LocalUser, positive}

pub data SettingsError : Type 0 where
  secret_and_hash_required ttl_must_be_positive : SettingsError

-- The loop of splitRoles; `seen` is both the map and the roles so far, the last one first.
unfoldable pub roles_from : List Text → List Text → List Text
roles_from seen [] = []
roles_from seen (part ∷ parts) =
    let role = trim_space part in
    if is_empty role || contains role seen
    then roles_from seen parts
    else role ∷ roles_from (role ∷ seen) parts

-- splitRoles
unfoldable pub split_roles : Text → List Text
split_roles raw = roles_from [] (split b',' raw)

abbrev pub or_default {ℓ} : {A : Type ℓ} → List A → List A → List A
or_default [] default = default
or_default (x ∷ xs) default = x ∷ xs

abbrev pub is_none {ℓ} : {A : Type ℓ} → Option A → Bool
is_none none = true
is_none (some a) = false

-- The time to live, one hour unless it is set.
unfoldable pub parse_ttl : (Text → Option ℤ) → Text → Result SettingsError ℤ
parse_ttl parse_duration raw = if is_empty raw then ok (pos 3_600_000_000_000) else (do
  parsed ← require (parse_duration raw) ttl_must_be_positive
  guard (not (is_none (positive parsed))) ttl_must_be_positive
  ok parsed)

-- The user of the settings.
unfoldable pub local_user : (Text → Text) → LocalUser
local_user getenv = record {
  login_name = or_default (trim_space (getenv (codes "SUPERBIZ_AUTH_USERNAME"))) (codes "admin");
  password_hash = trim_space (getenv (codes "SUPERBIZ_AUTH_PASSWORD_HASH"));
  local_user_id =
      or_default (trim_space (getenv (codes "SUPERBIZ_AUTH_USER_ID"))) (codes "local-admin");
  local_tenant_id =
      or_default (trim_space (getenv (codes "SUPERBIZ_AUTH_TENANT_ID"))) (codes "local-tenant");
  local_roles =
      or_default (split_roles (getenv (codes "SUPERBIZ_AUTH_ROLES"))) (codes "operator" ∷ []);
}

-- LoadConfig
unfoldable pub load_config : (Text → Option ℤ) → (Text → Text) → Result SettingsError AuthConfig
load_config parse_duration getenv = do
  let jwt_secret = trim_space (getenv (codes "SUPERBIZ_JWT_SECRET"))
  let hash = trim_space (getenv (codes "SUPERBIZ_AUTH_PASSWORD_HASH"))
  guard (not (is_empty jwt_secret || is_empty hash)) secret_and_hash_required
  ttl ← parse_ttl parse_duration (trim_space (getenv (codes "SUPERBIZ_JWT_TTL")))
  ok (record {
    cfg_issuer = codes "superbizagent-local";
    cfg_secret = jwt_secret;
    cfg_ttl = ttl;
    cfg_users = local_user getenv ∷ [];
  })
