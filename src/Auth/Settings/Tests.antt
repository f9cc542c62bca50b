-- ===== src/Auth/Settings/Tests.antt =====
-- An environment and the roles in it.
use on_call_agent.Base.{
  ◌≡◌, refl, [], ◌∷◌, none, codes, ok, nat_eq, list_eq, Text, if◌then◌else◌, ◌=?◌, trim_space,
  split, Option, ℤ, pos,
}
use on_call_agent.Auth.Service.{Service, AuthConfig, new_service, byte_length, check_hash}
use on_call_agent.Auth.Service.Tests.{bcrypt}
use on_call_agent.Auth.Settings.{split_roles, load_config, local_user, parse_ttl, roles_from}
use on_call_agent.Auth.Settings.Accepted.{load_config-new_service}

two_roles : split_roles (codes " admin,operator,, admin") ≡ codes "admin" ∷ codes "operator" ∷ []
unfolding split_roles roles_from split trim_space
two_roles = refl

abbrev getenv : Text → Text
getenv name =
    if name =? codes "SUPERBIZ_JWT_SECRET"
    then codes "0123456789abcdef0123456789abcdef "
    else if name =? codes "SUPERBIZ_AUTH_PASSWORD_HASH"
    then codes "hash"
    else []

abbrev no_duration : Text → Option ℤ
no_duration raw = none

abbrev config : AuthConfig
config = record {
  cfg_issuer = codes "superbizagent-local";
  cfg_secret = codes "0123456789abcdef0123456789abcdef";
  cfg_ttl = pos 3_600_000_000_000;
  cfg_users = local_user getenv ∷ [];
}

load_config-new_service_example :
    (s : Service) × (new_service bcrypt config ≡ ok s)
    × (s.secret ≡ codes "0123456789abcdef0123456789abcdef")
    × (s.users ≡ ((local_user getenv).login_name, local_user getenv) ∷ [])
unfolding load_config byte_length check_hash trim_space parse_ttl
load_config-new_service_example =
    load_config-new_service bcrypt no_duration getenv config refl refl refl
