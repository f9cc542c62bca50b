-- ===== src/Auth/Settings/Accepted.antt =====
-- NewService accepts what LoadConfig returns.
use on_call_agent.Base.{
  ◌≡◌, refl, ap, ◌∙◌, Bool, true, false, ◌&&◌, [], ◌∷◌, ◌++◌, Option, ℤ, arith, ltb, Text, codes,
  is_empty, is_space, trim_left, trim_space, ok, nat_eq, list_eq, Option-cases, Result-cases, inl,
  inr,
}
use mathlib.Core.List.{reverse_aux}
use on_call_agent.Base.Map.{get, put}
use on_call_agent.Auth.Service.{
  AuthConfig, Bcrypt, LocalUser, Service, add_user, add_users, byte_length, check_hash, new_service,
  positive,
}
use on_call_agent.Auth.Settings.{is_none, load_config, local_user, or_default, parse_ttl}

abbrev all_space : Text → Bool
all_space [] = true
all_space (c ∷ s) = is_space c && all_space s

nonblank : (s : Text) → all_space s ≡ false → is_empty s ≡ false
nonblank [] h = h
nonblank (c ∷ s) h = refl

is_empty-trim_left : (s : Text) → is_empty (trim_left s) ≡ all_space s
unfolding trim_left
is_empty-trim_left [] = refl
is_empty-trim_left (c ∷ s) = ground (arith, is_empty-trim_left s)

all_space-trim_left : (s : Text) → all_space (trim_left s) ≡ all_space s
unfolding trim_left
all_space-trim_left [] = refl
all_space-trim_left (c ∷ s) = ground (arith, all_space-trim_left s)

all_space-append : (s t : Text) → all_space (s ++ t) ≡ (all_space s && all_space t)
all_space-append [] t = refl
all_space-append (c ∷ s) t = ground (arith, all_space-append s t)

all_space-reverse_aux : (s t : Text) → all_space (reverse_aux s t) ≡ (all_space s && all_space t)
all_space-reverse_aux [] t = refl
all_space-reverse_aux (c ∷ s) t = ground (arith, all_space-reverse_aux s (c ∷ t))

is_empty-reverse_aux : (s t : Text) → is_empty (reverse_aux s t) ≡ (is_empty s && is_empty t)
is_empty-reverse_aux [] t = refl
is_empty-reverse_aux (c ∷ s) t = ground (arith, is_empty-reverse_aux s (c ∷ t))

-- A text trims to nothing only if it is all white space.
is_empty-trim_space : (s : Text) → is_empty (trim_space s) ≡ all_space s
unfolding trim_space
is_empty-trim_space s = ground (
  arith,
  is_empty-trim_left (reverse_aux (trim_left s) []),
  is_empty-reverse_aux (trim_left (reverse_aux (trim_left s) [])) [],
  all_space-reverse_aux (trim_left s) [],
  all_space-trim_left s,
)

all_space-trim_space : (s : Text) → all_space (trim_space s) ≡ all_space s
unfolding trim_space
all_space-trim_space s = ground (
  arith,
  all_space-reverse_aux (trim_left (reverse_aux (trim_left s) [])) [],
  all_space-trim_left (reverse_aux (trim_left s) []),
  all_space-reverse_aux (trim_left s) [],
  all_space-trim_left s,
)

-- A trimmed text, or a default that is not blank, is not blank.
trim_space-or_default :
    (s default : Text)
    → all_space default ≡ false
    → (is_empty (trim_space (or_default (trim_space s) default)) ≡ false)
      × (is_empty (or_default (trim_space s) default) ≡ false)
trim_space-or_default s default h =
    or_default_of (trim_space s) (is_empty-trim_space s) (all_space-trim_space s)
  where
    or_default_of :
        (t : Text)
        → is_empty t ≡ all_space s
        → all_space t ≡ all_space s
        → (is_empty (trim_space (or_default t default)) ≡ false)
          × (is_empty (or_default t default) ≡ false)
    or_default_of [] p q = (is_empty-trim_space default ∙ h, nonblank default h)
    or_default_of (c ∷ t) p q = (ground (arith, p, q, is_empty-trim_space (c ∷ t)), refl)

parse_ttl-positive :
    (parse_duration : Text → Option ℤ) (raw : Text) (ttl : ℤ)
    → parse_ttl parse_duration raw ≡ ok ttl
    → is_none (positive ttl) ≡ false
unfolding parse_ttl
parse_ttl-positive parse_duration raw ttl h = ground arith

-- A service for one user that is named and well formed.
single_user :
    (b : Bcrypt) (cfg : AuthConfig) (user : LocalUser)
    → cfg.cfg_users ≡ user ∷ []
    → is_empty (trim_space cfg.cfg_issuer) ≡ false
    → ltb (byte_length cfg.cfg_secret) 32 ≡ false
    → is_none (positive cfg.cfg_ttl) ≡ false
    → check_hash b user.password_hash ≡ ok tt
    → is_empty (trim_space user.login_name) ≡ false
    → is_empty user.local_user_id ≡ false
    → is_empty user.local_tenant_id ≡ false
    → (s : Service) × (new_service b cfg ≡ ok s)
      × (s.secret ≡ cfg.cfg_secret)
      × (s.users ≡ (user.login_name, user) ∷ [])
unfolding new_service add_users add_user put get
single_user b cfg user one issuer long lives hash named identified placed =
    elim (Option-cases (positive cfg.cfg_ttl)) [
      | inl q ↦ absurd (ground (arith, q))
      | inr (ttl, q) ↦ (
        record {
          issuer = cfg.cfg_issuer;
          secret = cfg.cfg_secret;
          access_token_ttl = ttl;
          users = (user.login_name, user) ∷ [];
        },
        ground (arith, q),
        refl,
        refl,
      )
    ]

load_config_lem :
    (parse_duration : Text → Option ℤ) (getenv : Text → Text) (cfg : AuthConfig)
    → load_config parse_duration getenv ≡ ok cfg
    → (cfg.cfg_users ≡ local_user getenv ∷ [])
      × (cfg.cfg_issuer ≡ codes "superbizagent-local")
      × (is_none (positive cfg.cfg_ttl) ≡ false)
unfolding load_config
load_config_lem parse_duration getenv cfg h =
    elim (Result-cases
      (parse_ttl parse_duration (trim_space (getenv (codes "SUPERBIZ_JWT_TTL"))))) [
        | inr (e, q) ↦ absurd (ground (arith, q))
        | inl (ttl, q) ↦
            let positive_ttl = parse_ttl-positive parse_duration _ ttl q in
            (ground (arith, q), ground (arith, q), ground (arith, q, positive_ttl))
      ]

-- What LoadConfig returns is accepted by NewService if the secret has at least 32 bytes and bcrypt
-- can read the password hash; the service then has that secret, and the one user of the settings.
pub load_config-new_service :
    (b : Bcrypt) (parse_duration : Text → Option ℤ) (getenv : Text → Text) (cfg : AuthConfig)
    → load_config parse_duration getenv ≡ ok cfg
    → ltb (byte_length cfg.cfg_secret) 32 ≡ false
    → check_hash b (trim_space (getenv (codes "SUPERBIZ_AUTH_PASSWORD_HASH"))) ≡ ok tt
    → (s : Service) × (new_service b cfg ≡ ok s)
      × (s.secret ≡ cfg.cfg_secret)
      × (s.users ≡ ((local_user getenv).login_name, local_user getenv) ∷ [])
unfolding local_user is_space trim_space
load_config-new_service b parse_duration getenv cfg h long hash =
    let (one, issuer, lives) = load_config_lem parse_duration getenv cfg h in
    let (named, _) =
      trim_space-or_default (getenv (codes "SUPERBIZ_AUTH_USERNAME")) (codes "admin") refl in
    let (_, identified) =
      trim_space-or_default (getenv (codes "SUPERBIZ_AUTH_USER_ID")) (codes "local-admin") refl in
    let (_, placed) =
      trim_space-or_default (getenv (codes "SUPERBIZ_AUTH_TENANT_ID")) (codes "local-tenant")
        refl in
    single_user b cfg (local_user getenv) one (ap (λ t. is_empty (trim_space t)) issuer ∙ refl) long
      lives hash named identified placed
