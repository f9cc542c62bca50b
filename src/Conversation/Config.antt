-- ===== src/Conversation/Config.antt =====
-- internal/conversation/config.go and postgres.go: which store the settings select, and opening it.
-- Lower case and time.ParseDuration are parameters; so is what the servers answer.
mod Valid
mod Tests
use on_call_agent.Base.{
  ℕ, ◌+◌, ◌-◌, ◌*◌, ◌^◌, Bool, true, false, not, ◌||◌, ◌&&◌, List, [], ◌∷◌, ◌++◌, Option, none,
  some, ℤ, pos, negsuc, if◌then◌else◌, ltb, leb, ◌==◌, ◌=?◌, Text, codes, is_empty, trim_space,
  Result, ok, err, ◌>>=◌, ◌>>◌, guard, require, nat_eq, list_eq,
}
use on_call_agent.Base.Map.{get}
use on_call_agent.Conversation.Memory.{even_below}

pub data ConfigError : Type 0 where
  unknown_backend dsn_required invalid_max_messages invalid_cache_ttl : ConfigError
  database_unavailable store_failed redis_url_invalid redis_unavailable cache_failed : ConfigError
  locker_failed : ConfigError

-- Durations are in nanoseconds.
pub record StoreConfig : Type 0 where
  pub backend : Text
  pub dsn : Text
  pub max_messages : ℕ
  pub redis_url : Text
  pub cache_ttl : ℕ

pub record Parsers : Type 0 where
  pub to_lower : Text → Text
  pub parse_duration : Text → Option ℤ

abbrev pub memory : Text
memory = codes "memory"

abbrev pub postgres : Text
postgres = codes "postgres"

-- strconv.Atoi: a sign, decimal digits, and the range of an int64.
unfoldable pub digits : ℕ → Text → Option ℕ
digits n [] = some n
digits n (c ∷ s) =
    let rest = digits (10 * n + (c - b'0')) s in if leb b'0' c && leb c b'9' then rest else none

unfoldable pub magnitude : Text → Option ℕ
unfolding digits
magnitude s = if is_empty s then none else digits 0 s

unfoldable pub in_range : ℕ → Option ℕ → Option ℕ
in_range limit none = none
in_range limit (some n) = if ltb n limit then some n else none

abbrev pub negated : ℕ → ℤ
negated n = if n == 0 then pos 0 else negsuc (n - 1)

abbrev pub option_map {ℓ κ} : {A : Type ℓ} {B : Type κ} → (A → B) → Option A → Option B
option_map f none = none
option_map f (some a) = some (f a)

unfoldable pub atoi : Text → Option ℤ
unfolding magnitude in_range
atoi [] = none
atoi (c ∷ s) =
    if c == b'-'
    then option_map negated (in_range (2 ^ 63 + 1) (magnitude s))
    else if c == b'+'
    then option_map pos (in_range (2 ^ 63) (magnitude s))
    else option_map pos (in_range (2 ^ 63) (magnitude (c ∷ s)))

-- `strings.TrimSpace(values[name])`, where a missing entry reads as the empty text.
unfoldable pub setting : List (Text × Text) → Text → Text
setting values name = elim (get name values) [ some v ↦ trim_space v | none ↦ [] ]

unfoldable pub parse_max_messages : Text → Result ConfigError ℕ
parse_max_messages raw = if is_empty raw then ok 20 else elim (atoi raw) [
  | none ↦ err invalid_max_messages
  | some n ↦ elim n [
    | pos n ↦ if ltb n 2 then err invalid_max_messages else ok n
    | negsuc n ↦ err invalid_max_messages
  ]
]

unfoldable pub parse_cache_ttl : Parsers → Text → Result ConfigError ℕ
parse_cache_ttl std raw =
    if is_empty raw then ok 300_000_000_000 else elim (std.parse_duration raw) [
      | none ↦ err invalid_cache_ttl
      | some d ↦ elim d [
        | pos n ↦ if n == 0 then err invalid_cache_ttl else ok n
        | negsuc n ↦ err invalid_cache_ttl
      ]
    ]

-- ParseStoreConfig
unfoldable pub parse_store_config : Parsers → List (Text × Text) → Result ConfigError StoreConfig
parse_store_config std values = do
  let chosen = setting values (codes "backend")
  let backend = if is_empty chosen then memory else std.to_lower chosen
  guard (backend =? memory || backend =? postgres) unknown_backend
  let dsn = setting values (codes "dsn")
  guard (not (backend =? postgres && is_empty dsn)) dsn_required
  max ← parse_max_messages (setting values (codes "max_messages"))
  ttl ← parse_cache_ttl std (setting values (codes "cache_ttl"))
  ok (record {
    backend = backend;
    dsn = dsn;
    max_messages = even_below max;
    redis_url = setting values (codes "redis_url");
    cache_ttl = ttl;
  })

-- What the servers and constructors answer; `true` is success.
pub record Servers : Type 0 where
  pub open_database : Bool
  pub ping_database : Bool
  pub new_store : Bool
  pub parse_url : Bool
  pub ping_redis : Bool
  pub new_cache : Bool
  pub new_locker : Bool

-- The connections that a call opens and closes, in order.
pub data Action : Type 0 where
  open_db close_db open_redis close_redis : Action

pub data Resources : Type 0 where
  memory_store sql_store cached_store : Resources

-- openPostgres: sql.Open, then Ping.
unfoldable pub open_postgres : Servers → List Action × Result ConfigError (Unit {0})
open_postgres s =
    if not s.open_database
    then ([], err database_unavailable)
    else if not s.ping_database
    then (open_db ∷ close_db ∷ [], err database_unavailable)
    else (open_db ∷ [], ok tt)

abbrev pub failed : List Action → ConfigError → List Action × Result ConfigError Resources
failed actions e = (actions, err e)

-- OpenConfiguredStoreResources once the database is open and a Redis URL is set.
unfoldable pub open_redis_resources : Servers → List Action × Result ConfigError Resources
open_redis_resources s =
    if not s.parse_url
    then failed (close_db ∷ []) redis_url_invalid
    else if not s.ping_redis
    then failed (open_redis ∷ close_redis ∷ close_db ∷ []) redis_unavailable
    else if not s.new_cache
    then failed (open_redis ∷ close_redis ∷ close_db ∷ []) cache_failed
    else if not s.new_locker
    then failed (open_redis ∷ close_redis ∷ close_db ∷ []) locker_failed
    else (open_redis ∷ [], ok cached_store)

-- OpenConfiguredStoreResources after openPostgres.
unfoldable pub open_sql_resources :
    Servers → StoreConfig → List Action × Result ConfigError Resources
open_sql_resources s cfg =
    if not s.new_store
    then failed (close_db ∷ []) store_failed
    else if is_empty cfg.redis_url
    then ([], ok sql_store)
    else open_redis_resources s

-- OpenConfiguredStoreResources
unfoldable pub open_resources : Servers → StoreConfig → List Action × Result ConfigError Resources
open_resources s cfg =
    if cfg.backend =? memory
    then ([], ok memory_store)
    else if not (cfg.backend =? postgres)
    then failed [] unknown_backend
    else (let (opened, r) = open_postgres s in
        let (rest, made) = open_sql_resources s cfg in
        elim r [ err e ↦ failed opened e | ok _ ↦ (opened ++ rest, made) ])
