-- ===== src/Conversation/Config/Valid.antt =====
-- What a configuration that parses is like, and what opening it leaves open.
use on_call_agent.Base.{
  ℕ, suc, ◌+◌, ◌%◌, ◌≤◌, ◌<◌, ◌≡◌, ◌⊎◌, inl, inr, false, List, [], ◌∷◌, arith, Text, codes,
  is_empty, Result, ok, err, nat_eq, list_eq, list_beq_iff, Result-cases,
}
use on_call_agent.Conversation.Config.{
  ConfigError, StoreConfig, Parsers, memory, postgres, setting, parse_max_messages, parse_cache_ttl,
  parse_store_config, Servers, Action, open_db, close_db, open_redis, close_redis, Resources,
  memory_store, sql_store, cached_store, open_postgres, open_redis_resources, open_sql_resources,
  open_resources,
}

pub record IsUsable (cfg : StoreConfig) : Type 0 where
  pub known : (cfg.backend ≡ memory) ⊎ (cfg.backend ≡ postgres)
  pub has_dsn : cfg.backend ≡ postgres → is_empty cfg.dsn ≡ false
  pub room : 2 ≤ cfg.max_messages
  pub paired : cfg.max_messages % 2 ≡ 0
  pub ttl : 0 < cfg.cache_ttl

parse_max_messages-le : (raw : Text) (n : ℕ) → parse_max_messages raw ≡ ok n → 2 ≤ n
unfolding parse_max_messages
parse_max_messages-le raw n h = ground arith

parse_cache_ttl-pos : (std : Parsers) (raw : Text) (n : ℕ) → parse_cache_ttl std raw ≡ ok n → 0 < n
unfolding parse_cache_ttl
parse_cache_ttl-pos std raw n h = ground arith

-- Settings that parse give a configuration that can be used: a known backend, with a data source
-- name if it is PostgreSQL, an even limit of two messages or more, and a positive cache TTL.
pub parse_store_config-IsUsable :
    (std : Parsers) (values : List (Text × Text)) (cfg : StoreConfig)
    → parse_store_config std values ≡ ok cfg
    → IsUsable cfg
unfolding parse_store_config
parse_store_config-IsUsable std values cfg h =
    let raw = setting values (codes "max_messages") in
    let raw_ttl = setting values (codes "cache_ttl") in
    elim (Result-cases (parse_max_messages raw)) [
      | inr (x, e) ↦ absurd (ground (arith, e))
      | inl (n, e) ↦ elim (Result-cases (parse_cache_ttl std raw_ttl)) [
        | inr (x, f) ↦ absurd (ground (arith, e, f))
        | inl (t, f) ↦ ground (
          arith,
          e,
          f,
          parse_max_messages-le raw n e,
          parse_cache_ttl-pos std raw_ttl t f,
          list_beq_iff cfg.backend memory,
          list_beq_iff cfg.backend postgres,
        )
      ]
    ]

-- The connections of each kind that a trace opens, and those that it closes.
abbrev pub opened : List Action → ℕ × ℕ
opened [] = (0, 0)
opened (open_db ∷ acts) = let (d, r) = opened acts in (suc d, r)
opened (open_redis ∷ acts) = let (d, r) = opened acts in (d, suc r)
opened (close_db ∷ acts) = opened acts
opened (close_redis ∷ acts) = opened acts

abbrev pub closed : List Action → ℕ × ℕ
closed [] = (0, 0)
closed (close_db ∷ acts) = let (d, r) = closed acts in (suc d, r)
closed (close_redis ∷ acts) = let (d, r) = closed acts in (d, suc r)
closed (open_db ∷ acts) = closed acts
closed (open_redis ∷ acts) = closed acts

-- The connections that a result hands to its caller.
abbrev pub handed_over : Result ConfigError Resources → ℕ × ℕ
handed_over (err e) = (0, 0)
handed_over (ok memory_store) = (0, 0)
handed_over (ok sql_store) = (1, 0)
handed_over (ok cached_store) = (1, 1)

-- Whatever the servers answer, opening the configured store closes every connection that it opened
-- and does not hand over: on an error all of them, and with a memory store there are none.
pub open_resources-balanced :
    (s : Servers) (cfg : StoreConfig)
    → let (acts, r) = open_resources s cfg in
      ((opened acts).0 ≡ (closed acts).0 + (handed_over r).0)
      × ((opened acts).1 ≡ (closed acts).1 + (handed_over r).1)
unfolding open_resources open_postgres open_sql_resources open_redis_resources
open_resources-balanced s cfg = ground arith
