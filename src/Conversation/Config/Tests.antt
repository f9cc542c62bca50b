-- ===== src/Conversation/Config/Tests.antt =====
-- Settings as in config.example.yaml, and a Redis server that does not answer.
use on_call_agent.Base.{
  ◌+◌, ◌≡◌, refl, true, false, [], ◌∷◌, List, some, pos, Text, codes, nat_eq, list_eq, trim_space,
}
use on_call_agent.Base.Map.{get}
use on_call_agent.Conversation.Config.{
  Parsers, StoreConfig, Servers, memory, postgres, setting, parse_store_config, parse_max_messages,
  parse_cache_ttl, atoi, open_resources, open_postgres, open_sql_resources, open_redis_resources,
}
use on_call_agent.Conversation.Config.Valid.{
  IsUsable, opened, closed, parse_store_config-IsUsable, open_resources-balanced,
}

abbrev std : Parsers
std = record { to_lower = λ t. t; parse_duration = λ t. some (pos 7) }

abbrev settings : List (Text × Text)
settings = (codes "max_messages", codes " 9 ") ∷ (codes "redis_url", codes "redis://h") ∷ []

abbrev parsed : StoreConfig
parsed = record {
  backend = memory;
  dsn = [];
  max_messages = 8;
  redis_url = codes "redis://h";
  cache_ttl = 300_000_000_000;
}

parse_store_config-IsUsable_example : IsUsable parsed
unfolding parse_store_config setting get trim_space parse_max_messages parse_cache_ttl atoi
parse_store_config-IsUsable_example = parse_store_config-IsUsable std settings parsed refl

abbrev deaf : Servers
deaf = record {
  open_database = true;
  ping_database = true;
  new_store = true;
  parse_url = true;
  ping_redis = false;
  new_cache = true;
  new_locker = true;
}

open_resources-balanced_example :
    (opened (open_resources deaf (record parsed { backend = postgres })).0).0
    ≡ (closed (open_resources deaf (record parsed { backend = postgres })).0).0 + 0
unfolding open_resources open_postgres open_sql_resources open_redis_resources
open_resources-balanced_example =
    (open_resources-balanced deaf (record parsed { backend = postgres })).0
