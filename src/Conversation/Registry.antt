-- ===== src/Conversation/Registry.antt =====
-- TurnLoopRegistry of internal/conversation/turn_loop_registry.go. Callers keep pointers to the
-- sessions, so sessions live in a heap and the registry maps keys to their addresses. A method runs
-- under the registry's lock, as one step.
mod Bounds
mod Idle
mod Tests
use on_call_agent.Base.{
  ℕ, suc, ◌+◌, ◌/◌, ◌≤◌, Bool, true, false, List, [], ◌∷◌, Option, none, some, ℤ, pos, negsuc,
  if◌then◌else◌, ltb, leb, ◌==◌, length, Result, ok, err, nat_eq,
}
use on_call_agent.Base.Map.{get, put, delete}
use on_call_agent.Conversation.Key.{Error, SessionKey, session_key_eq, validate}
use on_call_agent.Conversation.TurnLoop.{Session, is_idle_since}

pub data RegistryError : Type 0 where
  invalid_key : Error → RegistryError
  factory_required registry_full factory_failed agent_required : RegistryError

pub record Registry : Type 0 where
  pub max_sessions : ℕ
  pub sessions : List (SessionKey × ℕ)
  pub idle_ttl : ℕ
  pub heap : List (ℕ × Session)
  pub next_address : ℕ

-- newTurnLoopRegistry; a TTL that is not positive is kept as zero, which disables the janitor.
unfoldable pub new_registry : ℤ → ℤ → Registry
new_registry max_sessions idle_ttl = record {
  max_sessions = elim max_sessions [ pos n ↦ if n == 0 then 128 else n | negsuc n ↦ 128 ];
  sessions = [];
  idle_ttl = elim idle_ttl [ pos n ↦ n | negsuc n ↦ 0 ];
  heap = [];
  next_address = 0;
}

-- A session at an address; the registry stores no others.
unfoldable pub deref : Registry → ℕ → Session
deref r address = elim (get address r.heap) [
  | some s ↦ s
  | none ↦ record { stopped = true; active = 0; last_used = 0 }
]

-- TurnLoopSession.Stop, as far as the registry sees it.
unfoldable pub stop : Registry → ℕ → Registry
unfolding deref
stop r address = record r {
  heap = put address (record (deref r address) { stopped = true }) r.heap;
}

-- What the factory of GetOrCreate answers: an error, a nil agent, or an agent.
pub data Made : Type 0 where
  make_failed nil_agent agent : Made

-- NewTurnLoopSession at a new address.
unfoldable pub add_session : Registry → SessionKey → ℕ → Registry
add_session r key now = record r {
  sessions = put key r.next_address r.sessions;
  heap = put r.next_address (record { stopped = false; active = 0; last_used = now }) r.heap;
  next_address = suc r.next_address;
}

-- GetOrCreate once no live session was found.
unfoldable pub create : Registry → SessionKey → Made → ℕ → Registry × Result RegistryError ℕ
create r key made now =
    if leb r.max_sessions (length r.sessions) then (r, err registry_full) else elim made [
      | make_failed ↦ (r, err factory_failed)
      | nil_agent ↦ (r, err agent_required)
      | agent ↦ (add_session r key now, ok r.next_address)
    ]

-- GetOrCreate under the lock.
unfoldable pub find_or_create : Registry → SessionKey → Made → ℕ → Registry × Result RegistryError ℕ
find_or_create r key made now = elim (get key r.sessions) [
  | none ↦ create r key made now
  | some address ↦
      if (deref r address).stopped
      then create (record r { sessions = delete key r.sessions }) key made now
      else (r, ok address)
]

-- GetOrCreate
unfoldable pub get_or_create :
    Registry → SessionKey → Option Made → ℕ → Registry × Result RegistryError ℕ
get_or_create r key factory now = elim (validate key) [
  | err e ↦ (r, err (invalid_key e))
  | ok _ ↦ elim factory [
    | none ↦ (r, err factory_required)
    | some made ↦ find_or_create r key made now
  ]
]

-- Remove
unfoldable pub remove : Registry → SessionKey → Registry
remove r key = elim (get key r.sessions) [
  | none ↦ r
  | some address ↦ stop (record r { sessions = delete key r.sessions }) address
]

unfoldable pub stop_each : Registry → List (SessionKey × ℕ) → Registry
stop_each r [] = r
stop_each r ((key, address) ∷ rest) = stop_each (stop r address) rest

-- StopAll
unfoldable pub stop_all : Registry → Registry
stop_all r = stop_each (record r { sessions = [] }) r.sessions

-- The two parts into which evictIdle cuts the map.
unfoldable pub is_idle : Registry → ℕ → ℕ → Bool
is_idle r now address = is_idle_since (deref r address) now r.idle_ttl

unfoldable pub idle_sessions : Registry → ℕ → List (SessionKey × ℕ) → List (SessionKey × ℕ)
idle_sessions r now [] = []
idle_sessions r now ((key, address) ∷ rest) =
    let more = idle_sessions r now rest in
    if is_idle r now address then (key, address) ∷ more else more

unfoldable pub busy_sessions : Registry → ℕ → List (SessionKey × ℕ) → List (SessionKey × ℕ)
busy_sessions r now [] = []
busy_sessions r now ((key, address) ∷ rest) =
    let more = busy_sessions r now rest in
    if is_idle r now address then more else (key, address) ∷ more

-- evictIdle
unfoldable pub evict_idle : Registry → ℕ → Registry
evict_idle r now =
    stop_each (record r { sessions = busy_sessions r now r.sessions })
      (idle_sessions r now r.sessions)

-- runJanitor's interval, in nanoseconds.
unfoldable pub janitor_interval : Registry → ℕ
janitor_interval r = if ltb (r.idle_ttl / 2) 1_000_000 then 1_000_000 else r.idle_ttl / 2
