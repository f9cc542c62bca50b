-- ===== src/Conversation/Registry/Bounds.antt =====
-- The registry never holds more sessions than its limit, and what its methods do to each session.
use on_call_agent.Base.{
  ℕ, ◌≤◌, ◌≡◌, refl, ◌≢◌, inl, inr, false, List, [], ◌∷◌, Option, none, some, arith, length, ok,
  nat_eq, Result-cases,
}
use on_call_agent.Base.Map.{get, delete, get-put, get-delete, length-put-le, length-delete-le}
use on_call_agent.Conversation.Key.{SessionKey, session_key_eq, key_beq_iff, validate}
use on_call_agent.Conversation.Registry.{
  Registry, Made, deref, stop, add_session, create, find_or_create, get_or_create, remove,
  stop_each, stop_all, idle_sessions, busy_sessions, evict_idle,
}

-- The calls that change the registry.
pub data Call : Type 0 where
  gets : SessionKey → Option Made → ℕ → Call
  removes : SessionKey → Call
  stops : Call
  evicts : ℕ → Call

unfoldable pub step : Registry → Call → Registry
step r (gets key factory now) = (get_or_create r key factory now).0
step r (removes key) = remove r key
step r stops = stop_all r
step r (evicts now) = evict_idle r now

unfoldable pub run : Registry → List Call → Registry
run r [] = r
run r (c ∷ cs) = run (step r c) cs

pub stop_each_lem :
    (r : Registry) (xs : List (SessionKey × ℕ))
    → ((stop_each r xs).sessions ≡ r.sessions) × ((stop_each r xs).max_sessions ≡ r.max_sessions)
unfolding stop_each stop
stop_each_lem r [] = (refl, refl)
stop_each_lem r ((key, address) ∷ rest) = ground (arith, stop_each_lem (stop r address) rest)

create-bounded :
    (r : Registry) (key : SessionKey) (made : Made) (now : ℕ)
    → length r.sessions ≤ r.max_sessions
    → (length (create r key made now).0.sessions ≤ r.max_sessions)
      × ((create r key made now).0.max_sessions ≡ r.max_sessions)
unfolding create add_session
create-bounded r key made now h = ground (arith, length-put-le key r.next_address r.sessions)

find_or_create-bounded :
    (r : Registry) (key : SessionKey) (made : Made) (now : ℕ)
    → length r.sessions ≤ r.max_sessions
    → (length (find_or_create r key made now).0.sessions ≤ r.max_sessions)
      × ((find_or_create r key made now).0.max_sessions ≡ r.max_sessions)
unfolding find_or_create
find_or_create-bounded r key made now h = ground (
  arith,
  create-bounded r key made now h,
  create-bounded (record r { sessions = delete key r.sessions }) key made now,
  length-delete-le key r.sessions,
)

length-busy_sessions-le :
    (r : Registry) (now : ℕ) (xs : List (SessionKey × ℕ))
    → length (busy_sessions r now xs) ≤ length xs
unfolding busy_sessions
length-busy_sessions-le r now [] = omega arith
length-busy_sessions-le r now ((key, address) ∷ rest) =
    ground (arith, length-busy_sessions-le r now rest)

step-bounded :
    (r : Registry) (c : Call)
    → length r.sessions ≤ r.max_sessions
    → (length (step r c).sessions ≤ r.max_sessions) × ((step r c).max_sessions ≡ r.max_sessions)
unfolding step get_or_create remove stop stop_all evict_idle
step-bounded r (gets key none now) h = ground arith
step-bounded r (gets key (some made) now) h =
    ground (arith, find_or_create-bounded r key made now h)
step-bounded r (removes key) h = ground (arith, length-delete-le key r.sessions)
step-bounded r stops h = ground (arith, stop_each_lem (record r { sessions = [] }) r.sessions)
step-bounded r (evicts now) h = ground (
  arith,
  stop_each_lem (record r { sessions = busy_sessions r now r.sessions })
      (idle_sessions r now r.sessions),
  length-busy_sessions-le r now r.sessions,
)

-- Whatever calls are made on a registry within its limit, it stays within that limit.
pub run-bounded :
    (r : Registry) (cs : List Call)
    → length r.sessions ≤ r.max_sessions
    → length (run r cs).sessions ≤ r.max_sessions
unfolding run
run-bounded r [] h = h
run-bounded r (c ∷ cs) h =
    let (fits, same) = step-bounded r c h in omega (arith, run-bounded (step r c) cs (omega arith))

create-live :
    (r : Registry) (key : SessionKey) (made : Made) (now address : ℕ) (j : SessionKey)
    → (create r key made now).1 ≡ ok address
    → (get key (create r key made now).0.sessions ≡ some address)
      × ((deref (create r key made now).0 address).stopped ≡ false)
      × (key ≢ j → get j (create r key made now).0.sessions ≡ get j r.sessions)
unfolding create add_session deref
create-live r key made now address j h = ground (
  arith,
  get-put key key r.next_address r.sessions,
  get-put key j r.next_address r.sessions,
  get-put r.next_address r.next_address (record { stopped = false; active = 0; last_used = now })
      r.heap,
  key_beq_iff key key,
  key_beq_iff key j,
)

find_or_create-live :
    (r : Registry) (key : SessionKey) (made : Made) (now address : ℕ) (j : SessionKey)
    → (find_or_create r key made now).1 ≡ ok address
    → (get key (find_or_create r key made now).0.sessions ≡ some address)
      × ((deref (find_or_create r key made now).0 address).stopped ≡ false)
      × (key ≢ j → get j (find_or_create r key made now).0.sessions ≡ get j r.sessions)
      × ((old : ℕ) → get key r.sessions ≡ some old → (deref r old).stopped ≡ false → address ≡ old)
unfolding find_or_create
find_or_create-live r key made now address j h = (
  ground (arith, create-live r key made now address j, create-live r' key made now address j),
  ground (arith, create-live r key made now address j, create-live r' key made now address j),
  λ other. ground (
    arith,
    create-live r key made now address j,
    create-live r' key made now address j,
    get-delete key j r.sessions,
    key_beq_iff key j,
  ),
  λ old found live. ground arith,
)
  where
    r' : Registry
    r' = record r { sessions = delete key r.sessions }

-- A session that GetOrCreate returns is registered under the key and not stopped; it is the one that
-- was registered there, if that was not stopped; and no other key is touched.
get_or_create-live :
    (r : Registry) (key : SessionKey) (factory : Option Made) (now address : ℕ) (j : SessionKey)
    → (get_or_create r key factory now).1 ≡ ok address
    → let r' = (get_or_create r key factory now).0 in
      (get key r'.sessions ≡ some address)
      × ((deref r' address).stopped ≡ false)
      × (key ≢ j → get j r'.sessions ≡ get j r.sessions)
      × ((old : ℕ) → get key r.sessions ≡ some old → (deref r old).stopped ≡ false → address ≡ old)
unfolding get_or_create
get_or_create-live r key none now address j h = absurd (ground arith)
get_or_create-live r key (some made) now address j h = elim (Result-cases (validate key)) [
  | inr (x, e) ↦ absurd (ground (arith, e))
  | inl (t, e) ↦
      rw (e, get_or_create) (find_or_create-live r key made now address j (ground (arith, e)))
]
