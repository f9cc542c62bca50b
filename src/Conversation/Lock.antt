-- ===== src/Conversation/Lock.antt =====
-- RedisConversationLocker of internal/conversation/lock.go. Redis is a table of tokens that expire;
-- its SET NX and the two Lua scripts are the functions below, each of which Redis runs as one step.
-- Times are in milliseconds of one clock, and the locker's durations in nanoseconds as in Go.
mod Holding
mod Tests
use on_call_agent.Base.{
  ℕ, zero, suc, ◌+◌, ◌/◌, Bool, true, false, List, [], ◌∷◌, Option, none, some, ℤ, pos, negsuc,
  if◌then◌else◌, ltb, ◌==◌, ◌=?◌, Text, Result, ok, err, ◌>>=◌, ◌>>◌, nat_eq, list_eq,
}
use on_call_agent.Base.Map.{get, put, delete}
use on_call_agent.Conversation.Key.{
  Error, SessionKey, validate, redis_lock_key, Context, nil_context, live_context, ended_context,
}

-- A value with the time at which it expires.
pub record Held : Type 0 where
  pub token : Text
  pub expires : ℕ

abbrev pub Redis : Type 0
Redis = List (Text × Held)

-- RedisConversationLocker without its client.
pub record Locker : Type 0 where
  pub ttl : ℕ
  pub interval : ℕ

-- NewRedisConversationLocker
unfoldable pub new_locker : ℤ → Locker
new_locker ttl =
    let t : ℕ = elim ttl [
      | pos n ↦ if n == 0 then 30_000_000_000 else n
      | negsuc n ↦ 30_000_000_000
    ] in
    record { ttl = t; interval = if ltb (t / 3) 1_000_000_000 then 1_000_000_000 else t / 3 }

-- Duration.Milliseconds
abbrev pub milliseconds : ℕ → ℕ
milliseconds d = d / 1_000_000

-- GET: what has expired is gone.
unfoldable pub current : Redis → ℕ → Text → Option Text
current r now k = elim (get k r) [
  | none ↦ none
  | some held ↦ if ltb now held.expires then some held.token else none
]

-- SET k token NX PX ttl
unfoldable pub set_nx : Redis → ℕ → Text → Text → ℕ → Redis × Bool
set_nx r now k token ttl = elim (current r now k) [
  | some other ↦ (r, false)
  | none ↦ (put k (record { token = token; expires = now + ttl }) r, true)
]

-- Whether the lock is held by this token, the test of both scripts.
unfoldable pub owns : Redis → ℕ → Text → Text → Bool
owns r now k token = elim (current r now k) [ some other ↦ other =? token | none ↦ false ]

-- The script of Renew; `false` is ErrLockUnavailable.
unfoldable pub renew : Redis → ℕ → Text → Text → ℕ → Redis × Bool
renew r now k token ttl =
    if owns r now k token
    then (put k (record { token = token; expires = now + ttl }) r, true)
    else (r, false)

-- The script of Unlock; `false` is ErrLockReleased.
unfoldable pub unlock : Redis → ℕ → Text → Text → Redis × Bool
unlock r now k token = if owns r now k token then (delete k r, true) else (r, false)

-- What a call of Lock meets at each of its polls, 50 ms apart: the table, which others change, the
-- time, and how its context stands after the poll.
pub record Poll : Type 0 where
  pub table : Redis
  pub now : ℕ
  pub context : Context

pub data LockResult : Type 0 where
  locked : Redis → ℕ → LockResult
  refused : Error → LockResult
  polling : LockResult

-- The loop of Lock; `polling` means that the polls given have not settled it.
unfoldable pub poll_lock : Locker → Text → Text → List Poll → LockResult
poll_lock l k token [] = polling
poll_lock l k token (p ∷ ps) =
    let rest = poll_lock l k token ps in
    let (r', won) = set_nx p.table p.now k token (milliseconds l.ttl) in
    if won
    then locked r' p.now
    else elim p.context [ ended_context e ↦ refused e | nil_context ↦ rest | live_context ↦ rest ]

-- RedisConversationLocker.Lock with the token that it drew.
unfoldable pub lock : Locker → SessionKey → Text → List Poll → LockResult
lock l key token polls = elim (validate key) [
  | err e ↦ refused e
  | ok _ ↦ poll_lock l (redis_lock_key key) token polls
]

-- The ticks of StartRenewal's goroutine up to the first Renew that fails.
unfoldable pub renew_ticks : Locker → Redis → Text → Text → List ℕ → Redis × Bool
renew_ticks l r k token [] = (r, true)
renew_ticks l r k token (now ∷ ticks) =
    let (r', renewed) = renew r now k token (milliseconds l.ttl) in
    let rest = renew_ticks l r' k token ticks in if renewed then rest else (r', false)
