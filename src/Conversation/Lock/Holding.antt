-- ===== src/Conversation/Lock/Holding.antt =====
-- Who holds a lock, and for how long.
use on_call_agent.Base.{
  ℕ, ◌+◌, ◌<◌, ◌≡◌, refl, ◌≢◌, ◌↔◌, Bool, true, false, List, [], ◌∷◌, none, some, ℤ, pos, negsuc,
  arith, Text, nat_eq, list_eq, list_beq_iff,
}
use on_call_agent.Base.Map.{get, get-put, get-delete}
use on_call_agent.Conversation.Lock.{
  Redis, Locker, new_locker, milliseconds, current, set_nx, owns, renew, unlock, renew_ticks, Poll,
  locked, poll_lock,
}

-- A command of some client, with its token.
pub data Command : Type 0 where
  try_lock : Text → ℕ → Command
  renews : Text → ℕ → Command
  unlocks : Text → Command

abbrev pub sender : Command → Text
sender (try_lock token ttl) = token
sender (renews token ttl) = token
sender (unlocks token) = token

-- A command on a lock at a time.
unfoldable pub command : Redis → Text → ℕ → Command → Redis × Bool
command r k now (try_lock token ttl) = set_nx r now k token ttl
command r k now (renews token ttl) = renew r now k token ttl
command r k now (unlocks token) = unlock r now k token

-- Commands on any locks, each with its time.
unfoldable pub commands : Redis → List (Text × ℕ × Command) → Redis
commands r [] = r
commands r ((k, now, c) ∷ cs) = commands (command r k now c).0 cs

-- The commands on the lock `k` come from others, before the time `until`.
abbrev pub AreForeign : Text → Text → ℕ → List (Text × ℕ × Command) → Type 0
AreForeign k token until [] = Unit {0}
AreForeign k token until ((j, now, c) ∷ cs) =
    (j ≡ k → (sender c ≢ token) × (now < until)) × AreForeign k token until cs

foreign_command :
    (r : Redis) (k j token : Text) (until now : ℕ) (c : Command)
    → get k r ≡ some (record { token = token; expires = until })
    → (j ≡ k → (sender c ≢ token) × (now < until))
    → (get k (command r j now c).0 ≡ some (record { token = token; expires = until }))
      × (j ≡ k → (command r j now c).1 ≡ false)
unfolding command set_nx renew unlock owns current
foreign_command r k j token until now (try_lock t ttl) held foreign =
    ground
      (arith, held, list_beq_iff j k, get-put j k (record { token = t; expires = now + ttl }) r)
foreign_command r k j token until now (renews t ttl) held foreign = ground (
  arith,
  held,
  list_beq_iff j k,
  list_beq_iff token t,
  get-put j k (record { token = t; expires = now + ttl }) r,
)
foreign_command r k j token until now (unlocks t) held foreign =
    ground (arith, held, list_beq_iff j k, list_beq_iff token t, get-delete j k r)

-- A lock that was taken or renewed belongs to its token until it expires: no sequence of commands
-- that others send before that time takes, prolongs or frees it.
pub held-commands :
    (r : Redis) (k token : Text) (until : ℕ) (cs : List (Text × ℕ × Command)) (now : ℕ)
    (c : Command)
    → get k r ≡ some (record { token = token; expires = until })
    → AreForeign k token until cs
    → sender c ≢ token
    → now < until
    → (get k (commands r cs) ≡ some (record { token = token; expires = until }))
      × ((command (commands r cs) k now c).1 ≡ false)
unfolding commands
held-commands r k token until [] now c held foreign other early =
    (held, (foreign_command r k k token until now c held (λ _. (other, early))).1 refl)
held-commands r k token until ((j, at, d) ∷ cs) now c held foreign other early =
    held-commands (command r j at d).0 k token until cs now c
      (foreign_command r k j token until at d held foreign.0).0 foreign.1 other early

renew_held :
    (l : Locker) (r : Redis) (k token : Text) (until now : ℕ)
    → get k r ≡ some (record { token = token; expires = until })
    → now < until
    → let (r', renewed) = renew r now k token (milliseconds l.ttl) in
      (renewed ≡ true)
      × (get k r' ≡ some (record { token = token; expires = now + milliseconds l.ttl }))
unfolding renew owns current
renew_held l r k token until now held early = ground (
  arith,
  held,
  list_beq_iff token token,
  list_beq_iff k k,
  get-put k k (record { token = token; expires = now + milliseconds l.ttl }) r,
)

-- Unlock with a token that no longer holds the lock changes nothing, whoever holds it now; with the
-- token that holds it, the lock is free at once.
unlock_lem :
    (r : Redis) (now : ℕ) (k token : Text)
    → (owns r now k token ≡ false → unlock r now k token ≡ (r, false))
      × (owns r now k token ≡ true
          → ((unlock r now k token).1 ≡ true)
            × ((later : ℕ) → current (unlock r now k token).0 later k ≡ none))
unfolding unlock current
unlock_lem r now k token = (
  λ lost. ground arith,
  λ own. (ground arith, λ later. ground (arith, get-delete k k r, list_beq_iff k k)),
)

-- The default TTL and every TTL above one second is longer than the time between two renewals; a
-- positive TTL of at most a second is not.
interval-lt-ttl :
    (n : ℤ) → ((new_locker n).interval < (new_locker n).ttl) ↔ (1_000_000_000 < (new_locker n).ttl)
unfolding new_locker
interval-lt-ttl (pos n) = (λ h. ground arith, λ h. ground arith)
interval-lt-ttl (negsuc n) = (λ h. ground arith, λ h. ground arith)

-- Each tick comes before the expiry that the last renewal set.
abbrev pub ArePrompt : ℕ → ℕ → List ℕ → Type 0
ArePrompt ttl until [] = Unit {0}
ArePrompt ttl until (now ∷ ticks) = (now < until) × ArePrompt ttl (now + ttl) ticks

abbrev pub expiry : ℕ → ℕ → List ℕ → ℕ
expiry ttl until [] = until
expiry ttl until (now ∷ ticks) = expiry ttl (now + ttl) ticks

-- A held lock that is renewed at prompt ticks stays with its token: no renewal fails, and the lock
-- expires one TTL after the last of them.
pub renew_ticks-keeps :
    (l : Locker) (r : Redis) (k token : Text) (until : ℕ) (ticks : List ℕ)
    → get k r ≡ some (record { token = token; expires = until })
    → ArePrompt (milliseconds l.ttl) until ticks
    → ((renew_ticks l r k token ticks).1 ≡ true)
      × (get k (renew_ticks l r k token ticks).0
          ≡ some (record { token = token; expires = expiry (milliseconds l.ttl) until ticks }))
unfolding renew_ticks
renew_ticks-keeps l r k token until [] held prompt = (refl, held)
renew_ticks-keeps l r k token until (now ∷ ticks) held prompt =
    let (renewed, next) = renew_held l r k token until now held prompt.0 in
    let rest =
      renew_ticks-keeps l (renew r now k token (milliseconds l.ttl)).0 k token
        (now + milliseconds l.ttl) ticks next prompt.1 in
    ground (arith, renewed, rest)

-- Lock succeeds only at a poll that finds the lock free or expired, and then holds it for one TTL.
pub poll_lock-free :
    (l : Locker) (k token : Text) (polls : List Poll) (r : Redis) (now : ℕ)
    → poll_lock l k token polls ≡ locked r now
    → get k r ≡ some (record { token = token; expires = now + milliseconds l.ttl })
unfolding poll_lock set_nx
poll_lock-free l k token [] r now h = absurd (ground arith)
poll_lock-free l k token (p ∷ ps) r now h = ground (
  arith,
  list_beq_iff k k,
  get-put k k (record { token = token; expires = p.now + milliseconds l.ttl }) p.table,
  poll_lock-free l k token ps r now,
)
