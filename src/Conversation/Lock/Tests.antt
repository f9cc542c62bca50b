-- ===== src/Conversation/Lock/Tests.antt =====
-- Two clients and one lock.
use on_call_agent.Base.{◌≡◌, refl, true, false, [], ◌∷◌, Text, codes, arith, ◌≢◌, nat_eq, list_eq}
use on_call_agent.Base.Map.{get}
use on_call_agent.Conversation.Lock.{Redis, renew_ticks}
use on_call_agent.Conversation.Lock.Holding.{
  try_lock, unlocks, command, commands, held-commands, renew_ticks-keeps,
}

abbrev key : Text
key = codes "k"

abbrev mine : Text
mine = codes "a"

abbrev theirs : Text
theirs = codes "b"

abbrev taken : Redis
taken = (key, record { token = mine; expires = 50 }) ∷ []

differ : theirs ≢ mine
differ e = ground (arith, e)

held-commands_example :
    (command (commands taken ((key, 20, try_lock theirs 30) ∷ [])) key 40 (unlocks theirs)).1
    ≡ false
unfolding get
held-commands_example =
    (held-commands taken key mine 50 ((key, 20, try_lock theirs 30) ∷ []) 40 (unlocks theirs) refl
      ((λ _. (differ, omega arith)), tt) differ (omega arith)).1

renew_ticks-keeps_example :
    (renew_ticks
      (record { ttl = 30_000_000; interval = 10_000_000 })
      taken
      key
      mine
      (40 ∷ 60 ∷ [])).1
    ≡ true
unfolding get
renew_ticks-keeps_example =
    (renew_ticks-keeps (record { ttl = 30_000_000; interval = 10_000_000 }) taken key mine 50
      (40 ∷ 60 ∷ []) refl (omega arith)).0
