-- ===== src/Conversation/Registry/Tests.antt =====
-- A registry of one session.
use on_call_agent.Base.{◌≤◌, List, [], ◌∷◌, some, codes, length, arith, nat_eq, pos}
use on_call_agent.Conversation.Key.{SessionKey, session_key_eq}
use on_call_agent.Conversation.KeyLaws.{session_key}
use on_call_agent.Conversation.Registry.{Registry, new_registry, agent, get_or_create}
use on_call_agent.Conversation.Registry.Bounds.{Call, gets, removes, run, run-bounded}

abbrev ann : SessionKey
ann = session_key (codes "t") (codes "ann") (codes "1")

abbrev bob : SessionKey
bob = session_key (codes "t") (codes "bob") (codes "1")

abbrev calls : List Call
calls = gets ann (some agent) 5 ∷ gets bob (some agent) 6 ∷ removes ann ∷ []

run-bounded_example : length (run (new_registry (pos 1) (pos 9)) calls).sessions ≤ 1
unfolding new_registry
run-bounded_example = run-bounded (new_registry (pos 1) (pos 9)) calls (omega arith)

abbrev made : Registry
made = (get_or_create (new_registry (pos 1) (pos 9)) ann (some agent) 5).0
