-- ===== src/Conversation/Coordinator/Tests.antt =====
-- One session runs its callback while another call waits for it.
use on_call_agent.Base.{◌≤◌, refl, true, [], ◌∷◌, codes, nat_eq, list_eq}
use on_call_agent.Base.Map.{get}
use on_call_agent.Conversation.Key.{SessionKey, validate, live_context, context_err}
use on_call_agent.Conversation.KeyLaws.{session_key}
use on_call_agent.Conversation.Coordinator.{
  World, new_coordinator, here, next, runs, lock, check_run, count, Reach-exclusive, take_token,
}

abbrev ann : SessionKey
ann = session_key (codes "t") (codes "ann") (codes "1")

abbrev busy : World
busy = record {
  coordinator = take_token (lock new_coordinator.coordinator ann).0 ann;
  running = ann ∷ [];
}

Reach-exclusive_example : count ann busy.running ≤ 1
unfolding check_run context_err validate lock get
Reach-exclusive_example =
    (Reach-exclusive {w = busy} ann
      (next here (runs new_coordinator live_context ann true refl refl))).0
