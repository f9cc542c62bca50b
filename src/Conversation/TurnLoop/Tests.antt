-- ===== src/Conversation/TurnLoop/Tests.antt =====
-- Handlers on concrete events; the callers' state is the number of events sent.
use on_call_agent.Base.{ℕ, suc, ◌+◌, ◌≡◌, List, [], ◌∷◌, Option, none, some, ok, err}
use on_call_agent.Conversation.TurnLoop.{
  TurnEvent, chunk, recv_error, stream, not_streaming, AgentEvent, output, no_output, Request,
  handle_agent_events,
}
use on_call_agent.Conversation.TurnLoop.Turns.{handle_agent_events-ends_once}

abbrev counted : ℕ → TurnEvent ℕ ℕ → ℕ × Option ℕ
counted n event = (suc n, none)

abbrev events : List (AgentEvent ℕ ℕ)
events =
    no_output
    ∷ output (stream (chunk 1 ∷ recv_error 7 ∷ [])) none
    ∷ output not_streaming (some 2)
    ∷ []

handle_agent_events-ends_once_example :
    (handle_agent_events counted 9 (record { client = 0; ended = 3 }) events).0.ended ≡ 4
handle_agent_events-ends_once_example =
    (handle_agent_events-ends_once counted 9 (record { client = 0; ended = 3 }) events).0

abbrev bad : Request ℕ ℕ ℕ
bad = record { id = 1; resolve = λ s. (s, err 5) }

abbrev good : Request ℕ ℕ ℕ
good = record { id = 2; resolve = λ s. (s, ok (8 ∷ [])) }

abbrev told : ℕ → ℕ → TurnEvent ℕ ℕ → ℕ × Option ℕ
told n id event = (n + id, none)
