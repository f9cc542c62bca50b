-- ===== src/Pipeline/Adk/Tests.antt =====
-- A turn over a MemoryStore that is answered by a graph which repeats the question.
use on_call_agent.Base.{
  ◌≡◌, refl, ℕ, Bool, true, [], ◌∷◌, some, none, Text, codes, ok, nat_eq, list_eq,
}
use on_call_agent.Base.Map.{get}
use on_call_agent.Conversation.Key.{session_key_eq, validate, context_err}
use on_call_agent.Conversation.Memory.{
  Store, load, append, append_turn, append_locked, check_append, entry,
}
use on_call_agent.Conversation.Memory.Implements.{memory_conversations}
use on_call_agent.Chat.Turns.{ChatError, agent_failed, build_turn_input}
use on_call_agent.Chat.Turns.{append_turn as store_turn}
use on_call_agent.Chat.Stream.Tests.{hashing, texts, request}
use on_call_agent.Chat.Invoke.{reply}
use on_call_agent.Chat.Invoke.Tests.{asked}
use on_call_agent.Pipeline.Adk.{AdkError, Runner}
use on_call_agent.Pipeline.Adk.Turn.{IsEino, chat_turn, chat_turn-answers}

abbrev any : Text → Bool
any t = true

abbrev eino : IsEino texts any
eino = record { user = λ question. refl; says = λ question. refl }

abbrev echo : Runner Text (ChatError ℕ)
echo = record { run_stream = λ u. ok none; run_invoke = λ u. ok (some u.query) }

abbrev adk_failed : AdkError → ChatError ℕ
adk_failed e = agent_failed 0

-- The session once it has been loaded.
abbrev loaded : Store Text
loaded = (load asked.client.store request.turn_context request.key).0

-- The session once the turn is stored.
abbrev answered : Store Text
answered =
    (store_turn (memory_conversations hashing) loaded request.turn_context request.later_context
      request.key request.idempotency_key (codes "q") (codes "q")).0

chat_turn-answers_example :
    let c =
      (chat_turn (memory_conversations hashing) texts any adk_failed echo request asked).client in
    (reply c.answer c.events ≡ some (ok (codes "q"))) × (c.store ≡ answered)
unfolding build_turn_input load context_err validate entry get store_turn append append_turn
    check_append append_locked
chat_turn-answers_example =
    chat_turn-answers (memory_conversations hashing) texts any eino adk_failed echo request asked
      loaded (codes "q" ∷ []) (codes "q") answered refl refl refl refl refl refl
