-- ===== src/Chat/Invoke/Tests.antt =====
-- A turn over a MemoryStore, answered with its last message.
use on_call_agent.Base.{
  true, none, ◌∷◌, ◌≡◌, refl, false, [], ℕ, some, Text, codes, Result, nat_eq, list_eq,
}
use on_call_agent.Base.Map.{get, put}
use on_call_agent.Conversation.Key.{session_key_eq, key_beq, validate, context_err}
use on_call_agent.Conversation.Memory.{
  append, append_turn, append_locked, check_append, commit, trim, entry,
}
use on_call_agent.Conversation.Memory.Implements.{memory_conversations}
use on_call_agent.Conversation.Limiter.{release}
use on_call_agent.Conversation.TurnLoop.{
  Turn, output, stream, chunk, handle_agent_events, handle_event, handle_stream, handle_message,
  receive, send, finish, wrapped_emit,
}
use on_call_agent.Chat.Turns.{append_turn as store_turn}
use on_call_agent.Chat.Turns.{ChatError}
use on_call_agent.Chat.Stream.Tests.{hashing, texts, request, two_chunks}
use on_call_agent.Chat.Invoke.{
  has_room, taken_by, up_to_reply, Answering, reply, hear, store_answer, settle_event, pass_on,
  invoke_emit, invoke_turn,
}
use on_call_agent.Chat.Invoke.Stages.{Committed}
use on_call_agent.Chat.Invoke.Replies.{invoke_turn-replies, invoke_turn-Committed}

abbrev pub asked : Turn (Answering (memory_conversations hashing) ℕ)
asked = record {
  client = record {
    store = record { max_messages = 6; entries = []; idempotency = [] };
    limiter = record { max_runs = 100; tokens = 1; closed = false };
    is_released = false;
    answer = [];
    events = [];
    leaves = none;
    is_blocked = false;
  };
  ended = 0;
}

-- A caller that is gone before it took an event, and an agent that sends five chunks: the fifth blocks
-- the turn, and the token is not given back.
blocked_turn :
    let c =
      (invoke_turn
        (memory_conversations hashing)
        texts
        request
        (record asked { client = record asked.client { leaves = some 0 } })
        (output
            (stream (
              chunk (codes "a")
              ∷ chunk (codes "b")
              ∷ chunk (codes "c")
              ∷ chunk (codes "d")
              ∷ chunk (codes "e")
              ∷ []))
            none
          ∷ [])).0.client in
    (c.is_blocked ≡ true) × (c.limiter ≡ asked.client.limiter)
unfolding invoke_turn handle_agent_events handle_event handle_stream receive send wrapped_emit
    invoke_emit handle_message finish pass_on on_call_agent.Chat.Invoke.has_room settle_event hear
    on_call_agent.Chat.Invoke.taken_by on_call_agent.Chat.Invoke.up_to_reply
blocked_turn = (refl, refl)

invoke_turn-replies_example :
    let c = (invoke_turn (memory_conversations hashing) texts request asked two_chunks).0.client in
    (c.is_blocked ≡ false)
    × ((result : Result (ChatError ℕ) Text) × (reply c.answer c.events ≡ some result))
    × (c.limiter ≡ release asked.client.limiter)
invoke_turn-replies_example =
    invoke_turn-replies (memory_conversations hashing) texts request asked two_chunks refl refl refl
      refl

invoke_turn-Committed_example :
    Committed
      (memory_conversations hashing)
      texts
      request
      asked.client
      0
      (invoke_turn (memory_conversations hashing) texts request asked two_chunks).0.client
      (codes "c")
unfolding reply hear store_answer settle_event pass_on invoke_emit invoke_turn handle_agent_events
    handle_event handle_stream handle_message receive send finish wrapped_emit store_turn append
    append_turn append_locked check_append commit trim entry get put key_beq validate context_err
    release has_room taken_by up_to_reply
invoke_turn-Committed_example =
    invoke_turn-Committed (memory_conversations hashing) texts request asked two_chunks refl refl
      (codes "c") refl
