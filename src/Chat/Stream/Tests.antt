-- ===== src/Chat/Stream/Tests.antt =====
-- A streamed turn over a MemoryStore: two chunks and a message, and a client that takes everything.
use on_call_agent.Base.{
  not, if◌then◌else◌, ◌≡◌, refl, false, List, [], ◌∷◌, ◌++◌, ◌+◌, ℕ, some, Text, codes, nat_eq,
  list_eq, length,
}
use on_call_agent.Base.Map.{get, put}
use on_call_agent.Conversation.Key.{session_key_eq, key_beq, validate, context_err, live_context}
use on_call_agent.Conversation.KeyLaws.{session_key}
use on_call_agent.Conversation.Memory.{
  Hashing, append, append_turn, append_locked, check_append, commit, trim, entry,
}
use on_call_agent.Conversation.Memory.Implements.{memory_conversations}
use on_call_agent.Conversation.Limiter.{release}
use on_call_agent.Conversation.TurnLoop.{
  Turn, is_some, AgentEvent, chunk, stream, output, handle_agent_events, handle_event,
  handle_stream, handle_message, receive, send, finish, wrapped_emit,
}
use on_call_agent.Chat.Turns.{ChatError, Messages}
use on_call_agent.Chat.Turns.{append_turn as store_turn}
use on_call_agent.Sse.{Sent, accepted, panicked}
use on_call_agent.Chat.Stream.{
  emit_event, Request, Streaming, stream_turn, stream_emit, end_event, commit_stream, send_event,
  finish_with, release_once,
}
use on_call_agent.Chat.Stream.Answers.{stream_turn-answers_once}
use on_call_agent.Chat.Stream.Stored.{said, Stored, stream_turn-Stored}

abbrev pub hashing : Hashing Text
hashing = record { encode_pair = λ u a. some (u ++ a); sha256_hex = λ t. t }

abbrev pub texts : Messages Text
texts = record { user_message = λ t. t; assistant_message = λ t. t; content = λ t. t }

abbrev takes_all : List (Text × Text) → Sent
takes_all sent = accepted

abbrev pub request : Request
request = record {
  key = session_key (codes "acme") (codes "ann") (codes "c1");
  question = codes "q";
  idempotency_key = [];
  turn_context = live_context;
  later_context = live_context;
}

abbrev opening : Turn (Streaming (memory_conversations hashing) ℕ)
opening = record {
  client = record {
    store = record { max_messages = 6; entries = []; idempotency = [] };
    limiter = record { max_runs = 100; tokens = 1; closed = false };
    is_released = false;
    full_response = [];
    sent = [];
    done = [];
    is_panicked = false;
  };
  ended = 0;
}

abbrev pub two_chunks : List (AgentEvent Text (ChatError ℕ))
two_chunks = output (stream (chunk (codes "a") ∷ chunk (codes "b") ∷ [])) (some (codes "c")) ∷ []

-- ChatStream has left on turnCtx.Done() and finished the client: the first message panics, and the
-- token of the limiter stays with the turn.
panicked_turn :
    let t =
      (stream_turn
        (memory_conversations hashing)
        texts
        (λ sent. panicked)
        request
        opening
        two_chunks).0 in
    (t.client.done ≡ []) × (t.client.limiter ≡ opening.client.limiter) × (t.ended ≡ 0)
unfolding stream_turn handle_agent_events handle_event handle_stream receive send wrapped_emit
    stream_emit emit_event send_event handle_message finish
panicked_turn = (refl, refl, refl)

stream_turn-answers_once_example :
    let (t', outcome) =
      stream_turn (memory_conversations hashing) texts takes_all request opening two_chunks in
    let lost = t'.client.is_panicked in
    (length t'.client.done ≡ length opening.client.done + (if lost then 0 else 1))
    × (t'.client.limiter
        ≡ (if lost then opening.client.limiter else release opening.client.limiter))
    × (t'.ended ≡ opening.ended + (if lost then 0 else 1))
    × (is_some outcome ≡ not lost)
stream_turn-answers_once_example =
    stream_turn-answers_once (memory_conversations hashing) texts takes_all request opening
      two_chunks refl refl

stream_turn-Stored_example :
    Stored
      (memory_conversations hashing)
      texts
      takes_all
      request
      opening.client.store
      (stream_turn
        (memory_conversations hashing)
        texts
        takes_all
        request
        opening
        two_chunks).0.client
unfolding said stream_turn handle_agent_events handle_event handle_stream receive send wrapped_emit
    stream_emit emit_event send_event end_event handle_message finish commit_stream store_turn
    append append_turn check_append get put finish_with release_once context_err key_beq validate
    release append_locked commit entry trim
stream_turn-Stored_example =
    stream_turn-Stored (memory_conversations hashing) texts takes_all request opening.client.store
      opening two_chunks refl refl refl refl
