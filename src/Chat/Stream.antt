-- ===== src/Chat/Stream.antt =====
-- The callback `emit` of ChatStream in internal/controller/chat/chat_v1_chat_stream.go. What the
-- SSE client's SendToClient does with an event, take it, refuse it or panic, may change with every
-- call: it is a function of the events sent before. It panics on a client that ChatStream, leaving on
-- turnCtx.Done(), has finished.
pub mod Answers
pub mod Stored
pub mod Tests
use on_call_agent.Base.{
  ℕ, ◌≡◌, Bool, true, false, List, [], ◌∷◌, ◌++◌, Option, none, some, if◌then◌else◌, Text, codes,
  is_empty, Result, ok, err,
}
use on_call_agent.Conversation.Key.{SessionKey, Context}
use on_call_agent.Conversation.Interface.{ConversationStore}
use on_call_agent.Conversation.Limiter.{Limiter, release}
use on_call_agent.Conversation.TurnLoop.{TurnEvent, Turn, handle_agent_events, AgentEvent, Outcome}
use on_call_agent.Sse.{Sent, accepted, rejected, panicked}
use on_call_agent.Chat.Turns.{
  ChatError, empty_response, client_unavailable, refused, nil_stream_error, Messages, append_turn,
}

-- What the request of a stream is made with.
pub record Request : Type 0 where
  pub key : SessionKey
  pub question : Text
  pub idempotency_key : Text
  pub turn_context : Context
  pub later_context : Context

module _ {M : Type 0} (p : ConversationStore M) (A : Type 0) where
  -- The variables of ChatStream that `emit` changes, with the store and the limiter. `sent` are the
  -- events handed to SendToClient, the last one first; `done` are the values sent to that channel.
  pub record Streaming : Type 0 where
    pub store : p.State
    pub limiter : Limiter
    pub is_released : Bool
    pub full_response : Text
    pub sent : List (Text × Text)
    pub done : List (Option (ChatError A))
    pub is_panicked : Bool

module _ {M A : Type 0} (p : ConversationStore M) (ms : Messages M)
    (accepts : List (Text × Text) → Sent) (req : Request) where
  -- `release`, under its sync.Once
  unfoldable pub release_once : Streaming p A → Streaming p A
  release_once c =
      if c.is_released then c else record c { is_released = true; limiter = release c.limiter }

  -- `send`, with what SendToClient does; a panic ends `emit`, which recovers from nothing.
  unfoldable pub send_event : Streaming p A → Text → Text → Streaming p A × Sent
  send_event c event_type text = (record c { sent = (event_type, text) ∷ c.sent }, accepts c.sent)

  -- `release(); done <- result`
  unfoldable pub finish_with : Streaming p A → Option (ChatError A) → Streaming p A
  unfolding release_once
  finish_with c result = record (release_once c) { done = c.done ++ result ∷ [] }

  -- The end of `emit`, for an event that is done and has no error.
  unfoldable pub commit_stream : Streaming p A → Streaming p A × Option (ChatError A)
  commit_stream c =
      if is_empty c.full_response
      then (finish_with c (some empty_response), none)
      else (let (s', r) =
            append_turn p c.store req.turn_context req.later_context req.key req.idempotency_key
              (ms.user_message req.question) (ms.assistant_message c.full_response) in
          let c' = record c { store = s' } in
          let (c'', taken) = send_event c' (codes "done") (codes "Stream completed") in
          elim r [
            | err e ↦ (finish_with c' (some (refused e)), none)
            | ok _ ↦ elim taken [
              | accepted ↦ (finish_with c'' none, none)
              | rejected ↦ (finish_with c'' (some client_unavailable), some client_unavailable)
              | panicked ↦ (record c'' { is_panicked = true }, none)
            ]
          ])

  -- `emit` once the message of the event was sent.
  unfoldable pub end_event :
      Streaming p A → TurnEvent M (ChatError A) → Streaming p A × Option (ChatError A)
  end_event c event =
      if event.is_done
      then (elim event.error [ some e ↦ (finish_with c (some e), none) | none ↦ commit_stream c ])
      else (c, none)

  -- `emit`
  unfoldable pub emit_event :
      Streaming p A → TurnEvent M (ChatError A) → Streaming p A × Option (ChatError A)
  emit_event c event = elim event.message [
    | none ↦ end_event c event
    | some m ↦
        (let (c', taken) =
            send_event (record c { full_response = c.full_response ++ ms.content m })
              (codes "message") (ms.content m) in
          elim taken [
            | accepted ↦ end_event c' event
            | rejected ↦ (finish_with c' (some client_unavailable), some client_unavailable)
            | panicked ↦ (record c' { is_panicked = true }, none)
          ])
  ]

  -- The same as a callback of the loop: once it has panicked, nothing more of the turn is run.
  unfoldable pub stream_emit :
      Streaming p A → TurnEvent M (ChatError A) → Streaming p A × Option (ChatError A)
  stream_emit c event = if c.is_panicked then (c, none) else emit_event c event

  -- A turn of the session loop with this callback. A turn that panics does not return, and its request
  -- is not ended; what Eino makes of the panic is outside.
  unfoldable pub stream_turn :
      Turn (Streaming p A)
      → List (AgentEvent M (ChatError A))
      → Turn (Streaming p A) × Option (Outcome (ChatError A))
  stream_turn t events =
      let (t', r) = handle_agent_events stream_emit nil_stream_error t events in
      (
        record { client = t'.client; ended = if t'.client.is_panicked then t.ended else t'.ended },
        if t'.client.is_panicked then none else some r,
      )
