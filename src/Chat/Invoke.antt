-- ===== src/Chat/Invoke.antt =====
-- The callback `emit` of Chat in internal/controller/chat/chat_v1_chat.go, and the loop that reads
-- the events. The channel `events` has room for four: `events` below are all events that were sent
-- through it, in order, and an event that finds it full with nobody to read blocks `emit` for ever.
mod Events
pub mod Stages
pub mod Replies
pub mod Tests
use on_call_agent.Base.{
  Bool, true, false, ◌&&◌, ◌||◌, not, List, [], ◌∷◌, ◌++◌, Option, none, some, if◌then◌else◌, Text,
  is_empty, Result, ok, err, ℕ, suc, ◌+◌, ltb, length,
}
use on_call_agent.Conversation.Interface.{ConversationStore}
use on_call_agent.Conversation.Limiter.{Limiter, release}
use on_call_agent.Conversation.TurnLoop.{
  TurnEvent, Turn, handle_agent_events, AgentEvent, Outcome, is_some,
}
use on_call_agent.Chat.Turns.{
  ChatError, empty_response, refused, nil_stream_error, Messages, append_turn,
}
use on_call_agent.Chat.Stream.{Request}

module _ {M : Type 0} (p : ConversationStore M) (A : Type 0) where
  -- The variables of Chat that `emit` changes, with the store and the limiter.
  pub record Answering : Type 0 where
    pub store : p.State
    pub limiter : Limiter
    pub is_released : Bool
    pub answer : Text
    pub events : List (TurnEvent M (ChatError A))
    -- How many events Chat takes before it leaves on turnCtx.Done(); `none` if it leaves with a reply.
    pub leaves : Option ℕ
    pub is_blocked : Bool

module _ {M A : Type 0} where
  -- The events that Chat takes, of those sent: up to the one that ends the turn, or until it leaves.
  unfoldable pub up_to_reply : List (TurnEvent M (ChatError A)) → ℕ
  up_to_reply [] = 0
  up_to_reply (event ∷ events) =
      if event.is_done || is_some event.error then 1 else suc (up_to_reply events)

  unfoldable pub taken_by : Option ℕ → List (TurnEvent M (ChatError A)) → ℕ
  taken_by none events = up_to_reply events
  taken_by (some n) events = if ltb n (up_to_reply events) then n else up_to_reply events

  -- Whether `events <- event` returns: make(chan conversation.TurnEvent, 4).
  unfoldable pub has_room : Option ℕ → List (TurnEvent M (ChatError A)) → Bool
  has_room leaves events = ltb (length events) (taken_by leaves events + 4)

  -- The loop of Chat over `events`: `none` waits for more. It is what Chat returns if turnCtx does not
  -- end first.
  unfoldable pub reply :
      Text → List (TurnEvent M (ChatError A)) → Option (Result (ChatError A) Text)
  reply answer [] = none
  reply answer (event ∷ events) = elim event.error [
    | some e ↦ some (err e)
    | none ↦ if event.is_done then some (ok answer) else reply answer events
  ]

module _ {M A : Type 0} (p : ConversationStore M) (ms : Messages M) (req : Request) where
  -- `if event.Message != nil { answer = event.Message.Content }`
  unfoldable pub hear : Answering p A → Option M → Answering p A
  hear c none = c
  hear c (some m) = record c { answer = ms.content m }

  -- The error of an event that is done without one, once the turn is stored.
  unfoldable pub store_answer : Answering p A → Answering p A × Option (ChatError A)
  store_answer c =
      if is_empty c.answer
      then (c, some empty_response)
      else (let (s', r) =
            append_turn p c.store req.turn_context req.later_context req.key req.idempotency_key
              (ms.user_message req.question) (ms.assistant_message c.answer) in
          (record c { store = s' }, elim r [ ok _ ↦ none | err e ↦ some (refused e) ]))

  -- `if event.Done && event.Err == nil`, and what `event.Err` is then.
  unfoldable pub settle_event :
      Answering p A → TurnEvent M (ChatError A) → Answering p A × Option (ChatError A)
  settle_event c event =
      if event.is_done && not (is_some event.error) then store_answer c else (c, event.error)

  -- `release`, under its sync.Once, if the event ends the turn; then `events <- event`, which may not
  -- return.
  unfoldable pub pass_on : Answering p A → TurnEvent M (ChatError A) → Answering p A
  pass_on c event =
      let c' : Answering p A =
        if event.is_done || is_some event.error
        then (if c.is_released
            then c
            else record c { is_released = true; limiter = release c.limiter })
        else c in
      if has_room c'.leaves c'.events
      then record c' { events = c'.events ++ event ∷ [] }
      else record c' { is_blocked = true }

  -- `emit`. Once it is blocked, nothing more of the turn is run.
  unfoldable pub invoke_emit :
      Answering p A → TurnEvent M (ChatError A) → Answering p A × Option (ChatError A)
  invoke_emit c event =
      let (c', e) = settle_event (hear c event.message) event in
      (if c.is_blocked then c else pass_on c' (record event { error = e }), none)

  -- A turn of the session loop with this callback. A turn that is blocked does not return, and its
  -- request is not ended.
  unfoldable pub invoke_turn :
      Turn (Answering p A)
      → List (AgentEvent M (ChatError A))
      → Turn (Answering p A) × Option (Outcome (ChatError A))
  invoke_turn t events =
      let (t', r) = handle_agent_events invoke_emit nil_stream_error t events in
      (
        record { client = t'.client; ended = if t'.client.is_blocked then t.ended else t'.ended },
        if t'.client.is_blocked then none else some r,
      )
