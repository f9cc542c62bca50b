-- ===== src/Pipeline/Adk.antt =====
-- ADKAgent of internal/ai/agent/chat_pipeline/adk_adapter.go. The compiled graph is a parameter: what
-- Stream and Invoke answer on a UserMessage. The asynchronous iterator is the list of its events.
pub mod Turn
mod Tests
use on_call_agent.Base.{
  ℕ, zero, suc, Bool, true, false, List, [], ◌∷◌, Option, none, some, if◌then◌else◌, Text, is_empty,
  Result, ok, err, length, get_elem?, take,
}
use on_call_agent.Conversation.TurnLoop.{
  AgentEvent, failed, output, Stream, not_streaming, stream, Recv,
}

pub data AdkError : Type 0 where
  messages_required user_required nil_stream_returned nil_message_returned : AdkError

-- UserMessage without its ID, which the adapter leaves empty.
pub record UserMessage (M : Type 0) : Type 0 where
  pub query : Text
  pub history : List (Option M)

-- adk.AgentInput; a nil message is `none`.
pub record AgentInput (M : Type 0) : Type 0 where
  pub input_messages : List (Option M)
  pub enable_streaming : Bool

module _ {M : Type 0} (is_user : M → Bool) (content : M → Text) where
  abbrev pub user_at : List (Option M) → ℕ → Option M
  user_at messages i = elim (get_elem? messages i) [
    | none ↦ none
    | some none ↦ none
    | some (some m) ↦ if is_user m then some m else none
  ]

  -- The loop from the last message down, with the number of messages left.
  unfoldable pub last_user : List (Option M) → ℕ → Option (ℕ × M)
  last_user messages zero = none
  last_user messages (suc i) =
      let earlier = last_user messages i in
      elim (user_at messages i) [ some m ↦ some (i, m) | none ↦ earlier ]

  -- userMessageFromADKInput
  unfoldable pub user_message_from : Option (AgentInput M) → Result AdkError (UserMessage M)
  user_message_from none = err messages_required
  user_message_from (some input) =
      if is_empty input.input_messages
      then err messages_required
      else (elim (last_user input.input_messages (length input.input_messages)) [
        | none ↦ err user_required
        | some (i, m) ↦ ok (record { query = content m; history = take i input.input_messages })
      ])

-- The compiled graph; a nil stream or message is `none`.
pub record Runner (M E : Type 0) : Type 0 where
  pub run_stream : UserMessage M → Result E (Option (List (Recv M E)))
  pub run_invoke : UserMessage M → Result E (Option M)

module _ {M E : Type 0} (is_user : M → Bool) (content : M → Text) (adk_error : AdkError → E)
    (runner : Runner M E) where
  -- Run once the user message is known.
  unfoldable pub run_graph : Bool → UserMessage M → List (AgentEvent M E)
  run_graph true u = elim (runner.run_stream u) [
    | err e ↦ failed e ∷ []
    | ok none ↦ failed (adk_error nil_stream_returned) ∷ []
    | ok (some recvs) ↦ output (stream recvs) none ∷ []
  ]
  run_graph false u = elim (runner.run_invoke u) [
    | err e ↦ failed e ∷ []
    | ok none ↦ failed (adk_error nil_message_returned) ∷ []
    | ok (some m) ↦ output not_streaming (some m) ∷ []
  ]

  -- ADKAgent.Run
  unfoldable pub adk_run : Option (AgentInput M) → List (AgentEvent M E)
  adk_run none = failed (adk_error messages_required) ∷ []
  adk_run (some input) = elim (user_message_from is_user content (some input)) [
    | err e ↦ failed (adk_error e) ∷ []
    | ok u ↦ run_graph input.enable_streaming u
  ]
