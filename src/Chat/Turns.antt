-- ===== src/Chat/Turns.antt =====
-- What the chat endpoints share: session.go, and appendTurn and buildTurnInput of chat_new.go. The
-- store is any ConversationStore; the constructors of Eino's messages are parameters.
use on_call_agent.Base.{
  List, [], ◌∷◌, ◌++◌, Option, none, some, if◌then◌else◌, Text, is_empty, Result, ok, err,
}
use on_call_agent.Auth.Service.{Principal}
use on_call_agent.Conversation.Key.{Error, SessionKey, Context, validate, idempotency_unsupported}
use on_call_agent.Conversation.Memory.{error_of}
use on_call_agent.Conversation.Interface.{ConversationStore}

pub data ChatError (A : Type 0) : Type 0 where
  unauthenticated empty_response client_unavailable nil_stream_error : ChatError A
  refused : Error → ChatError A
  agent_failed : A → ChatError A

-- sessionKey; `principal` is what PrincipalFromContext answers.
unfoldable pub session_key :
    {A : Type 0} → Option Principal → Text → Result (ChatError A) SessionKey
session_key none conversation = err unauthenticated
session_key (some p) conversation =
    let key : SessionKey = record {
      tenant_id = p.tenant_id;
      user_id = p.user_id;
      conversation_id = conversation;
    } in
    elim (validate key) [ ok _ ↦ ok key | err e ↦ err (refused e) ]

-- The parts of a schema.Message that the endpoints use.
pub record Messages (M : Type 0) : Type 0 where
  pub user_message : Text → M
  pub assistant_message : Text → M
  pub content : M → Text

module _ {M : Type 0} (p : ConversationStore M) where
  -- appendTurn
  unfoldable pub append_turn :
      p.State → Context → Context → SessionKey → Text → M → M → p.State × Result Error (Unit {0})
  append_turn s ctx later key request user assistant =
      if is_empty request
      then p.append s ctx key (some user) (some assistant)
      else if p.is_idempotent
      then (let (s', r) =
            p.append_idempotent s ctx later key request (some user) (some assistant) in
          (s', error_of r))
      else (s, err idempotency_unsupported)

  -- ControllerV1.buildTurnInput
  unfoldable pub build_turn_input :
      Messages M → p.State → Context → SessionKey → Text → p.State × Result Error (List M)
  build_turn_input ms s ctx key question =
      let (s', r) = p.load s ctx key in
      (
        s',
        elim r [ err e ↦ err e | ok (history, _) ↦ ok (history ++ ms.user_message question ∷ []) ],
      )
