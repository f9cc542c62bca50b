-- ===== src/Pipeline/Adk/Turn.antt =====
-- From the stored transcript through the agent to the reply.
use on_call_agent.Base.{
  suc, ◌≡◌, refl, ap, ◌∙◌, Bool, true, false, List, [], ◌∷◌, ◌++◌, Option, some, arith, Text,
  is_empty, ok, err, length, length-append, get_elem?, take, map, inl, inr, Result-cases,
}
use on_call_agent.Conversation.Key.{SessionKey, Context, Error}
use on_call_agent.Conversation.Interface.{ConversationStore}
use on_call_agent.Conversation.TurnLoop.{
  output, not_streaming, Turn, terminal, handle_agent_events, handle_event, handle_stream,
  handle_message, send, finish, wrapped_emit,
}
use on_call_agent.Chat.Turns.{
  ChatError, refused, nil_stream_error, Messages, append_turn, build_turn_input,
}
use on_call_agent.Chat.Stream.{Request}
use on_call_agent.Chat.Invoke.{
  Answering, reply, hear, store_answer, settle_event, pass_on, has_room, invoke_emit, invoke_turn,
}
use on_call_agent.Pipeline.Adk.{
  AdkError, AgentInput, Runner, last_user, user_message_from, run_graph, adk_run,
}

module _ {ℓ} {A : Type ℓ} where
  get_elem?-last : (xs : List A) (x : A) → get_elem? (xs ++ x ∷ []) (length xs) ≡ some x
  get_elem?-last [] x = refl
  get_elem?-last (y ∷ xs) x = get_elem?-last xs x

  take-last : (xs : List A) (x : A) → take (length xs) (xs ++ x ∷ []) ≡ xs
  take-last [] x = refl
  take-last (y ∷ xs) x = ap (λ zs. y ∷ zs) (take-last xs x)

-- What Eino's constructors of messages promise: schema.UserMessage makes a message of the user's with
-- that content.
pub record IsEino {M : Type 0} (ms : Messages M) (is_user : M → Bool) : Type 0 where
  pub user : (question : Text) → is_user (ms.user_message question) ≡ true
  pub says : (question : Text) → ms.content (ms.user_message question) ≡ question

module _ {M : Type 0} (ms : Messages M) (is_user : M → Bool) (eino : IsEino ms is_user) where
  -- The input of a turn, as the agent gets it.
  abbrev pub turn_input : List M → Text → AgentInput M
  turn_input history question = record {
    input_messages = map some (history ++ ms.user_message question ∷ []);
    enable_streaming = false;
  }

  map-snoc : (xs : List M) (x : M) → map some (xs ++ x ∷ []) ≡ map some xs ++ some x ∷ []
  map-snoc [] x = refl
  map-snoc (y ∷ xs) x = ap (λ zs. some y ∷ zs) (map-snoc xs x)

  nonempty : (xs : List (Option M)) (x : Option M) → is_empty (xs ++ x ∷ []) ≡ false
  nonempty [] x = refl
  nonempty (y ∷ xs) x = refl

  last_user-snoc :
      (xs : List (Option M)) (question : Text)
      → last_user is_user ms.content
          (xs ++ some (ms.user_message question) ∷ [])
          (length (xs ++ some (ms.user_message question) ∷ []))
        ≡ some (length xs, ms.user_message question)
  unfolding last_user
  last_user-snoc xs question =
      let e : length (xs ++ some (ms.user_message question) ∷ []) ≡ suc (length xs) =
        omega (arith, length-append xs (some (ms.user_message question) ∷ [])) in
      rw e (ground (arith, get_elem?-last xs (some (ms.user_message question)), eino.user question))

  user_message_from-snoc :
      (xs : List (Option M)) (question : Text)
      → user_message_from is_user ms.content (
          some (record {
            input_messages = xs ++ some (ms.user_message question) ∷ [];
            enable_streaming = false;
          }))
        ≡ ok (record { query = question; history = xs })
  unfolding user_message_from
  user_message_from-snoc xs question = ground (
    arith,
    nonempty xs (some (ms.user_message question)),
    last_user-snoc xs question,
    take-last xs (some (ms.user_message question)),
    eino.says question,
  )

  built :
      (p : ConversationStore M) (s s' : p.State) (ctx : Context) (key : SessionKey)
      (question : Text) (messages : List M)
      → build_turn_input p ms s ctx key question ≡ (s', ok messages)
      → messages ≡ (p.seen s key).0 ++ ms.user_message question ∷ []
  unfolding build_turn_input
  built p s s' ctx key question messages h = elim (Result-cases (p.load s ctx key).1) [
    | inr (e, q) ↦ absurd (ground (arith, q, h))
    | inl (r, q) ↦ ground (arith, q, h, p.load-result s ctx key r q)
  ]

  -- The agent takes apart what buildTurnInput put together: the question is the last message, and the
  -- history is all that the store holds of the session, whatever is in it.
  user_message_from-build_turn_input :
      (p : ConversationStore M) (s s' : p.State) (ctx : Context) (key : SessionKey)
      (question : Text) (messages : List M)
      → build_turn_input p ms s ctx key question ≡ (s', ok messages)
      → user_message_from is_user ms.content
          (some (record { input_messages = map some messages; enable_streaming = false }))
        ≡ ok (record { query = question; history = map some (p.seen s key).0 })
  user_message_from-build_turn_input p s s' ctx key question messages h =
      ap
        (λ xs.
          user_message_from is_user ms.content
            (some (record { input_messages = xs; enable_streaming = false })))
        (ap (map some) (built p s s' ctx key question messages h)
          ∙ map-snoc (p.seen s key).0 (ms.user_message question))
      ∙ user_message_from-snoc (map some (p.seen s key).0) question

module _ {M A : Type 0} (p : ConversationStore M) (ms : Messages M) (is_user : M → Bool)
    (adk_error : AdkError → ChatError A) (runner : Runner M (ChatError A)) (req : Request) where
  -- What Chat pushes to the session, from GenInput on: its build function loads the session, and the
  -- turn runs on the store that the load leaves; an error of the build is told to `emit`.
  unfoldable pub chat_turn : Turn (Answering p A) → Turn (Answering p A)
  chat_turn t =
      let (s', r) = build_turn_input p ms t.client.store req.turn_context req.key req.question in
      let t' : Turn (Answering p A) = record t { client = record t.client { store = s' } } in
      elim r [
        | err e ↦ (wrapped_emit (invoke_emit p ms req) nil_stream_error t' (terminal (refused e))).0
        | ok messages ↦
            (invoke_turn p ms req t' (
              adk_run is_user ms.content adk_error runner
                (some (record { input_messages = map some messages; enable_streaming = false })))).0
      ]

  chat_turn-loaded :
      (t : Turn (Answering p A)) (loaded : p.State) (messages : List M)
      → build_turn_input p ms t.client.store req.turn_context req.key req.question
        ≡ (loaded, ok messages)
      → chat_turn t
        ≡ (invoke_turn p ms req
            (record t { client = record t.client { store = loaded } })
            (adk_run is_user ms.content adk_error runner
              (some (record { input_messages = map some messages; enable_streaming = false })))).0
  unfolding chat_turn
  chat_turn-loaded t loaded messages load = ground (arith, load)

module _ {M A : Type 0} (p : ConversationStore M) (ms : Messages M) (is_user : M → Bool)
    (eino : IsEino ms is_user) (adk_error : AdkError → ChatError A)
    (runner : Runner M (ChatError A)) (req : Request) where
  -- What the agent sends for an input that buildTurnInput made.
  events_lem :
      (history : List (Option M)) (messages : List M) (m : M)
      → user_message_from is_user ms.content
          (some (record { input_messages = map some messages; enable_streaming = false }))
        ≡ ok (record { query = req.question; history = history })
      → runner.run_invoke (record { query = req.question; history = history }) ≡ ok (some m)
      → adk_run is_user ms.content adk_error runner
          (some (record { input_messages = map some messages; enable_streaming = false }))
        ≡ output not_streaming (some m) ∷ []
  unfolding adk_run run_graph
  events_lem history messages m u answered = ground (arith, u, answered)

  one_message :
      (t : Turn (Answering p A)) (m : M) (s' : p.State)
      → t.client.events ≡ []
      → t.client.is_blocked ≡ false
      → is_empty (ms.content m) ≡ false
      → append_turn p t.client.store req.turn_context req.later_context req.key req.idempotency_key
          (ms.user_message req.question)
          (ms.assistant_message (ms.content m))
        ≡ (s', ok tt)
      → let c = (invoke_turn p ms req t (output not_streaming (some m) ∷ [])).0.client in
        (reply c.answer c.events ≡ some (ok (ms.content m))) × (c.store ≡ s')
  unfolding invoke_turn handle_agent_events handle_event handle_stream handle_message send finish
      wrapped_emit invoke_emit settle_event store_answer hear pass_on reply has_room
  one_message t m s' quiet runs spoke stored = ground (arith, quiet, runs, spoke, stored)

  -- A turn from end to end, from a state with no events that is not blocked: if the session loads, and
  -- the agent's graph answers the question, put to it with the whole history of the session, with a
  -- message that says something, and the store that the load has left takes the turn, then the caller
  -- gets that text, and the store is the one that took it.
  pub chat_turn-answers :
      (t : Turn (Answering p A)) (loaded : p.State) (messages : List M) (m : M) (s' : p.State)
      → t.client.events ≡ []
      → t.client.is_blocked ≡ false
      → build_turn_input p ms t.client.store req.turn_context req.key req.question
        ≡ (loaded, ok messages)
      → runner.run_invoke
          (record { query = req.question; history = map some (p.seen t.client.store req.key).0 })
        ≡ ok (some m)
      → is_empty (ms.content m) ≡ false
      → append_turn p loaded req.turn_context req.later_context req.key req.idempotency_key
          (ms.user_message req.question)
          (ms.assistant_message (ms.content m))
        ≡ (s', ok tt)
      → let c = (chat_turn p ms is_user adk_error runner req t).client in
        (reply c.answer c.events ≡ some (ok (ms.content m))) × (c.store ≡ s')
  chat_turn-answers t loaded messages m s' quiet runs load answered spoke stored =
      let u =
        user_message_from-build_turn_input ms is_user eino p t.client.store loaded req.turn_context
          req.key req.question messages load in
      rw (chat_turn-loaded p ms is_user adk_error runner req t loaded messages load) (
        rw (events_lem _ messages m u answered) (
          one_message (record t { client = record t.client { store = loaded } }) m s' quiet runs
            spoke stored))

  -- If the session does not load, then the caller gets the error, and nothing is stored.
  chat_turn-load_error :
      (t : Turn (Answering p A)) (loaded : p.State) (e : Error)
      → t.client.events ≡ []
      → t.client.is_blocked ≡ false
      → build_turn_input p ms t.client.store req.turn_context req.key req.question ≡ (loaded, err e)
      → let c = (chat_turn p ms is_user adk_error runner req t).client in
        (reply c.answer c.events ≡ some (err (refused e))) × (c.store ≡ loaded)
  unfolding chat_turn wrapped_emit invoke_emit settle_event hear pass_on reply has_room
  chat_turn-load_error t loaded e quiet runs load = ground (arith, load, quiet, runs)
