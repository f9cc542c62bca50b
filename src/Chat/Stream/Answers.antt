-- ===== src/Chat/Stream/Answers.antt =====
-- How a streamed turn answers its request and gives its token back, or panics on a finished client.
use on_call_agent.Base.{
  ◌+◌, ◌⊎◌, ◌≡◌, refl, ap, ◌∙◌, Bool, true, false, not, List, [], ◌∷◌, ◌++◌, Option, none, some,
  arith, if◌then◌else◌, Text, codes, is_empty, length, length-append, Result-cases, Bool-cases, inl,
  inr,
}
use on_call_agent.Sse.{Sent, accepted, rejected, panicked, Sent-cases}
use on_call_agent.Conversation.Interface.{ConversationStore}
use on_call_agent.Conversation.Limiter.{release}
use on_call_agent.Conversation.TurnLoop.{AgentEvent, Turn, wrapped_emit, terminal, is_some}
use on_call_agent.Conversation.TurnLoop.Turns.{handle_agent_events-ends_once}
use on_call_agent.Conversation.TurnLoop.Returns.{Lands, handle_agent_events-Returned}
use on_call_agent.Chat.Turns.{
  ChatError, empty_response, refused, client_unavailable, nil_stream_error, Messages, append_turn,
}
use on_call_agent.Chat.Stream.{
  Request, Streaming, release_once, send_event, finish_with, commit_stream, end_event, emit_event,
  stream_emit, stream_turn,
}

module _ {M A : Type 0} (p : ConversationStore M) (ms : Messages M)
    (accepts : List (Text × Text) → Sent) (req : Request) (c0 : Streaming p A) where
  -- Not answered yet, and the token is held.
  record Open (c : Streaming p A) : Type 0 where
    done : c.done ≡ c0.done
    limiter : c.limiter ≡ c0.limiter
    released : c.is_released ≡ false
    runs : c.is_panicked ≡ false

  -- Answered, and the token is given back.
  record Answered (c : Streaming p A) : Type 0 where
    answer : Option (ChatError A)
    done : c.done ≡ c0.done ++ answer ∷ []
    limiter : c.limiter ≡ release c0.limiter
    runs : c.is_panicked ≡ false

  -- Panicked before it was answered, with the token.
  record Lost (c : Streaming p A) : Type 0 where
    done : c.done ≡ c0.done
    limiter : c.limiter ≡ c0.limiter
    panics : c.is_panicked ≡ true

  finish_with-Answered :
      (c : Streaming p A) (x : Option (ChatError A))
      → Open c
      → Answered (finish_with p ms accepts req c x)
  unfolding finish_with release_once
  finish_with-Answered c x o = record {
    answer = x;
    done = ground (arith, o.released, o.done);
    limiter = ground (arith, o.released, o.limiter);
    runs = ground (arith, o.released, o.runs);
  }

  -- What the callback left, with what it answered.
  abbrev Fine : Streaming p A × Option (ChatError A) → Type 0
  Fine (c, none) = Open c ⊎ Lost c
  Fine (c, some e) = Answered c ⊎ Lost c

  Fine-Lands :
      (x : Turn (Streaming p A) × Option (ChatError A))
      → Fine (x.0.client, x.1)
      → Lands
          (λ (t : Turn (Streaming p A)). Open t.client ⊎ Lost t.client)
          (λ (t : Turn (Streaming p A)). Answered t.client ⊎ Lost t.client)
          x.0
          x.1
  Fine-Lands (t, none) h = h
  Fine-Lands (t, some e) h = h

  Sent-Fine :
      (r : Sent) (x y z : Streaming p A × Option (ChatError A))
      → Fine x
      → Fine y
      → Fine z
      → Fine (elim r as (λ s. Streaming p A × Option (ChatError A)) [
        | accepted ↦ x
        | rejected ↦ y
        | panicked ↦ z
      ])
  Sent-Fine accepted x y z a b c = a
  Sent-Fine rejected x y z a b c = b
  Sent-Fine panicked x y z a b c = c

  message-Fine :
      (c : Streaming p A) (m : M)
      → Open c
      → Fine (
          emit_event p ms accepts req c
            (record { message = some m; error = none; is_done = false }))
  unfolding emit_event send_event end_event
  message-Fine c m o =
      let c' : Streaming p A = record c {
        full_response = c.full_response ++ ms.content m;
        sent = (codes "message", ms.content m) ∷ c.sent;
      } in
      let still : Open c' = record {
        done = o.done;
        limiter = o.limiter;
        released = o.released;
        runs = o.runs;
      } in
      Sent-Fine (accepts c.sent) (c', none)
        (finish_with p ms accepts req c' (some client_unavailable), some client_unavailable)
        (record c' { is_panicked = true }, none) (inl still)
        (inl (finish_with-Answered c' (some client_unavailable) still))
        (inr (record { done = o.done; limiter = o.limiter; panics = refl }))

  Over : Streaming p A → Type 0
  Over c = Answered c ⊎ Lost c

  -- The end of the events, when the turn is stored.
  commit_stream-Over : (c : Streaming p A) → Open c → Over (commit_stream p ms accepts req c).0
  unfolding Over commit_stream send_event
  commit_stream-Over c o =
      let (s', r) =
        append_turn p c.store req.turn_context req.later_context req.key req.idempotency_key
          (ms.user_message req.question) (ms.assistant_message c.full_response) in
      let c' : Streaming p A = record c { store = s' } in
      let c'' : Streaming p A = record c' {
        sent = (codes "done", codes "Stream completed") ∷ c.sent;
      } in
      let still : Open c' = record {
        done = o.done;
        limiter = o.limiter;
        released = o.released;
        runs = o.runs;
      } in
      let still' : Open c'' = record {
        done = o.done;
        limiter = o.limiter;
        released = o.released;
        runs = o.runs;
      } in
      elim (Bool-cases (is_empty c.full_response)) [
        | inl q ↦ inl (ground (arith, q, finish_with-Answered c (some empty_response) o))
        | inr q ↦ elim (Result-cases r) [
          | inr (e, f) ↦
              inl (ground (arith, q, f, finish_with-Answered c' (some (refused e)) still))
          | inl (u, f) ↦ elim (Sent-cases (accepts c.sent)) [
            | inl taken ↦ inl (ground (arith, q, f, taken, finish_with-Answered c'' none still'))
            | inr (inl lost) ↦ inl (
                ground
                  (arith, q, f, lost, finish_with-Answered c'' (some client_unavailable) still'))
            | inr (inr gone) ↦ inr (record {
              done = ground (arith, q, f, gone, o.done);
              limiter = ground (arith, q, f, gone, o.limiter);
              panics = ground (arith, q, f, gone);
            })
          ]
        ]
      ]

  -- A callback that has panicked does nothing.
  unless_panicked :
      (P : Streaming p A × Option (ChatError A) → Type 0) (c : Streaming p A)
      (x : Streaming p A × Option (ChatError A)) (b : Bool)
      → c.is_panicked ≡ b
      → (Lost c → P (c, none))
      → (Open c → P x)
      → Open c ⊎ Lost c
      → P (if◌then◌else◌ {A = Streaming p A × Option (ChatError A)} b (c, none) x)
  unless_panicked P c x true q h k (inl o) = absurd (ground (arith, q, o.runs))
  unless_panicked P c x true q h k (inr l) = h l
  unless_panicked P c x false q h k (inl o) = k o
  unless_panicked P c x false q h k (inr l) = absurd (ground (arith, q, l.panics))

  -- An error of the agent's, and the end of the events.
  error-Over :
      (c : Streaming p A) (e : ChatError A)
      → Open c ⊎ Lost c
      → Over (stream_emit p ms accepts req c (terminal e)).0
  unfolding Over stream_emit emit_event end_event
  error-Over c e =
      unless_panicked (λ x. Over x.0) c (finish_with p ms accepts req c (some e), none)
        c.is_panicked refl (λ l. inr l) (λ o. inl (finish_with-Answered c (some e) o))

  completed-Over :
      (c : Streaming p A)
      → Open c ⊎ Lost c
      → Over
          (stream_emit p ms accepts req c
            (record { message = none; error = none; is_done = true })).0
  unfolding Over stream_emit emit_event end_event
  completed-Over c =
      unless_panicked (λ x. Over x.0) c (commit_stream p ms accepts req c) c.is_panicked refl
        (λ l. inr l) (commit_stream-Over c)

  message-Lands :
      (c : Streaming p A) (m : M)
      → Open c ⊎ Lost c
      → Fine (
          stream_emit p ms accepts req c
            (record { message = some m; error = none; is_done = false }))
  unfolding stream_emit
  message-Lands c m =
      unless_panicked Fine c
        (emit_event p ms accepts req c (record { message = some m; error = none; is_done = false }))
        c.is_panicked refl (λ l. inr l) (message-Fine c m)

module _ {M A : Type 0} (p : ConversationStore M) (ms : Messages M)
    (accepts : List (Text × Text) → Sent) (req : Request) where
  -- However the agent's events, the store and the client behave, a streamed turn that holds its
  -- token and has not panicked puts exactly one answer on `done`, gives the token of the limiter back
  -- exactly once, returns, and ends its request once; or SendToClient has panicked, and then no answer
  -- is put on `done`, the token is kept, and the turn neither returns nor ends its request.
  pub stream_turn-answers_once :
      (t : Turn (Streaming p A)) (events : List (AgentEvent M (ChatError A)))
      → t.client.is_released ≡ false
      → t.client.is_panicked ≡ false
      → let (t', outcome) = stream_turn p ms accepts req t events in
        let lost = t'.client.is_panicked in
        (length t'.client.done ≡ length t.client.done + (if lost then 0 else 1))
        × (t'.client.limiter ≡ (if lost then t.client.limiter else release t.client.limiter))
        × (t'.ended ≡ t.ended + (if lost then 0 else 1))
        × (is_some outcome ≡ not lost)
  unfolding stream_turn wrapped_emit Over
  stream_turn-answers_once t events held runs =
      let (once, _) =
        handle_agent_events-ends_once (stream_emit p ms accepts req) nil_stream_error t events in
      elim (handle_agent_events-Returned (stream_emit p ms accepts req) nil_stream_error
        (λ t'. Open p ms accepts req t.client t'.client ⊎ Lost p ms accepts req t.client t'.client)
        (λ t'. Over p ms accepts req t.client t'.client)
        (λ t' m h.
          Fine-Lands p ms accepts req t.client
            (wrapped_emit (stream_emit p ms accepts req) nil_stream_error t'
              (record { message = some m; error = none; is_done = false }))
            (message-Lands p ms accepts req t.client t'.client m h))
        (λ t' e h. error-Over p ms accepts req t.client t'.client e h)
        (λ t' h. completed-Over p ms accepts req t.client t'.client h) t events
        (inl (record { done = refl; limiter = refl; released = held; runs = runs }))) [
          | inl a ↦ (
            ground (arith, a.runs, ap length a.done ∙ length-append t.client.done (a.answer ∷ [])),
            ground (arith, a.runs, a.limiter),
            ground (arith, a.runs, once),
            ground (arith, a.runs),
          )
          | inr l ↦ (
            ground (arith, l.panics, ap length l.done),
            ground (arith, l.panics, l.limiter),
            ground (arith, l.panics),
            ground (arith, l.panics),
          )
        ]
