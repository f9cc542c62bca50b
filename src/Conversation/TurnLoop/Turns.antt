-- ===== src/Conversation/TurnLoop/Turns.antt =====
-- Every handled turn ends its request once, and what GenInput leaves in the queue.
use on_call_agent.Base.{
  ℕ, ◌+◌, ◌≡◌, refl, ◌∙◌, ap, inl, inr, true, List, [], ◌∷◌, ◌++◌, Option, none, some, arith, ok,
  err, append_assoc, Result-cases, Option-cases,
}
use on_call_agent.Conversation.TurnLoop.{
  TurnEvent, Recv, chunk, recv_error, Stream, not_streaming, nil_stream, stream, AgentEvent,
  nil_event, failed, no_output, output, Outcome, goes_on, returned, Turn, wrapped_emit, terminal,
  send, finish, receive, handle_stream, handle_message, handle_event, handle_agent_events, Request,
  gen_from, gen_input, usable,
}

module _ {E : Type 0} where
  -- How often a piece of a handler ends its request: once if it returns, and not otherwise.
  abbrev pub ends : Outcome E → ℕ
  ends goes_on = 0
  ends (returned e) = 1

module _ {S M E : Type 0} (emit : S → TurnEvent M E → S × Option E) (nil_stream_error : E) where
  send-ends :
      (t : Turn S) (m : M)
      → (send emit nil_stream_error t m).0.ended ≡ t.ended + ends (send emit nil_stream_error t m).1
  unfolding send wrapped_emit
  send-ends t m = ground arith

  finish-ends :
      (t : Turn S) (event : TurnEvent M E)
      → event.is_done ≡ true
      → (finish emit nil_stream_error t event).0.ended
        ≡ t.ended + ends (finish emit nil_stream_error t event).1
  unfolding finish wrapped_emit
  finish-ends t event e = ground arith

  receive-ends :
      (t : Turn S) (recvs : List (Recv M E))
      → (receive emit nil_stream_error t recvs).0.ended
        ≡ t.ended + ends (receive emit nil_stream_error t recvs).1
  unfolding receive
  receive-ends t [] = omega arith
  receive-ends t (recv_error e ∷ more) = finish-ends t (terminal e) refl
  receive-ends t (chunk m ∷ more) =
      ground (arith, send-ends t m, receive-ends (send emit nil_stream_error t m).0 more)

  handle_stream-ends :
      (t : Turn S) (s : Stream M E)
      → (handle_stream emit nil_stream_error t s).0.ended
        ≡ t.ended + ends (handle_stream emit nil_stream_error t s).1
  unfolding handle_stream
  handle_stream-ends t not_streaming = omega arith
  handle_stream-ends t nil_stream = finish-ends t (terminal nil_stream_error) refl
  handle_stream-ends t (stream recvs) = receive-ends t recvs

  handle_message-ends :
      (t : Turn S) (m : Option M)
      → (handle_message emit nil_stream_error t m).0.ended
        ≡ t.ended + ends (handle_message emit nil_stream_error t m).1
  unfolding handle_message
  handle_message-ends t none = omega arith
  handle_message-ends t (some m) = send-ends t m

  handle_event-ends :
      (t : Turn S) (event : AgentEvent M E)
      → (handle_event emit nil_stream_error t event).0.ended
        ≡ t.ended + ends (handle_event emit nil_stream_error t event).1
  unfolding handle_event
  handle_event-ends t nil_event = omega arith
  handle_event-ends t (failed e) = finish-ends t (terminal e) refl
  handle_event-ends t no_output = omega arith
  handle_event-ends t (output s m) = ground (
    arith,
    handle_stream-ends t s,
    handle_message-ends (handle_stream emit nil_stream_error t s).0 m,
  )

  -- Whatever events the agent sends and whatever the caller's callback answers, handling a turn
  -- returns and decrements the count of active requests exactly once.
  pub handle_agent_events-ends_once :
      (t : Turn S) (events : List (AgentEvent M E))
      → ((handle_agent_events emit nil_stream_error t events).0.ended ≡ t.ended + 1)
        × (ends (handle_agent_events emit nil_stream_error t events).1 ≡ 1)
  unfolding handle_agent_events finish
  handle_agent_events-ends_once t [] = unfold wrapped_emit in ground arith
  handle_agent_events-ends_once t (event ∷ events) = ground (
    arith,
    handle_event-ends t event,
    handle_agent_events-ends_once (handle_event emit nil_stream_error t event).0 events,
  )

module _ {S M E : Type 0} (emit : S → ℕ → TurnEvent M E → S × Option E) (turn_input_error : E) where
  -- Cutting a queue at the consumed request.
  pub record Splits (before items : List (Request S M E)) (item : Request S M E)
      (rest : List (Request S M E)) : Type 0 where
    pub passed : List (Request S M E)
    pub behind : List (Request S M E)
    pub queue : items ≡ passed ++ item ∷ behind
    pub remaining : rest ≡ before ++ (passed ++ behind)

  pass_over :
      (before : List (Request S M E)) (first : Request S M E) (items : List (Request S M E))
      (item : Request S M E) (rest : List (Request S M E))
      → Splits (before ++ first ∷ []) items item rest
      → Splits before (first ∷ items) item rest
  pass_over before first items item rest cut = record {
    passed = first ∷ cut.passed;
    behind = cut.behind;
    queue = ap (λ q. first ∷ q) cut.queue;
    remaining = cut.remaining ∙ append_assoc before (first ∷ []) (cut.passed ++ cut.behind);
  }

  -- GenInput takes one request out of the queue and keeps all others in their order.
  gen_from-Splits :
      (s : S) (before items : List (Request S M E)) (item : Request S M E) (messages : List M)
      (rest : List (Request S M E))
      → (gen_from emit turn_input_error s before items).1 ≡ ok (item, messages, rest)
      → Splits before items item rest
  unfolding gen_from
  gen_from-Splits s before [] item messages rest h = absurd (ground arith)
  gen_from-Splits s before (first ∷ items) item messages rest h =
      elim (Result-cases (usable emit turn_input_error (first.resolve s).1)) [
        | inl (ms, e) ↦ record {
          passed = [];
          behind = items;
          queue = ground (arith, e);
          remaining = ground (arith, e);
        }
        | inr (x, e) ↦ elim (Option-cases (emit (first.resolve s).0 first.id (terminal x)).1) [
          | inr (y, f) ↦ absurd (ground (arith, e, f))
          | inl f ↦ pass_over before first items item rest (
              gen_from-Splits (emit (first.resolve s).0 first.id (terminal x)).0
                (before ++ first ∷ []) items item messages rest (ground (arith, e, f)))
        ]
      ]

  -- A request whose input cannot be built is told that it is done, and stays in the queue if one
  -- behind it can run: it is what GenInput meets first the next time.
  gen_input-requeues :
      (s : S) (bad good : Request S M E) (behind : List (Request S M E)) (e : E) (m : M)
      (ms : List M)
      → (bad.resolve s).1 ≡ err e
      → let told = emit (bad.resolve s).0 bad.id (terminal e) in
        told.1 ≡ none
        → (good.resolve told.0).1 ≡ ok (m ∷ ms)
        → gen_input emit turn_input_error s (bad ∷ good ∷ behind)
          ≡ ((good.resolve told.0).0, ok (good, m ∷ ms, bad ∷ behind))
  unfolding gen_input gen_from
  gen_input-requeues s bad good behind e m ms b t g = ground (arith, b, t, g)
