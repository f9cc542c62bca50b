-- ===== src/Conversation/TurnLoop/Invariant.antt =====
-- What a callback keeps true while a turn's events are handled.
use on_call_agent.Base.{List, [], ◌∷◌, Option, none, some}
use on_call_agent.Conversation.TurnLoop.{
  TurnEvent, Recv, chunk, recv_error, Stream, not_streaming, nil_stream, stream, AgentEvent,
  nil_event, failed, no_output, output, Outcome, goes_on, returned, Turn, wrapped_emit, terminal,
  send, finish, receive, handle_stream, handle_message, handle_event, handle_agent_events, carries,
  completed,
}

module _ {S E : Type 0} (P : Turn S → Type 0) where
  -- A step that goes on or returns.
  either_way :
      (r : Outcome E) (t : Turn S) (rest : Turn S × Outcome E)
      → P rest.0
      → P t
      → P (elim r as (λ x. Turn S × Outcome E) [ goes_on ↦ rest | returned e ↦ (t, returned e) ]).0
  either_way goes_on t rest h k = h
  either_way (returned e) t rest h k = k

module _ {S M E : Type 0} (emit : S → TurnEvent M E → S × Option E) (nil_stream_error : E)
    (Holds AtEnd : Turn S → Type 0)
    (on_message : (t : Turn S) (m : M)
      → Holds t
      → Holds (wrapped_emit emit nil_stream_error t (carries emit nil_stream_error m)).0)
    (on_error : (t : Turn S) (e : E)
      → Holds t
      → Holds (wrapped_emit emit nil_stream_error t (terminal e)).0)
    (on_completed : (t : Turn S)
      → Holds t
      → AtEnd (wrapped_emit emit nil_stream_error t (completed emit nil_stream_error)).0)
    (on_return : (t : Turn S) → Holds t → AtEnd t) where
  receive-Holds :
      (t : Turn S) (recvs : List (Recv M E))
      → Holds t
      → Holds (receive emit nil_stream_error t recvs).0
  unfolding receive send finish
  receive-Holds t [] h = h
  receive-Holds t (recv_error e ∷ more) h = on_error t e h
  receive-Holds t (chunk m ∷ more) h =
      let next = on_message t m h in
      either_way Holds (send emit nil_stream_error t m).1 (send emit nil_stream_error t m).0
        (receive emit nil_stream_error (send emit nil_stream_error t m).0 more)
        (receive-Holds (send emit nil_stream_error t m).0 more next) next

  handle_message-Holds :
      (t : Turn S) (m : Option M) → Holds t → Holds (handle_message emit nil_stream_error t m).0
  unfolding handle_message send
  handle_message-Holds t none h = h
  handle_message-Holds t (some m) h = on_message t m h

  handle_stream-Holds :
      (t : Turn S) (s : Stream M E) → Holds t → Holds (handle_stream emit nil_stream_error t s).0
  unfolding handle_stream finish
  handle_stream-Holds t not_streaming h = h
  handle_stream-Holds t nil_stream h = on_error t nil_stream_error h
  handle_stream-Holds t (stream recvs) h = receive-Holds t recvs h

  handle_event-Holds :
      (t : Turn S) (event : AgentEvent M E)
      → Holds t
      → Holds (handle_event emit nil_stream_error t event).0
  unfolding handle_event finish
  handle_event-Holds t nil_event h = h
  handle_event-Holds t (failed e) h = on_error t e h
  handle_event-Holds t no_output h = h
  handle_event-Holds t (output s m) h =
      let (t', r) = handle_stream emit nil_stream_error t s in
      let next : Holds t' = handle_stream-Holds t s h in
      either_way Holds r t' (handle_message emit nil_stream_error t' m)
        (handle_message-Holds t' m next) next

  -- What every callback for a message or an error keeps true, and what the callback for the end of
  -- the events makes of it.
  pub handle_agent_events-AtEnd :
      (t : Turn S) (events : List (AgentEvent M E))
      → Holds t
      → AtEnd (handle_agent_events emit nil_stream_error t events).0
  unfolding handle_agent_events finish
  handle_agent_events-AtEnd t [] h = on_completed t h
  handle_agent_events-AtEnd t (event ∷ events) h =
      let (t', r) = handle_event emit nil_stream_error t event in
      let next : Holds t' = handle_event-Holds t event h in
      either_way AtEnd r t' (handle_agent_events emit nil_stream_error t' events)
        (handle_agent_events-AtEnd t' events next) (on_return t' next)
