-- ===== src/Conversation/TurnLoop/Returns.antt =====
-- What holds while a turn's events are handled, and what holds once the handler has returned.
use on_call_agent.Base.{List, [], ◌∷◌, Option, none, some}
use on_call_agent.Conversation.TurnLoop.{
  TurnEvent, Recv, chunk, recv_error, Stream, not_streaming, nil_stream, stream, AgentEvent,
  nil_event, failed, no_output, output, Outcome, goes_on, returned, Turn, wrapped_emit, terminal,
  send, finish, receive, handle_stream, handle_message, handle_event, handle_agent_events, carries,
  completed,
}

module _ {S E : Type 0} (Holds AtEnd : Turn S → Type 0) where
  -- A handler that goes on, or has returned.
  abbrev Stands : Turn S → Outcome E → Type 0
  Stands t goes_on = Holds t
  Stands t (returned e) = AtEnd t

  -- The same of what the callback answers.
  abbrev pub Lands : Turn S → Option E → Type 0
  Lands t none = Holds t
  Lands t (some e) = AtEnd t

  Lands-Stands :
      (t : Turn S) (e : Option E)
      → Lands t e
      → Stands t (elim e as (λ x. Outcome E) [ none ↦ goes_on | some e ↦ returned (some e) ])
  Lands-Stands t none h = h
  Lands-Stands t (some e) h = h

  -- One piece of a handler after another.
  Stands-then :
      (t : Turn S) (r : Outcome E) (rest : Turn S × Outcome E)
      → Stands t r
      → (Holds t → Stands rest.0 rest.1)
      → let next = elim r as (λ x. Turn S × Outcome E) [
        | goes_on ↦ rest
        | returned e ↦ (t, returned e)
      ] in
        Stands next.0 next.1
  Stands-then t goes_on rest h k = k h
  Stands-then t (returned e) rest h k = h

module _ {S M E : Type 0} (emit : S → TurnEvent M E → S × Option E) (nil_stream_error : E)
    (Holds AtEnd : Turn S → Type 0)
    (on_message : (t : Turn S) (m : M)
      → Holds t
      → let (t', e) = wrapped_emit emit nil_stream_error t (carries emit nil_stream_error m) in
        Lands Holds AtEnd t' e)
    (on_error : (t : Turn S) (e : E)
      → Holds t
      → AtEnd (wrapped_emit emit nil_stream_error t (terminal e)).0)
    (on_completed : (t : Turn S)
      → Holds t
      → AtEnd (wrapped_emit emit nil_stream_error t (completed emit nil_stream_error)).0) where
  abbrev Good : Turn S × Outcome E → Type 0
  Good x = Stands Holds AtEnd x.0 x.1

  send-Stands : (t : Turn S) (m : M) → Holds t → Good (send emit nil_stream_error t m)
  unfolding send
  send-Stands t m h = Lands-Stands Holds AtEnd _ _ (on_message t m h)

  receive-Stands :
      (t : Turn S) (recvs : List (Recv M E))
      → Holds t
      → Good (receive emit nil_stream_error t recvs)
  unfolding receive finish
  receive-Stands t [] h = h
  receive-Stands t (recv_error e ∷ more) h = on_error t e h
  receive-Stands t (chunk m ∷ more) h =
      Stands-then Holds AtEnd _ _ _ (send-Stands t m h)
        (receive-Stands (send emit nil_stream_error t m).0 more)

  handle_message-Stands :
      (t : Turn S) (m : Option M) → Holds t → Good (handle_message emit nil_stream_error t m)
  unfolding handle_message
  handle_message-Stands t none h = h
  handle_message-Stands t (some m) h = send-Stands t m h

  handle_stream-Stands :
      (t : Turn S) (s : Stream M E) → Holds t → Good (handle_stream emit nil_stream_error t s)
  unfolding handle_stream finish
  handle_stream-Stands t not_streaming h = h
  handle_stream-Stands t nil_stream h = on_error t nil_stream_error h
  handle_stream-Stands t (stream recvs) h = receive-Stands t recvs h

  handle_event-Stands :
      (t : Turn S) (event : AgentEvent M E)
      → Holds t
      → Good (handle_event emit nil_stream_error t event)
  unfolding handle_event finish
  handle_event-Stands t nil_event h = h
  handle_event-Stands t (failed e) h = on_error t e h
  handle_event-Stands t no_output h = h
  handle_event-Stands t (output s m) h =
      Stands-then Holds AtEnd _ _ _ (handle_stream-Stands t s h)
        (handle_message-Stands (handle_stream emit nil_stream_error t s).0 m)

  at_end :
      (t : Turn S) (r : Outcome E) (rest : Turn S × Outcome E)
      → Stands Holds AtEnd t r
      → (Holds t → AtEnd rest.0)
      → AtEnd
          (elim r as (λ x. Turn S × Outcome E) [ goes_on ↦ rest | returned e ↦ (t, returned e) ]).0
  at_end t goes_on rest h k = k h
  at_end t (returned e) rest h k = h

  -- What each message keeps true as long as the handler goes on, and what the message, the error or
  -- the end of the events at which it returns makes of that.
  pub handle_agent_events-Returned :
      (t : Turn S) (events : List (AgentEvent M E))
      → Holds t
      → AtEnd (handle_agent_events emit nil_stream_error t events).0
  unfolding handle_agent_events finish
  handle_agent_events-Returned t [] h = on_completed t h
  handle_agent_events-Returned t (event ∷ events) h =
      at_end _ _ _ (handle_event-Stands t event h)
        (handle_agent_events-Returned (handle_event emit nil_stream_error t event).0 events)
