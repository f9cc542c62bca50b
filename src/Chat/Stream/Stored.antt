-- ===== src/Chat/Stream/Stored.antt =====
-- A streamed turn that is answered with success was stored, with the text that the client was sent.
use on_call_agent.Base.{
  ◌≡◌, ◌⊎◌, inl, inr, ap, Bool, true, false, List, [], ◌∷◌, ◌++◌, Option, none, some, arith,
  if◌then◌else◌, Text, codes, is_empty, ok, Result-cases, Bool-cases, ◌=?◌, nat_eq, list_eq,
}
use on_call_agent.Sse.{Sent, accepted, rejected, panicked, Sent-cases}
use on_call_agent.Conversation.Interface.{ConversationStore}
use on_call_agent.Conversation.TurnLoop.{AgentEvent, Turn, wrapped_emit, terminal}
use on_call_agent.Conversation.TurnLoop.Invariant.{handle_agent_events-AtEnd}
use on_call_agent.Chat.Turns.{
  ChatError, empty_response, refused, client_unavailable, nil_stream_error, Messages, append_turn,
}
use on_call_agent.Chat.Stream.{
  Request, Streaming, release_once, send_event, finish_with, commit_stream, end_event, emit_event,
  stream_emit, stream_turn,
}

-- The text of the `message` events that were sent, the last one first.
unfoldable pub said : List (Text × Text) → Text
said [] = []
said ((event_type, text) ∷ earlier) =
    if event_type =? codes "message" then said earlier ++ text else said earlier

module _ {M A : Type 0} (p : ConversationStore M) (ms : Messages M)
    (accepts : List (Text × Text) → Sent) (req : Request) (s0 : p.State) where
  -- Nothing answered and nothing stored yet, and the text is what the client was sent.
  record Quiet (c : Streaming p A) : Type 0 where
    unanswered : c.done ≡ []
    untouched : c.store ≡ s0
    heard : c.full_response ≡ said c.sent

  -- The first answer is an error.
  record Failed (c : Streaming p A) : Type 0 where
    first : ChatError A
    rest : List (Option (ChatError A))
    answers : c.done ≡ some first ∷ rest

  -- What success promises.
  pub record Stored (c : Streaming p A) : Type 0 where
    pub spoke : is_empty c.full_response ≡ false
    pub sent_all : c.full_response ≡ said c.sent
    pub committed :
        append_turn p s0 req.turn_context req.later_context req.key req.idempotency_key
          (ms.user_message req.question)
          (ms.assistant_message c.full_response)
        ≡ (c.store, ok tt)

  finish_with-Failed :
      (c : Streaming p A) (e : ChatError A)
      → Quiet c ⊎ Failed c
      → Failed (finish_with p ms accepts req c (some e))
  unfolding finish_with release_once
  finish_with-Failed c e (inl q) = record {
    first = e;
    rest = [];
    answers = ground (arith, q.unanswered);
  }
  finish_with-Failed c e (inr f) = record {
    first = f.first;
    rest = f.rest ++ some e ∷ [];
    answers = ground (arith, f.answers);
  }

  abbrev Going : Streaming p A × Option (ChatError A) → Type 0
  Going x = Quiet x.0 ⊎ Failed x.0

  either_client :
      (r : Sent) (x y z : Streaming p A × Option (ChatError A))
      → Going x
      → Going y
      → Going z
      → Going (elim r as (λ s. Streaming p A × Option (ChatError A)) [
        | accepted ↦ x
        | rejected ↦ y
        | panicked ↦ z
      ])
  either_client accepted x y z h k l = h
  either_client rejected x y z h k l = k
  either_client panicked x y z h k l = l

  -- A callback that has panicked does nothing.
  unless_panicked :
      (c : Streaming p A) (x : Streaming p A × Option (ChatError A))
      → Going (c, none)
      → Going x
      → Going (if c.is_panicked then (c, none) else x)
  unless_panicked c x h k = at c.is_panicked
    where
      at :
          (b : Bool)
          → Going (if◌then◌else◌ {A = Streaming p A × Option (ChatError A)} b (c, none) x)
      at true = h
      at false = k

  message-Quiet :
      (c : Streaming p A) (m : M)
      → Quiet c ⊎ Failed c
      → let c' =
          (stream_emit p ms accepts req c
            (record { message = some m; error = none; is_done = false })).0 in
        Quiet c' ⊎ Failed c'
  unfolding stream_emit emit_event send_event end_event said
  message-Quiet c m h =
      let c' : Streaming p A = record c {
        full_response = c.full_response ++ ms.content m;
        sent = (codes "message", ms.content m) ∷ c.sent;
      } in
      let still : Quiet c' ⊎ Failed c' = elim h [
        | inl q ↦ inl (record {
          unanswered = q.unanswered;
          untouched = q.untouched;
          heard = ap (λ text. text ++ ms.content m) q.heard;
        })
        | inr f ↦ inr (record { first = f.first; rest = f.rest; answers = f.answers })
      ] in
      let gone : Quiet (record c' { is_panicked = true })
          ⊎ Failed (record c' { is_panicked = true }) =
        elim still [
          | inl q ↦
              inl (record { unanswered = q.unanswered; untouched = q.untouched; heard = q.heard })
          | inr f ↦ inr (record { first = f.first; rest = f.rest; answers = f.answers })
        ] in
      unless_panicked c _ h (
        either_client (accepts c.sent) (c', none)
          (finish_with p ms accepts req c' (some client_unavailable), some client_unavailable)
          (record c' { is_panicked = true }, none) still
          (inr (finish_with-Failed c' client_unavailable still)) gone)

  error-Failed :
      (c : Streaming p A) (e : ChatError A)
      → Quiet c ⊎ Failed c
      → Going (stream_emit p ms accepts req c (terminal e))
  unfolding stream_emit emit_event end_event
  error-Failed c e h =
      unless_panicked c (finish_with p ms accepts req c (some e), none) h
        (inr (finish_with-Failed c e h))

  -- Success comes only from the end of the events.
  commit_stream-Stored :
      (c : Streaming p A)
      → Quiet c
      → (commit_stream p ms accepts req c).0.done ≡ none ∷ []
      → Stored (commit_stream p ms accepts req c).0
  unfolding commit_stream send_event said finish_with release_once
  commit_stream-Stored c h d = elim (Bool-cases (is_empty c.full_response)) [
    | inl q ↦ absurd (ground (arith, q, d, h.unanswered))
    | inr q ↦
        elim (Result-cases
          (append_turn p c.store req.turn_context req.later_context req.key req.idempotency_key
            (ms.user_message req.question) (ms.assistant_message c.full_response)).1) [
              | inr (e, f) ↦ absurd (ground (arith, q, f, d, h.unanswered))
              | inl (u, f) ↦ elim (Sent-cases (accepts c.sent)) [
                | inr (inr gone) ↦ absurd (ground (arith, q, f, gone, d, h.unanswered))
                | inr (inl lost) ↦ absurd (ground (arith, q, f, lost, d, h.unanswered))
                | inl taken ↦ record {
                  spoke = ground (arith, q, f, taken);
                  sent_all = ground (arith, q, f, taken, h.heard);
                  committed = ground (arith, q, f, taken, h.untouched);
                }
              ]
            ]
  ]

  -- Its one answer, if there is one, stands behind those that were there.
  commit_stream-done :
      (c : Streaming p A)
      → ((commit_stream p ms accepts req c).0.done ≡ c.done)
        ⊎ ((x : Option (ChatError A)) × ((commit_stream p ms accepts req c).0.done
              ≡ c.done ++ x ∷ []))
  unfolding commit_stream send_event finish_with release_once
  commit_stream-done c = elim (Bool-cases (is_empty c.full_response)) [
    | inl q ↦ inr (some empty_response, ground (arith, q))
    | inr q ↦
        elim (Result-cases
          (append_turn p c.store req.turn_context req.later_context req.key req.idempotency_key
            (ms.user_message req.question) (ms.assistant_message c.full_response)).1) [
              | inr (e, f) ↦ inr (some (refused e), ground (arith, q, f))
              | inl (u, f) ↦ elim (Sent-cases (accepts c.sent)) [
                | inr (inr gone) ↦ inl (ground (arith, q, f, gone))
                | inr (inl lost) ↦ inr (some client_unavailable, ground (arith, q, f, lost))
                | inl taken ↦ inr (none, ground (arith, q, f, taken))
              ]
            ]
  ]

  commit-Stored :
      (c : Streaming p A)
      → Quiet c ⊎ Failed c
      → (commit_stream p ms accepts req c).0.done ≡ none ∷ []
      → Stored (commit_stream p ms accepts req c).0
  commit-Stored c (inl h) d = commit_stream-Stored c h d
  commit-Stored c (inr f) d = elim (commit_stream-done c) [
    | inl e ↦ absurd (ground (arith, f.answers, e, d))
    | inr (x, e) ↦ absurd (ground (arith, f.answers, e, d))
  ]

  return-Stored : (c : Streaming p A) → Quiet c ⊎ Failed c → c.done ≡ none ∷ [] → Stored c
  return-Stored c (inl h) d = absurd (ground (arith, h.unanswered, d))
  return-Stored c (inr f) d = absurd (ground (arith, f.answers, d))

  -- The end of the events, unless the callback has panicked.
  completed-Stored :
      (c : Streaming p A) (x : Streaming p A × Option (ChatError A))
      → Quiet c ⊎ Failed c
      → (x.0.done ≡ none ∷ [] → Stored x.0)
      → (b : Bool)
      → (if◌then◌else◌ {A = Streaming p A × Option (ChatError A)} b (c, none) x).0.done ≡ none ∷ []
      → Stored (if◌then◌else◌ {A = Streaming p A × Option (ChatError A)} b (c, none) x).0
  completed-Stored c x h k true d = return-Stored c h d
  completed-Stored c x h k false d = k d

  -- If before a streamed turn no answer was given and the text is what the client was sent, and if
  -- the answers after it are success alone, then the store that was there before took the turn, with
  -- a text that is not empty and is all the text that was sent to the client.
  pub stream_turn-Stored :
      (t : Turn (Streaming p A)) (events : List (AgentEvent M (ChatError A)))
      → t.client.done ≡ []
      → t.client.store ≡ s0
      → t.client.full_response ≡ said t.client.sent
      → (stream_turn p ms accepts req t events).0.client.done ≡ none ∷ []
      → Stored (stream_turn p ms accepts req t events).0.client
  unfolding stream_turn wrapped_emit stream_emit emit_event end_event
  stream_turn-Stored t events unanswered untouched heard d =
      handle_agent_events-AtEnd (stream_emit p ms accepts req) nil_stream_error
        (λ t'. Quiet t'.client ⊎ Failed t'.client)
        (λ t'. t'.client.done ≡ none ∷ [] → Stored t'.client)
        (λ t' m h. message-Quiet t'.client m h) (λ t' e h. error-Failed t'.client e h)
        (λ t' h.
          completed-Stored t'.client (commit_stream p ms accepts req t'.client) h
            (commit-Stored t'.client h) t'.client.is_panicked)
        (λ t' h. return-Stored t'.client h) t events
        (inl (record { unanswered = unanswered; untouched = untouched; heard = heard })) d
