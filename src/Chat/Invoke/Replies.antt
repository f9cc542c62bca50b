-- ===== src/Chat/Invoke/Replies.antt =====
-- A turn without a stream is replied to, and replied to with an answer only after it was stored.
use on_call_agent.Base.{
  Bool, if◌then◌else◌, ℕ, ◌≡◌, ◌⊎◌, inl, inr, refl, sym, ap, ◌∙◌, true, false, List, [], ◌∷◌, none,
  some, arith, Text, is_empty, Result, ok, Result-cases, Bool-cases,
}
use on_call_agent.Conversation.Interface.{ConversationStore}
use on_call_agent.Conversation.Limiter.{release}
use on_call_agent.Conversation.TurnLoop.{TurnEvent, Turn, AgentEvent, wrapped_emit, terminal}
use on_call_agent.Conversation.TurnLoop.Returns.{handle_agent_events-Returned}
use on_call_agent.Chat.Turns.{ChatError, nil_stream_error, Messages, append_turn}
use on_call_agent.Chat.Stream.{Request}
use on_call_agent.Chat.Invoke.{
  Answering, reply, hear, store_answer, settle_event, invoke_emit, invoke_turn,
}
use on_call_agent.Chat.Invoke.Events.{all_wait}
use on_call_agent.Chat.Invoke.Stages.{
  Waiting, Blocked, Kept, Committed, Replied, message-Waiting, pass_on-Replied, ended_with,
}

module _ {M A : Type 0} (p : ConversationStore M) (ms : Messages M) (req : Request)
    (c0 : Answering p A) (ended0 : ℕ) where
  store_answer-Kept : (c : Answering p A) → Kept p ms req c0 ended0 c (store_answer p ms req c).0
  unfolding store_answer
  store_answer-Kept c = record {
    answer = ground arith;
    events = ground arith;
    limiter = ground arith;
    released = ground arith;
    leaves = ground arith;
    blocked = ground arith;
  }

  store_answer-stores :
      (c : Answering p A)
      → (store_answer p ms req c).1 ≡ none
      → c.store ≡ c0.store
      → (is_empty c.answer ≡ false)
        × (append_turn p c0.store req.turn_context req.later_context req.key req.idempotency_key
              (ms.user_message req.question)
              (ms.assistant_message c.answer)
            ≡ ((store_answer p ms req c).0.store, ok tt))
  unfolding store_answer
  store_answer-stores c q same = elim (Bool-cases (is_empty c.answer)) [
    | inl blank ↦ absurd (ground (arith, q, blank))
    | inr spoke ↦
        elim (Result-cases
          (append_turn p c.store req.turn_context req.later_context req.key req.idempotency_key
            (ms.user_message req.question) (ms.assistant_message c.answer)).1) [
              | inr (e, f) ↦ absurd (ground (arith, q, spoke, f))
              | inl (u, f) ↦ (spoke, ground (arith, q, spoke, f, same))
            ]
  ]

  answer-Committed :
      (c c' : Answering p A) (text : Text)
      → (is_empty c.answer ≡ false)
        × (append_turn p c0.store req.turn_context req.later_context req.key req.idempotency_key
              (ms.user_message req.question)
              (ms.assistant_message c.answer)
            ≡ (c'.store, ok tt))
      → c.answer ≡ text
      → (c'' : Answering p A) → c''.store ≡ c'.store
      → Committed p ms req c0 ended0 c'' text
  answer-Committed c c' text (spoke, stored) e c'' same = record {
    spoke = ap is_empty (sym e) ∙ spoke;
    stored = ground (
      arith,
      stored,
      same,
      ap
          (λ a.
            append_turn p c0.store req.turn_context req.later_context req.key req.idempotency_key
              (ms.user_message req.question) (ms.assistant_message a))
          e,
    );
  }

  -- Which of two states a turn is in.
  in_first :
      (P : Answering p A → Type 0) (b : Bool) (x y : Answering p A)
      → b ≡ true
      → P x
      → P (if b then x else y)
  in_first P true x y e h = h
  in_first P false x y e h = absurd (ground (arith, e))

  in_second :
      (P : Answering p A → Type 0) (b : Bool) (x y : Answering p A)
      → b ≡ false
      → P y
      → P (if b then x else y)
  in_second P false x y e h = h
  in_second P true x y e h = absurd (ground (arith, e))

  abbrev Over : Answering p A → Type 0
  Over c = Replied p ms req c0 ended0 c ⊎ Blocked p ms req c0 ended0 c

  -- The end of the events, and an error before it.
  completed-Replied :
      (c : Answering p A)
      → Waiting p ms req c0 ended0 c ⊎ Blocked p ms req c0 ended0 c
      → Over (invoke_emit p ms req c (ended_with p ms req c0 ended0 none)).0
  unfolding invoke_emit settle_event hear
  completed-Replied c (inl w) = in_second Over c.is_blocked c _ w.runs (
      pass_on-Replied p ms req c0 ended0 c (store_answer p ms req c).0 (store_answer p ms req c).1 w
        (store_answer-Kept c)
        λ q text h c'' same.
          answer-Committed c (store_answer p ms req c).0 text (store_answer-stores c q w.untouched)
            h c'' same)
  completed-Replied c (inr b) = in_first Over c.is_blocked c _ b.blocked (inr b)

  error-Replied :
      (c : Answering p A) (e : ChatError A)
      → Waiting p ms req c0 ended0 c ⊎ Blocked p ms req c0 ended0 c
      → Over (invoke_emit p ms req c (terminal e)).0
  unfolding invoke_emit settle_event hear
  error-Replied c e (inl w) = in_second Over c.is_blocked c _ w.runs (
      pass_on-Replied p ms req c0 ended0 c c (some e) w
        (record {
          answer = refl;
          events = refl;
          limiter = refl;
          released = refl;
          leaves = refl;
          blocked = refl;
        })
        λ q. absurd (ground (arith, q)))
  error-Replied c e (inr b) = in_first Over c.is_blocked c _ b.blocked (inr b)

module _ {M A : Type 0} (p : ConversationStore M) (ms : Messages M) (req : Request)
    (t : Turn (Answering p A)) (events : List (AgentEvent M (ChatError A)))
    (quiet : t.client.events ≡ []) (held : t.client.is_released ≡ false) where
  start : Waiting p ms req t.client t.ended t.client ⊎ Blocked p ms req t.client t.ended t.client
  start = elim (Bool-cases t.client.is_blocked) [
    | inl stuck ↦ inr (record { waits = ap all_wait quiet; blocked = stuck; gone = inl stuck })
    | inr runs ↦ inl (record {
      waits = ap all_wait quiet;
      untouched = refl;
      held = held;
      token = refl;
      leaves = refl;
      runs = runs;
    })
  ]

  turn-Replied :
      Replied p ms req t.client t.ended (invoke_turn p ms req t events).0.client
      ⊎ Blocked p ms req t.client t.ended (invoke_turn p ms req t events).0.client
  unfolding invoke_turn wrapped_emit invoke_emit
  turn-Replied =
      handle_agent_events-Returned (invoke_emit p ms req) nil_stream_error
        (λ t'.
          Waiting p ms req t.client t.ended t'.client ⊎ Blocked p ms req t.client t.ended t'.client)
        (λ t'.
          Replied p ms req t.client t.ended t'.client ⊎ Blocked p ms req t.client t.ended t'.client)
        (λ t' m h. message-Waiting p ms req t.client t.ended t'.client m h)
        (λ t' e h. error-Replied p ms req t.client t.ended t'.client e h)
        (λ t' h. completed-Replied p ms req t.client t.ended t'.client h) t events start

  -- Whatever events the agent sends and however the store answers, a turn that starts with no events,
  -- holds its token and is not blocked, and whose caller waits for the reply, does not block on the
  -- channel of four events: it has a reply when it is over, an answer or an error, and has given the
  -- token back exactly once.
  pub invoke_turn-replies :
      t.client.is_blocked ≡ false
      → t.client.leaves ≡ none
      → let c = (invoke_turn p ms req t events).0.client in
        (c.is_blocked ≡ false)
        × ((result : Result (ChatError A) Text) × (reply c.answer c.events ≡ some result))
        × (c.limiter ≡ release t.client.limiter)
  invoke_turn-replies free stays = elim turn-Replied [
    | inl r ↦ (r.runs, (r.result, r.replied), r.token)
    | inr b ↦ elim b.gone [
      | inl stuck ↦ absurd (ground (arith, stuck, free))
      | inr left ↦ absurd (ground (arith, left, stays))
    ]
  ]

  all_wait-reply :
      (answer : Text) (xs : List (TurnEvent M (ChatError A)))
      → all_wait xs ≡ true
      → reply answer xs ≡ none
  unfolding reply
  all_wait-reply answer [] w = refl
  all_wait-reply answer (x ∷ xs) w = ground (arith, w, all_wait-reply answer xs (ground (arith, w)))

  -- If a turn that starts with no events and holds its token is replied to with an answer, then the
  -- answer is not empty and the store took the turn with that answer.
  pub invoke_turn-Committed :
      (text : Text)
      → reply
          (invoke_turn p ms req t events).0.client.answer
          (invoke_turn p ms req t events).0.client.events
        ≡ some (ok text)
      → Committed p ms req t.client t.ended (invoke_turn p ms req t events).0.client text
  invoke_turn-Committed text h = elim turn-Replied [
    | inl r ↦ r.kept text (ground (arith, h, r.replied))
    | inr b ↦
        let c = (invoke_turn p ms req t events).0.client in
        absurd (ground (arith, h, all_wait-reply c.answer c.events b.waits))
  ]
