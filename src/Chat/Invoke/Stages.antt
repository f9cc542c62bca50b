-- ===== src/Chat/Invoke/Stages.antt =====
-- Where a turn without a stream stands: it goes on, it is blocked on its channel, or it has a reply.
use on_call_agent.Base.{
  Bool-cases, Option-cases, Option, ap, ◌∙◌, ℕ, ◌≡◌, ◌⊎◌, inl, inr, refl, true, false, [], ◌∷◌,
  ◌++◌, none, some, arith, Text, is_empty, Result, ok, err,
}
use on_call_agent.Conversation.Interface.{ConversationStore}
use on_call_agent.Conversation.Limiter.{release}
use on_call_agent.Conversation.TurnLoop.{TurnEvent, is_some}
use on_call_agent.Chat.Turns.{ChatError, Messages, append_turn}
use on_call_agent.Chat.Stream.{Request}
use on_call_agent.Chat.Invoke.{Answering, reply, hear, settle_event, pass_on, invoke_emit, has_room}
use on_call_agent.Chat.Invoke.Events.{all_wait, all_wait-append, reply-append, has_room-all_wait}

module _ {M A : Type 0} (p : ConversationStore M) (ms : Messages M) (req : Request)
    (c0 : Answering p A) (ended0 : ℕ) where
  -- The turn goes on: the reader waits, nothing is stored, and the token is held.
  pub record Waiting (c : Answering p A) : Type 0 where
    pub waits : all_wait c.events ≡ true
    pub untouched : c.store ≡ c0.store
    pub held : c.is_released ≡ false
    pub token : c.limiter ≡ c0.limiter
    pub leaves : c.leaves ≡ c0.leaves
    pub runs : c.is_blocked ≡ false

  -- A send on the channel has blocked it, which needs a reader that left.
  pub record Blocked (c : Answering p A) : Type 0 where
    pub waits : all_wait c.events ≡ true
    pub blocked : c.is_blocked ≡ true
    pub gone : (c0.is_blocked ≡ true) ⊎ (is_some c0.leaves ≡ true)

  -- A turn answered with a text was stored with it.
  pub record Committed (c : Answering p A) (text : Text) : Type 0 where
    pub spoke : is_empty text ≡ false
    pub stored :
        append_turn p c0.store req.turn_context req.later_context req.key req.idempotency_key
          (ms.user_message req.question)
          (ms.assistant_message text)
        ≡ (c.store, ok tt)

  -- What the caller of a turn that has ended is told.
  pub record Replied (c : Answering p A) : Type 0 where
    pub result : Result (ChatError A) Text
    pub replied : reply c.answer c.events ≡ some result
    pub token : c.limiter ≡ release c0.limiter
    pub runs : c.is_blocked ≡ false
    pub kept : (text : Text) → result ≡ ok text → Committed c text

  -- A channel that has no room has lost its reader.
  gone_lem :
      (c : Answering p A)
      → Waiting c
      → has_room c.leaves c.events ≡ false
      → is_some c0.leaves ≡ true
  gone_lem c w full = elim (Option-cases c0.leaves) [
    | inr (n, q) ↦ ground (arith, q)
    | inl q ↦
        let e : c.leaves ≡ none = w.leaves ∙ q in
        absurd (ground (arith, e, full, has_room-all_wait c.events w.waits))
  ]

  pub message-Waiting :
      (c : Answering p A) (m : M)
      → Waiting c ⊎ Blocked c
      → let c' =
          (invoke_emit p ms req c (record { message = some m; error = none; is_done = false })).0 in
        Waiting c' ⊎ Blocked c'
  unfolding invoke_emit settle_event hear pass_on
  message-Waiting c m (inl w) = elim (Bool-cases (has_room c.leaves c.events)) [
    | inl room ↦ inl (record {
      waits = ground (
        arith,
        w.runs,
        room,
        all_wait-append c.events (record { message = some m; error = none; is_done = false })
            w.waits refl,
      );
      untouched = ground (arith, w.runs, room, w.untouched);
      held = ground (arith, w.runs, room, w.held);
      token = ground (arith, w.runs, room, w.token);
      leaves = ground (arith, w.runs, room, w.leaves);
      runs = ground (arith, w.runs, room);
    })
    | inr full ↦ inr (record {
      waits = ground (arith, w.runs, full, w.waits);
      blocked = ground (arith, w.runs, full);
      gone = inr (gone_lem c w full);
    })
  ]
  message-Waiting c m (inr b) = inr (record {
    waits = ground (arith, b.blocked, b.waits);
    blocked = ground (arith, b.blocked);
    gone = b.gone;
  })

  -- What storing the answer leaves as it was.
  pub record Kept (c c' : Answering p A) : Type 0 where
    pub answer : c'.answer ≡ c.answer
    pub events : c'.events ≡ c.events
    pub limiter : c'.limiter ≡ c.limiter
    pub released : c'.is_released ≡ c.is_released
    pub leaves : c'.leaves ≡ c.leaves
    pub blocked : c'.is_blocked ≡ c.is_blocked

  abbrev pub ended_with : Option (ChatError A) → TurnEvent M (ChatError A)
  ended_with e = record { message = none; error = e; is_done = true }

  pass_on-Blocked :
      (c c' : Answering p A) (e : Option (ChatError A))
      → Waiting c
      → Kept c c'
      → has_room c.leaves c.events ≡ false
      → Blocked (pass_on p ms req c' (ended_with e))
  unfolding pass_on
  pass_on-Blocked c c' e w k full =
      let full' : has_room c'.leaves c'.events ≡ false =
        ap (λ n. has_room n c'.events) k.leaves ∙ ap (has_room c.leaves) k.events ∙ full in
      let held : c'.is_released ≡ false = k.released ∙ w.held in
      record {
        waits = ground (arith, held, full', ap all_wait k.events, w.waits);
        blocked = ground (arith, held, full');
        gone = inr (gone_lem c w full);
      }

  -- What the pass of the last event makes of the fields, if the channel has room.
  pass_on-ended :
      (c c' : Answering p A) (e : Option (ChatError A))
      → Waiting c
      → Kept c c'
      → has_room c.leaves c.events ≡ true
      → pass_on p ms req c' (ended_with e) ≡ record c' {
        is_released = true;
        limiter = release c'.limiter;
        events = c'.events ++ ended_with e ∷ [];
      }
  unfolding pass_on
  pass_on-ended c c' e w k room =
      let room' : has_room c'.leaves c'.events ≡ true =
        ap (λ n. has_room n c'.events) k.leaves ∙ ap (has_room c.leaves) k.events ∙ room in
      let held : c'.is_released ≡ false = k.released ∙ w.held in ground (arith, held, room')

  -- The event that ends a turn is read, or blocks the turn.
  pub pass_on-Replied :
      (c c' : Answering p A) (e : Option (ChatError A))
      → Waiting c
      → Kept c c'
      → (e ≡ none
          → (text : Text) → c.answer ≡ text
          → (c'' : Answering p A) → c''.store ≡ c'.store
          → Committed c'' text)
      → Replied (pass_on p ms req c' (ended_with e)) ⊎ Blocked (pass_on p ms req c' (ended_with e))
  unfolding reply
  pass_on-Replied c c' e w k stored = elim (Bool-cases (has_room c.leaves c.events)) [
    | inr full ↦ inr (pass_on-Blocked c c' e w k full)
    | inl room ↦
        let passed = pass_on-ended c c' e w k room in
        let read =
          ap (λ (x : Answering p A). reply x.answer x.events) passed
          ∙ ap (λ a. reply a (c'.events ++ ended_with e ∷ [])) k.answer
          ∙ ap (λ xs. reply c.answer (xs ++ ended_with e ∷ [])) k.events
          ∙ reply-append c.answer c.events [] (ended_with e) w.waits in
        let token =
          ap (λ (x : Answering p A). x.limiter) passed ∙ ap release (k.limiter ∙ w.token) in
        let runs = ap (λ (x : Answering p A). x.is_blocked) passed ∙ k.blocked ∙ w.runs in
        elim (Option-cases e) [
          | inr (x, q) ↦ inl (record {
            result = err x;
            replied = ground (arith, read, q);
            token = token;
            runs = runs;
            kept = λ text h. absurd (ground (arith, h));
          })
          | inl q ↦ inl (record {
            result = ok c.answer;
            replied = ground (arith, read, q);
            token = token;
            runs = runs;
            kept = λ text h.
                stored q text (ground (arith, h)) _ (ap (λ (x : Answering p A). x.store) passed);
          })
        ]
  ]
