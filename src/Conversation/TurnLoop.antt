-- ===== src/Conversation/TurnLoop.antt =====
-- TurnLoopSession of internal/conversation/turn_loop.go. Eino's loop calls GenInput on the queued
-- requests and OnAgentEvents on the events of a turn; both are the functions below. A request sends
-- its events through a callback of the caller, here a function on the callers' state.
pub mod Turns
pub mod Invariant
pub mod Returns
mod Tests
use on_call_agent.Base.{
  ℕ, suc, ◌+◌, ◌-◌, ◌≤◌, Bool, true, false, not, ◌&&◌, ◌||◌, List, [], ◌∷◌, ◌++◌, Option, none,
  some, if◌then◌else◌, leb, ◌==◌, Result, ok, err, is_empty,
}

-- TurnEvent, for messages `M` and errors `E`.
pub record TurnEvent (M E : Type 0) : Type 0 where
  pub message : Option M
  pub error : Option E
  pub is_done : Bool

-- The fields of a session that its methods change; `active` counts the requests not yet ended.
pub record Session : Type 0 where
  pub stopped : Bool
  pub active : ℕ
  pub last_used : ℕ

-- IsIdleSince. (A time made by time.Unix is never the zero time.)
unfoldable pub is_idle_since : Session → ℕ → ℕ → Bool
is_idle_since s now idle =
    if idle == 0 || s.stopped || not (s.active == 0) then false else leb (s.last_used + idle) now

-- The guards of push, in order, with what the loop answered.
pub data Pushed : Type 0 where
  input_missing context_ended loop_stopped accepted : Pushed

-- TurnLoopSession.push
unfoldable pub push : Session → Bool → Bool → ℕ → Bool → Session × Pushed
push s has_input live now loop_accepts =
    if not has_input
    then (s, input_missing)
    else if not live
    then (s, context_ended)
    else if s.stopped
    then (s, loop_stopped)
    else if loop_accepts
    then (record s { active = s.active + 1; last_used = now }, accepted)
    else (record s { last_used = now }, loop_stopped)

-- A message from the agent's stream; the end of the list is io.EOF.
pub data Recv (M E : Type 0) : Type 0 where
  chunk : M → Recv M E
  recv_error : E → Recv M E

pub data Stream (M E : Type 0) : Type 0 where
  not_streaming : Stream M E
  nil_stream : Stream M E
  stream : List (Recv M E) → Stream M E

-- adk.AgentEvent as far as handleAgentEvents looks at it.
pub data AgentEvent (M E : Type 0) : Type 0 where
  nil_event : AgentEvent M E
  failed : E → AgentEvent M E
  no_output : AgentEvent M E
  output : Stream M E → Option M → AgentEvent M E

-- Where a handler stands: it goes on, or it has returned.
pub data Outcome (E : Type 0) : Type 0 where
  goes_on : Outcome E
  returned : Option E → Outcome E

-- The callers' state, with the number of times that `active` was decremented.
pub record Turn (S : Type 0) : Type 0 where
  pub client : S
  pub ended : ℕ

abbrev pub is_some {ℓ} : {A : Type ℓ} → Option A → Bool
is_some none = false
is_some (some a) = true

-- `TurnEvent{Err: err, Done: true}`
module _ {M E : Type 0} where
  abbrev pub terminal : E → TurnEvent M E
  terminal e = record { message = none; error = some e; is_done = true }

module _ {S M E : Type 0} (emit : S → TurnEvent M E → S × Option E) (nil_stream_error : E) where
  -- wrappedEmit of push
  unfoldable pub wrapped_emit : Turn S → TurnEvent M E → Turn S × Option E
  wrapped_emit t event =
      let (client', e) = emit t.client event in
      (
        record {
          client = client';
          ended =
              if event.is_done || is_some event.error || is_some e then t.ended + 1 else t.ended;
        },
        e,
      )

  abbrev pub completed : TurnEvent M E
  completed = record { message = none; error = none; is_done = true }

  abbrev pub carries : M → TurnEvent M E
  carries m = record { message = some m; error = none; is_done = false }

  -- `if err := emit(m); err != nil { return err }`
  unfoldable pub send : Turn S → M → Turn S × Outcome E
  send t m =
      let (t', e) = wrapped_emit t (carries m) in
      (t', elim e [ none ↦ goes_on | some e ↦ returned (some e) ])

  -- `return emit(event)`
  unfoldable pub finish : Turn S → TurnEvent M E → Turn S × Outcome E
  finish t event = let (t', e) = wrapped_emit t event in (t', returned e)

  -- The loop over MessageStream.Recv.
  unfoldable pub receive : Turn S → List (Recv M E) → Turn S × Outcome E
  receive t [] = (t, goes_on)
  receive t (recv_error e ∷ more) = finish t (terminal e)
  receive t (chunk m ∷ more) =
      let (t', r) = send t m in
      let rest = receive t' more in elim r [ goes_on ↦ rest | returned e ↦ (t', returned e) ]

  unfoldable pub handle_stream : Turn S → Stream M E → Turn S × Outcome E
  handle_stream t not_streaming = (t, goes_on)
  handle_stream t nil_stream = finish t (terminal nil_stream_error)
  handle_stream t (stream recvs) = receive t recvs

  unfoldable pub handle_message : Turn S → Option M → Turn S × Outcome E
  handle_message t none = (t, goes_on)
  handle_message t (some m) = send t m

  -- One event in handleAgentEvents.
  unfoldable pub handle_event : Turn S → AgentEvent M E → Turn S × Outcome E
  handle_event t nil_event = (t, goes_on)
  handle_event t (failed e) = finish t (terminal e)
  handle_event t no_output = (t, goes_on)
  handle_event t (output s message) =
      let (t', r) = handle_stream t s in
      elim r [ goes_on ↦ handle_message t' message | returned e ↦ (t', returned e) ]

  -- handleAgentEvents, with the one consumed request; the list ends where the iterator does.
  unfoldable pub handle_agent_events : Turn S → List (AgentEvent M E) → Turn S × Outcome E
  handle_agent_events t [] = finish t completed
  handle_agent_events t (event ∷ events) =
      let (t', r) = handle_event t event in
      let rest = handle_agent_events t' events in
      elim r [ goes_on ↦ rest | returned e ↦ (t', returned e) ]

-- A queued turnRequest: its callback is told by `id`, and its input is given or built when its turn
-- comes. A nil input is the empty list.
pub record Request (S M E : Type 0) : Type 0 where
  pub id : ℕ
  pub resolve : S → S × Result E (List M)

module _ {S M E : Type 0} (emit : S → ℕ → TurnEvent M E → S × Option E) (turn_input_error : E) where
  -- The input of a request, where an empty one is an error too.
  abbrev pub usable : Result E (List M) → Result E (List M)
  usable (err e) = err e
  usable (ok []) = err turn_input_error
  usable (ok (m ∷ ms)) = ok (m ∷ ms)

  -- GenInput's loop: `before` are the items already passed over.
  unfoldable pub gen_from :
      S
      → List (Request S M E)
      → List (Request S M E)
      → S × Result E (Request S M E × List M × List (Request S M E))
  gen_from s before [] = (s, err turn_input_error)
  gen_from s before (item ∷ rest) =
      let (s', input) = item.resolve s in
      elim (usable input) [
        | ok messages ↦ (s', ok (item, messages, before ++ rest))
        | err e ↦
            (let (s'', x) = emit s' item.id (terminal e) in
              let next = gen_from s'' (before ++ item ∷ []) rest in
              elim x [ some e' ↦ (s'', err e') | none ↦ next ])
      ]

  -- GenInput: the consumed request, its messages, and what stays queued.
  unfoldable pub gen_input :
      S → List (Request S M E) → S × Result E (Request S M E × List M × List (Request S M E))
  gen_input s items = gen_from s [] items
