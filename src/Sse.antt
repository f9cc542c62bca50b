-- ===== src/Sse.antt =====
-- Server-sent events to one client, internal/logic/sse/sse.go. The writer's goroutine and the handler
-- share the channel and the context, so the operations are steps on one state; where several cases of
-- a `select` are ready Go picks one of them, and `picks_done` says whether that is the context's.
pub mod Order
pub mod Draining
pub mod Reading
mod Tests
use on_call_agent.Base.{
  ◌⊎◌, inl, inr, refl, ◌≡◌, ℕ, zero, suc, Bool, true, false, not, ◌&&◌, ◌||◌, List, [], ◌∷◌, ◌++◌,
  Option, none, some, ℤ, pos, negsuc, if◌then◌else◌, ltb, Text, codes, is_empty, Result, ok, err,
  length,
}

pub data SseError : Type 0 where
  unavailable : SseError

-- `queue` is what the channel holds, `is_finished` that the writer has closed `finished`, `written`
-- what it has written to the response.
pub record Client : Type 0 where
  pub id : Text
  pub capacity : ℕ
  pub queue : List Text
  pub is_closed : Bool
  pub is_cancelled : Bool
  pub is_finished : Bool
  pub written : List Text

-- NewWithBuffer: the size of the buffers.
unfoldable pub new_with_buffer : ℤ → ℕ
new_with_buffer (pos (suc n)) = suc n
new_with_buffer (pos zero) = 100
new_with_buffer (negsuc n) = 100

-- The event that tells the client its id.
abbrev pub connected_event : Text → Text
connected_event id =
    codes "id: "
    ++ id
    ++ codes "\nevent: connected\ndata: {\"status\": \"connected\", \"client_id\": \""
    ++ id
    ++ codes "\"}\n\n"

-- Create, with the client id that the request asks for or that was made up for it.
unfoldable pub create : ℕ → Option Text → Result SseError Client
create capacity none = err unavailable
create capacity (some id) = ok (record {
  id = id;
  capacity = capacity;
  queue = [];
  is_closed = false;
  is_cancelled = false;
  is_finished = false;
  written = connected_event id ∷ [];
})

-- formatEvent at one time, which is given as it is printed.
unfoldable pub format_event : Text → Text → Text → Text
format_event now event data_text =
    codes "id: "
    ++ (now ++ (codes "\nevent: " ++ (event ++ (codes "\ndata: " ++ (data_text ++ codes "\n\n")))))

-- What SendToClient does: it answers true or false, or the send on the closed channel panics.
pub data Sent : Type 0 where
  accepted rejected panicked : Sent

pub Sent-cases : (r : Sent) → (r ≡ accepted) ⊎ ((r ≡ rejected) ⊎ (r ≡ panicked))
Sent-cases accepted = inl refl
Sent-cases rejected = inr (inl refl)
Sent-cases panicked = inr (inr refl)

-- A send on the channel does not block: there is room, or the channel is closed.
abbrev pub can_send : Client → Bool
can_send c = c.is_closed || ltb (length c.queue) c.capacity

-- The `select` of SendToClient.
unfoldable pub select_send : Bool → Client → Text → Client × Sent
select_send picks_done c payload =
    if c.is_cancelled && (picks_done || not (can_send c))
    then (c, rejected)
    else if c.is_closed
    then (c, panicked)
    else if can_send c
    then (record c { queue = c.queue ++ payload ∷ [] }, accepted)
    else (record c { is_cancelled = true }, rejected)

-- SendToClient; a nil client or request is `none`.
unfoldable pub send_to_client : Bool → Option Client → Text → Text → Text → Option Client × Sent
unfolding select_send
send_to_client picks_done none now event data_text = (none, rejected)
send_to_client picks_done (some c) now event data_text =
    let (c', sent) = select_send picks_done c (format_event now event data_text) in (some c', sent)

-- What Finish does before it waits for the writer; closing a second time is left out.
unfoldable pub finish : Client → Client
finish c = record c { is_closed = true }

-- The request's context is cancelled.
unfoldable pub leave : Client → Client
leave c = record c { is_cancelled = true }

-- One turn of writeLoop: `none` when it waits, or when it is over.
unfoldable pub write_step : Bool → Client → Option Client
write_step picks_done c =
    if c.is_finished
    then none
    else if c.is_cancelled && (picks_done || (is_empty c.queue && not c.is_closed))
    then some (record c { is_finished = true })
    else (elim c.queue [
      | [] ↦ if c.is_closed then some (record c { is_finished = true }) else none
      | payload ∷ rest ↦ some (record c { queue = rest; written = c.written ++ payload ∷ [] })
    ])

-- writeLoop without the handler: at most the given number of turns.
unfoldable pub write_loop : ℕ → (ℕ → Bool) → Client → Client
write_loop zero picks_done c = c
write_loop (suc fuel) picks_done c = elim (write_step (picks_done fuel) c) [
  | none ↦ c
  | some c' ↦ write_loop fuel picks_done c'
]

-- What the handler, the writer and the client's side do to one another, with the events accepted so
-- far.
pub data Run : Client → List Text → Client → Type 0 where
  start : (c : Client) → Run c [] c
  sends :
      {c : Client} {events : List Text} {c' : Client} (picks_done : Bool) (payload : Text)
      → Run c events c'
      → (select_send picks_done c' payload).1 ≡ accepted
      → Run c (events ++ payload ∷ []) (select_send picks_done c' payload).0
  send_fails :
      {c : Client} {events : List Text} {c' : Client} (picks_done : Bool) (payload : Text)
      → Run c events c'
      → (select_send picks_done c' payload).1 ≡ rejected
      → Run c events (select_send picks_done c' payload).0
  writes :
      {c : Client} {events : List Text} {c' c'' : Client} (picks_done : Bool)
      → Run c events c'
      → write_step picks_done c' ≡ some c''
      → Run c events c''
  finishes :
      {c : Client} {events : List Text} {c' : Client} → Run c events c' → Run c events (finish c')
  leaves :
      {c : Client} {events : List Text} {c' : Client} → Run c events c' → Run c events (leave c')
