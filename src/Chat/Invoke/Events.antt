-- ===== src/Chat/Invoke/Events.antt =====
-- Reading the events of a turn up to the one that ends it.
use on_call_agent.Base.{
  none, length, ◌≡◌, refl, Bool, true, ◌&&◌, not, List, [], ◌∷◌, ◌++◌, arith, Text,
}
use on_call_agent.Conversation.TurnLoop.{TurnEvent, is_some}
use on_call_agent.Chat.Turns.{ChatError}
use on_call_agent.Chat.Invoke.{reply, up_to_reply, taken_by, has_room}

module _ {M A : Type 0} where
  -- Whether an event lets the reader wait on.
  abbrev pub all_wait : List (TurnEvent M (ChatError A)) → Bool
  all_wait [] = true
  all_wait (event ∷ events) = not event.is_done && not (is_some event.error) && all_wait events

  -- The first event that ends the turn settles the reply, whatever comes behind it.
  pub reply-append :
      (answer : Text) (before rest : List (TurnEvent M (ChatError A)))
      (event : TurnEvent M (ChatError A))
      → all_wait before ≡ true
      → reply answer (before ++ event ∷ rest) ≡ reply answer (event ∷ rest)
  unfolding reply
  reply-append answer [] rest event w = refl
  reply-append answer (first ∷ before) rest event w =
      ground (arith, reply-append answer before rest event (ground arith))

  pub all_wait-append :
      (events : List (TurnEvent M (ChatError A))) (event : TurnEvent M (ChatError A))
      → all_wait events ≡ true
      → all_wait (event ∷ []) ≡ true
      → all_wait (events ++ event ∷ []) ≡ true
  all_wait-append [] event w d = d
  all_wait-append (first ∷ events) event w d =
      ground (arith, all_wait-append events event (ground arith) d)

  up_to_reply-all_wait :
      (events : List (TurnEvent M (ChatError A)))
      → all_wait events ≡ true
      → up_to_reply events ≡ length events
  unfolding up_to_reply
  up_to_reply-all_wait [] w = refl
  up_to_reply-all_wait (event ∷ events) w =
      ground (arith, w, up_to_reply-all_wait events (ground (arith, w)))

  -- While Chat waits for more, it has taken all that was sent.
  pub has_room-all_wait :
      (events : List (TurnEvent M (ChatError A)))
      → all_wait events ≡ true
      → has_room none events ≡ true
  unfolding has_room taken_by
  has_room-all_wait events w = ground (arith, up_to_reply-all_wait events w)
