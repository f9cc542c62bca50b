-- ===== src/Sse/Tests.antt =====
-- A client with room for two events.
use on_call_agent.Base.{
  ◌≡◌, refl, ℕ, zero, suc, Bool, true, false, List, [], ◌∷◌, ◌++◌, some, none, Text, codes, Result,
  ok, is_empty, length, nat_eq, list_eq, arith,
}
use on_call_agent.Sse.{
  Client, Run, start, sends, create, select_send, rejected, panicked, write_loop, finish,
  connected_event, send_to_client, format_event,
}
use on_call_agent.Sse.Draining.{write_loop-ends, finish-delivers}
use on_call_agent.Sse.Reading.{
  Reader, read_stream, read_lines, read_line, read_data, is_blank, events_for,
  read_stream-events_for,
}

abbrev opened : Client
opened = record {
  id = codes "c";
  capacity = 2;
  queue = [];
  is_closed = false;
  is_cancelled = false;
  is_finished = false;
  written = connected_event (codes "c") ∷ [];
}

abbrev sent : Client
sent = record opened { queue = codes "one" ∷ codes "two" ∷ [] }

abbrev at_random : ℕ → Bool
at_random n = true

two_sends : Run opened (codes "one" ∷ codes "two" ∷ []) sent
unfolding select_send
two_sends =
    sends {events = codes "one" ∷ []} {c' = record opened { queue = codes "one" ∷ [] }} true
      (codes "two") (sends {events = []} true (codes "one") (start opened) refl) refl

-- The channel is full: the client is given up.
third_rejected : (select_send true sent (codes "three")).1 ≡ rejected
unfolding select_send
third_rejected = refl

-- A send after Finish panics while the context is alive.
send_after_finish : (send_to_client true (some (finish opened)) [] (codes "error") []).1 ≡ panicked
unfolding send_to_client finish
send_after_finish = refl

write_loop-ends_example : (write_loop 3 at_random (finish sent)).is_finished ≡ true
write_loop-ends_example = write_loop-ends at_random 3 sent (omega arith)

finish-delivers_example :
    (write_loop 3 at_random (finish sent)).written
    ≡ connected_event (codes "c") ∷ codes "one" ∷ codes "two" ∷ []
unfolding create
finish-delivers_example = finish-delivers 2 (codes "c") refl two_sends refl at_random

abbrev reader : Reader
reader = record { current_event = []; full_response = []; is_over = false }

-- What follows a newline in a piece is lost.
second_line_lost :
    (read_stream reader
      (events_for ((codes "7", codes "one\ntwo") ∷ (codes "8", codes "three") ∷ []))).full_response
    ≡ codes "onethree"
unfolding read_stream read_lines on_call_agent.Base.split format_event read_line is_blank read_data
second_line_lost = refl

read_stream-events_for_example :
    (read_stream reader
      (events_for ((codes "7", codes "ab") ∷ (codes "12", codes "c") ∷ []))).full_response
    ≡ codes "abc"
unfolding on_call_agent.Base.has_code
read_stream-events_for_example =
    read_stream-events_for reader ((codes "7", codes "ab") ∷ (codes "12", codes "c") ∷ []) refl refl
