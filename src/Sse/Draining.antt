-- ===== src/Sse/Draining.antt =====
-- Finish and the writer.
use on_call_agent.Base.{
  ◌≡◌, inl, inr, refl, ℕ, zero, suc, ◌<◌, Bool, true, false, List, [], ◌∷◌, ◌++◌, append_assoc,
  append-nil, some, arith, Text, length, Bool-cases, ok,
}
use on_call_agent.Sse.{
  Client, Run, start, sends, send_fails, writes, finishes, leaves, create, select_send, write_step,
  write_loop, finish, leave,
}
use on_call_agent.Sse.Order.{Run-order, List-cases}

write_loop-finished :
    (picks_done : ℕ → Bool) (fuel : ℕ) (c : Client)
    → c.is_finished ≡ true
    → write_loop fuel picks_done c ≡ c
unfolding write_loop write_step
write_loop-finished picks_done zero c h = refl
write_loop-finished picks_done (suc fuel) c h = ground (arith, h)

-- The writer once the channel is closed: it ends, and what it writes follows the queue's order.
closed_lem :
    (picks_done : ℕ → Bool) (fuel : ℕ) (c : Client)
    → length c.queue < fuel
    → c.is_closed ≡ true
    → ((write_loop fuel picks_done c).is_finished ≡ true)
      × (c.is_cancelled ≡ false
          → c.is_finished ≡ false
          → (write_loop fuel picks_done c).written ≡ c.written ++ c.queue)
unfolding write_loop write_step
closed_lem picks_done zero c h closed = absurd (ground (arith, h))
closed_lem picks_done (suc fuel) c h closed = elim (List-cases c.queue) [
  | inl e ↦ ground (
    arith,
    h,
    e,
    closed,
    append-nil c.written,
    write_loop-finished picks_done fuel (record c { is_finished = true }),
  )
  | inr (payload, rest, e) ↦
      let c' : Client = record c { queue = rest; written = c.written ++ payload ∷ [] } in
      let shorter : length rest < fuel = ground (arith, h, e) in
      ground (
        arith,
        h,
        e,
        closed,
        append_assoc c.written (payload ∷ []) rest,
        write_loop-finished picks_done fuel (record c { is_finished = true }),
        closed_lem picks_done fuel c' shorter closed,
      )
]

-- Once Finish was called, the writer ends after at most one turn more than there are events in the
-- channel, whichever ready case Go picks each time, so that Finish returns.
pub write_loop-ends :
    (picks_done : ℕ → Bool) (fuel : ℕ) (c : Client)
    → length c.queue < fuel
    → (write_loop fuel picks_done (finish c)).is_finished ≡ true
unfolding finish
write_loop-ends picks_done fuel c h = (closed_lem picks_done fuel (finish c) h refl).0

-- The writer ends only when the context is cancelled, or when everything is written after Finish.
abbrev Ended : Client → Type 0
Ended c = c.is_finished ≡ true → c.is_cancelled ≡ false → (c.is_closed ≡ true) × (c.queue ≡ [])

select_send-Ended :
    (picks_done : Bool) (c : Client) (payload : Text)
    → Ended c
    → Ended (select_send picks_done c payload).0
unfolding select_send
select_send-Ended picks_done c payload h finished live = ground (arith, h)

write_step-Ended :
    (picks_done : Bool) (c c' : Client) → write_step picks_done c ≡ some c' → Ended c → Ended c'
unfolding write_step
write_step-Ended picks_done c c' e h finished live = elim (List-cases c.queue) [
  | inl q ↦ ground (arith, e, q)
  | inr (payload, rest, q) ↦ ground (arith, e, q)
]

Run-Ended : {c c' : Client} {events : List Text} → Run c events c' → Ended c → Ended c'
unfolding finish leave
Run-Ended (start c) h = h
Run-Ended (sends {c} {events} {c'} picks_done payload r s) h =
    select_send-Ended picks_done c' payload (Run-Ended r h)
Run-Ended (send_fails {c} {events} {c'} picks_done payload r s) h =
    select_send-Ended picks_done c' payload (Run-Ended r h)
Run-Ended (writes {c} {events} {c'} {c''} picks_done r s) h =
    write_step-Ended picks_done c' c'' s (Run-Ended r h)
Run-Ended (finishes r) h = λ finished live. (refl, (Run-Ended r h finished live).1)
Run-Ended (leaves r) h = λ finished live. absurd (ground (arith, live))

-- After Finish a client whose context was never cancelled has got all the events that were accepted, in
-- the order in which they were sent, after the one that tells it its id: nothing is cut off.
pub finish-delivers :
    (capacity : ℕ) (id : Text) {c c' : Client} {events : List Text}
    → create capacity (some id) ≡ ok c
    → Run c events c'
    → c'.is_cancelled ≡ false
    → (picks_done : ℕ → Bool)
    → (write_loop (suc (length c'.queue)) picks_done (finish c')).written ≡ c.written ++ events
unfolding create finish
finish-delivers capacity id {c} {c'} {events} created r live picks_done =
    let fresh : Ended c = λ finished l. absurd (ground (arith, created, finished)) in
    let empty : c.queue ≡ [] = ground (arith, created) in
    let drained = closed_lem picks_done (suc (length c'.queue)) (finish c') (omega arith) refl in
    let order = Run-order r in
    elim (Bool-cases c'.is_finished) [
      | inl finished ↦
          let (closed, q) = Run-Ended r fresh finished live in
          ground (
            arith,
            finished,
            empty,
            q,
            order,
            append-nil c.written,
            append-nil c'.written,
            write_loop-finished picks_done (suc (length c'.queue)) (finish c') finished,
          )
      | inr going ↦ ground (arith, drained.1 live going, order, empty, append-nil c.written)
    ]
