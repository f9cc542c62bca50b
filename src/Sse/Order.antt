-- ===== src/Sse/Order.antt =====
-- What the writer writes.
use on_call_agent.Base.{
  ◌≡◌, ◌⊎◌, inl, inr, refl, sym, ◌∙◌, Bool, List, [], ◌∷◌, ◌++◌, append_assoc, append-nil, some,
  arith, Text,
}
use on_call_agent.Sse.{
  Client, Run, start, sends, send_fails, writes, finishes, leaves, accepted, rejected, select_send,
  write_step, finish, leave,
}

select_send_lem :
    (picks_done : Bool) (c : Client) (payload : Text)
    → (select_send picks_done c payload).1 ≡ accepted
    → ((select_send picks_done c payload).0.written ≡ c.written)
      × ((select_send picks_done c payload).0.queue ≡ c.queue ++ payload ∷ [])
unfolding select_send
select_send_lem picks_done c payload h = ground arith

select_send-failed :
    (picks_done : Bool) (c : Client) (payload : Text)
    → (select_send picks_done c payload).1 ≡ rejected
    → ((select_send picks_done c payload).0.written ≡ c.written)
      × ((select_send picks_done c payload).0.queue ≡ c.queue)
unfolding select_send
select_send-failed picks_done c payload h = ground arith

pub List-cases {ℓ} :
    {A : Type ℓ} (xs : List A) → (xs ≡ []) ⊎ ((y : A) × (ys : List A) × (xs ≡ y ∷ ys))
List-cases [] = inl refl
List-cases (y ∷ ys) = inr (y, ys, refl)

pub write_step_lem :
    (picks_done : Bool) (c c' : Client)
    → write_step picks_done c ≡ some c'
    → c'.written ++ c'.queue ≡ c.written ++ c.queue
unfolding write_step
write_step_lem picks_done c c' h = elim (List-cases c.queue) [
  | inl e ↦ ground (arith, h, e)
  | inr (payload, rest, e) ↦ ground (arith, h, e, append_assoc c.written (payload ∷ []) rest)
]

-- However the handler, the writer and the client's side take turns, the events that were accepted are
-- the ones written after those at the start and then the ones that wait, in the order in which they
-- were sent.
pub Run-order :
    {c c' : Client} {events : List Text}
    → Run c events c'
    → c'.written ++ c'.queue ≡ (c.written ++ c.queue) ++ events
unfolding finish leave
Run-order (start c) = sym (append-nil _)
Run-order (sends {c} {events} {c'} picks_done payload r h) =
    let (e, f) = select_send_lem picks_done c' payload h in
    ground (
      arith,
      e,
      f,
      append_assoc c'.written c'.queue (payload ∷ []),
      append_assoc (c.written ++ c.queue) events (payload ∷ []),
      Run-order r,
    )
Run-order (send_fails {c} {events} {c'} picks_done payload r h) =
    let (e, f) = select_send-failed picks_done c' payload h in ground (arith, e, f, Run-order r)
Run-order (writes {c} {events} {c'} {c''} picks_done r h) =
    write_step_lem picks_done c' c'' h ∙ Run-order r
Run-order (finishes r) = Run-order r
Run-order (leaves r) = Run-order r
