-- ===== src/Conversation/Memory/Views.antt =====
-- What each method of MemoryStore does to what readers see, session by session.
use on_call_agent.Base.{
  ℕ, ◌≡◌, refl, inl, inr, ◌≢◌, Bool, [], nat_eq, list_eq, true, false, not, ◌&&◌, List, Option,
  none, some, arith, if◌then◌else◌, ◌==◌, ◌=?◌, Text, Result, ok, err, Option-cases,
}
use on_call_agent.Base.Map.{get, put, get-put}
use on_call_agent.Conversation.Key.{Error, SessionKey, session_key_eq, key_beq_iff, Context}
use on_call_agent.Conversation.Memory.{
  Store, done, Entry, empty_entry, Hashing, commit, entry, idempotency_entry, append_locked,
  append_turn, append, append_marked, append_idempotent, check_append, check_idempotent, view,
}

module _ {M : Type 0} where
  pub entry_lem :
      (s : Store M) (key j : SessionKey)
      → ((entry s key).1 ≡ view s key)
        × (view (entry s key).0 j ≡ view s j)
        × ((entry s key).0.max_messages ≡ s.max_messages)
        × ((entry s key).0.idempotency ≡ s.idempotency)
  unfolding entry view
  entry_lem s key j = elim (Option-cases (get key s.entries)) [
    | inl e ↦ ground (arith, e, key_beq_iff key j, get-put key j empty_entry s.entries)
    | inr (v, e) ↦ ground (arith, e)
  ]

  view-write :
      (s : Store M) (key : SessionKey) (e : Entry M) (j : SessionKey)
      → view (record s { entries = put key e s.entries }) j ≡ (if key =? j then e else view s j)
  unfolding view
  view-write s key e j = ground (arith, get-put key j e s.entries)

  -- A turn is refused, by leaving the version check, or committed to its own session only.
  pub append_locked_lem :
      (s : Store M) (key : SessionKey) (expected : ℕ) (u a : M) (check : Bool) (j : SessionKey)
      → ((append_locked s key expected u a check).1
          ≡ ok (not (check && not ((view s key).version == expected))))
        × (view (append_locked s key expected u a check).0 j ≡ (
            if not (check && not ((view s key).version == expected)) && key =? j
            then commit s.max_messages (view s key) u a
            else view s j))
        × ((append_locked s key expected u a check).0.max_messages ≡ s.max_messages)
        × ((append_locked s key expected u a check).0.idempotency ≡ s.idempotency)
  unfolding append_locked
  append_locked_lem s key expected u a check j = ground (
    arith,
    entry_lem s key j,
    view-write (entry s key).0 key (commit (entry s key).0.max_messages (entry s key).1 u a) j,
  )

  -- The turn that a call leaves behind in a session, if it committed one there.
  abbrev pub after_turn : ℕ → SessionKey → Entry M → Option (SessionKey × M × M) → Entry M
  after_turn max j e none = e
  after_turn max j e (some (key, u, a)) = if key =? j then commit max e u a else e

  -- The turn of a call that reported success.
  abbrev pub turn : SessionKey → Option M → Option M → Option (SessionKey × M × M)
  turn key (some u) (some a) = some (key, u, a)
  turn key (some u) none = none
  turn key none a = none

  abbrev pub turn_if :
      Result Error Bool → SessionKey → Option M → Option M → Option (SessionKey × M × M)
  turn_if (ok true) key user assistant = turn key user assistant
  turn_if (ok false) key user assistant = none
  turn_if (err e) key user assistant = none

  pub append_turn_lem :
      (s : Store M) (ctx : Context) (key : SessionKey) (expected : ℕ) (user assistant : Option M)
      (check : Bool) (j : SessionKey)
      → (view (append_turn s ctx key expected user assistant check).0 j
          ≡ after_turn s.max_messages j
              (view s j)
              (turn_if (append_turn s ctx key expected user assistant check).1 key user assistant))
        × ((append_turn s ctx key expected user assistant check).0.max_messages ≡ s.max_messages)
        × ((append_turn s ctx key expected user assistant check).0.idempotency ≡ s.idempotency)
  unfolding append_turn check_append
  append_turn_lem s ctx key expected none assistant check j = ground arith
  append_turn_lem s ctx key expected (some u) none check j = ground arith
  append_turn_lem s ctx key expected (some u) (some a) check j =
      ground (arith, append_locked_lem s key expected u a check j, key_beq_iff key j)

  -- Without the version check a turn is never declined.
  append_turn-ne-declined :
      (s : Store M) (ctx : Context) (key : SessionKey) (user assistant : Option M)
      → (append_turn s ctx key 0 user assistant false).1 ≢ ok false
  unfolding append_turn check_append
  append_turn-ne-declined s ctx key none assistant = ground arith
  append_turn-ne-declined s ctx key (some u) none = ground arith
  append_turn-ne-declined s ctx key (some u) (some a) =
      ground (arith, append_locked_lem s key 0 u a false key)

  pub append_lem :
      (s : Store M) (ctx : Context) (key : SessionKey) (user assistant : Option M) (j : SessionKey)
      → (view (append s ctx key user assistant).0 j
          ≡ after_turn s.max_messages j
              (view s j)
              (turn_if (done (append s ctx key user assistant).1) key user assistant))
        × ((append s ctx key user assistant).0.max_messages ≡ s.max_messages)
        × ((append s ctx key user assistant).0.idempotency ≡ s.idempotency)
  unfolding append
  append_lem s ctx key user assistant j = ground (
    arith,
    append_turn_lem s ctx key 0 user assistant false j,
    append_turn-ne-declined s ctx key user assistant,
  )

  view-mark :
      (s : Store M) (m : List (SessionKey × List (Text × Text))) (j : SessionKey)
      → view (record s { idempotency = m }) j ≡ view s j
  unfolding view
  view-mark s m j = refl

  pub idempotency_entry_lem :
      (s : Store M) (key j : SessionKey)
      → (view (idempotency_entry s key).0 j ≡ view s j)
        × ((idempotency_entry s key).0.max_messages ≡ s.max_messages)
  unfolding idempotency_entry
  idempotency_entry_lem s key j = ground (arith, view-mark s (put key [] s.idempotency) j)

  append_marked_lem :
      (s : Store M) (ctx : Context) (key : SessionKey) (request : Text)
      (values : List (Text × Text)) (u a : M) (hash : Text) (j : SessionKey)
      → (view (append_marked s ctx key request values u a hash).0 j
          ≡ after_turn s.max_messages j
              (view s j)
              (turn_if (append_marked s ctx key request values u a hash).1 key (some u) (some a)))
        × ((append_marked s ctx key request values u a hash).0.max_messages ≡ s.max_messages)
  unfolding append_marked
  append_marked_lem s ctx key request values u a hash j = ground (
    arith,
    append_lem s ctx key (some u) (some a) j,
    view-mark (append s ctx key (some u) (some a)).0
        (put key (put request hash values) (append s ctx key (some u) (some a)).0.idempotency) j,
  )

  pub append_idempotent_lem :
      (h : Hashing M) (s : Store M) (ctx later : Context) (key : SessionKey) (request : Text)
      (user assistant : Option M) (j : SessionKey)
      → (view (append_idempotent h s ctx later key request user assistant).0 j
          ≡ after_turn s.max_messages j (view s j) (
              turn_if
                (append_idempotent h s ctx later key request user assistant).1
                key
                user
                assistant))
        × ((append_idempotent h s ctx later key request user assistant).0.max_messages
            ≡ s.max_messages)
  unfolding append_idempotent check_idempotent
  append_idempotent_lem h s ctx later key request none assistant j = ground arith
  append_idempotent_lem h s ctx later key request (some u) none j = ground arith
  append_idempotent_lem h s ctx later key request (some u) (some a) j =
      elim (Option-cases (h.encode_pair u a)) [
        | inl e ↦ ground (arith, e)
        | inr (payload, e) ↦ ground (
          arith,
          e,
          idempotency_entry_lem s key j,
          append_marked_lem (idempotency_entry s key).0 later key request
              (idempotency_entry s key).1 u a (h.sha256_hex payload) j,
        )
      ]
