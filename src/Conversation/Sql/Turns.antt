-- ===== src/Conversation/Sql/Turns.antt =====
-- A transaction of SQLStore commits a whole turn in one conversation, or changes nothing that a
-- reader sees.
use on_call_agent.Base.{
  ℕ, ◌≡◌, refl, ap, ◌∙◌, ◌≢◌, Bool, true, not, ◌&&◌, Option, none, some, arith, if◌then◌else◌, ◌==◌,
  ◌=?◌, Text, Result, ok, Option-cases, Result-cases, inl, inr, ◌++◌,
}
use on_call_agent.Base.Map.{get, get-put}
use on_call_agent.Conversation.Key.{Error, SessionKey, session_key_eq, key_beq_iff}
use on_call_agent.Conversation.Memory.{Entry, Hashing, commit, int64_next}
use on_call_agent.Conversation.Tables.{Database, Statement, rows_of, add_conversation, add_key}
use on_call_agent.Conversation.Sql.{
  MessageCodec, turn_rows, write_turn, check_turn, reserve, transaction, encode_turn,
  append_with_key, trim_tx,
}
use on_call_agent.Conversation.Sql.Rows.{rows_of-turn, trim_tx_lem}

-- What the tables hold of a conversation, as the memory store would hold it.
unfoldable pub stored : Database → SessionKey → Entry Text
stored db j = record {
  messages = rows_of j db.messages;
  version = elim (get j db.conversations) [ some v ↦ v | none ↦ 0 ];
}

pub add_conversation_lem :
    (key : SessionKey) (db : Database) (j : SessionKey)
    → (stored (add_conversation key db) j ≡ stored db j)
      × (get key (add_conversation key db).conversations ≡ some (stored db key).version)
unfolding add_conversation stored
add_conversation_lem key db j = ground (
  arith,
  get-put key j 0 db.conversations,
  get-put key key 0 db.conversations,
  key_beq_iff key j,
  key_beq_iff key key,
)

write_turn_lem :
    (fails : Statement → Bool) (max : ℕ) (db : Database) (key : SessionKey) (version : ℕ)
    (u a : Text) (db' : Database) (b : Bool) (j : SessionKey)
    → write_turn fails max db key version u a ≡ ok (db', b)
    → (stored db key).version ≡ version
    → (b ≡ true) × (stored db' j ≡ (if key =? j then commit max (stored db j) u a else stored db j))
unfolding write_turn stored commit
write_turn_lem fails max db key version u a db' b j h v =
    let rows = db.messages ++ turn_rows key (int64_next version) u a in
    elim (Result-cases (trim_tx fails max key rows)) [
      | inr (x, e) ↦ absurd (ground (arith, e))
      | inl (rows', e) ↦ ground (
        arith,
        e,
        trim_tx_lem fails max j key rows rows' e,
        rows_of-turn j key (int64_next version) u a db.messages,
        get-put key j (int64_next version) db.conversations,
        key_beq_iff key j,
      )
    ]

check_turn_lem :
    (fails : Statement → Bool) (max : ℕ) (db : Database) (key : SessionKey) (expected : ℕ)
    (u a : Text) (check : Bool) (db' : Database) (b : Bool) (j : SessionKey)
    → check_turn fails max db key expected u a check ≡ ok (db', b)
    → get key db.conversations ≡ some (stored db key).version
    → (b ≡ not (check && not ((stored db key).version == expected)))
      × (stored db' j ≡ (if b && key =? j then commit max (stored db j) u a else stored db j))
unfolding check_turn
check_turn_lem fails max db key expected u a check db' b j h found =
    ground (arith, write_turn_lem fails max db key (stored db key).version u a db' b j)

reserve_lem :
    (fails : Statement → Bool) (db db' : Database) (key : SessionKey) (request : Text)
    (hash : Result Error Text)
    → reserve fails db key request hash ≡ ok (some db')
    → (db'.conversations ≡ db.conversations) × (db'.messages ≡ db.messages)
unfolding reserve add_key
reserve_lem fails db db' key request hash h = ground arith

stored-same :
    (db db' : Database) (j : SessionKey)
    → db'.conversations ≡ db.conversations
    → db'.messages ≡ db.messages
    → stored db' j ≡ stored db j
unfolding stored
stored-same db db' j e m = ground arith

pub transaction_lem :
    (fails : Statement → Bool) (max : ℕ) (db : Database) (key : SessionKey) (expected : ℕ)
    (u a : Text) (check : Bool) (request : Text) (hash : Result Error Text) (db' : Database)
    (b : Bool) (j : SessionKey)
    → transaction fails max db key expected u a check request hash ≡ ok (db', b)
    → stored db' j ≡ (if b && key =? j then commit max (stored db j) u a else stored db j)
unfolding transaction
transaction_lem fails max db key expected u a check request hash db' b j h =
    let db₁ = add_conversation key db in
    let (same, found) = add_conversation_lem key db j in
    let (same_key, _) = add_conversation_lem key db key in
    elim (Result-cases (reserve fails db₁ key request hash)) [
      | inr (x, e) ↦ absurd (ground (arith, e))
      | inl (o, e) ↦ elim (Option-cases o) [
        | inl n ↦ ground (arith, e, n)
        | inr (db₂, s) ↦
            let (c, m) = reserve_lem fails db₁ db₂ key request hash (e ∙ ap ok s) in
            ground (
              arith,
              e,
              s,
              c,
              m,
              stored-same db₁ db₂ j c m,
              stored-same db₁ db₂ key c m,
              check_turn_lem fails max db₂ key expected u a check db' b j,
            )
      ]
    ]

module _ {M : Type 0} (h : Hashing M) (codec : MessageCodec M) where
  -- The messages that a call encodes, where both are given and can be encoded.
  abbrev pub Encodes : Option M → Option M → Text → Text → Type 0
  Encodes user assistant u a =
      (v : M) × (b : M) × (user ≡ some v)
      × (assistant ≡ some b)
      × (codec.marshal v ≡ some u)
      × (codec.marshal b ≡ some a)

  encode_turn-Encodes :
      (key : SessionKey) (user assistant : Option M) (u a : Text) (hash : Result Error Text)
      → encode_turn h codec key user assistant ≡ ok (u, a, hash)
      → Encodes user assistant u a
  unfolding encode_turn
  encode_turn-Encodes key none assistant u a hash e = absurd (ground arith)
  encode_turn-Encodes key (some v) none u a hash e = absurd (ground arith)
  encode_turn-Encodes key (some v) (some b) u a hash e =
      (v, b, refl, refl, ground arith, ground arith)

  -- Whichever statements fail, a call that reports a commit has added its encoded turn to its own
  -- conversation as a whole, one version on and trimmed as in memory; a call that reports anything
  -- else shows the same in every conversation.
  pub append_with_key-atomic :
      (fails : Statement → Bool) (max : ℕ) (db : Database) (key : SessionKey) (expected : ℕ)
      (user assistant : Option M) (check : Bool) (request : Text) (j : SessionKey)
      → let (db', r) =
          append_with_key h codec fails max db key expected user assistant check request in
        (r ≡ ok true
          → (u : Text) × (a : Text) × Encodes user assistant u a
            × (stored db' j ≡ (if key =? j then commit max (stored db j) u a else stored db j)))
        × (r ≢ ok true → stored db' j ≡ stored db j)
  unfolding append_with_key
  append_with_key-atomic fails max db key expected user assistant check request j =
      elim (Result-cases (encode_turn h codec key user assistant)) [
        | inr (x, e) ↦ rw (e, append_with_key) (λ won. absurd (ground arith), λ failed. refl)
        | inl (enc, e) ↦
            rw (e, append_with_key)
              (elim (Result-cases
                (transaction fails max db key expected enc.0 enc.1 check request enc.2)) [
                  | inr (x, t) ↦ rw t (λ won. absurd (ground arith), λ failed. refl)
                  | inl (out, t) ↦ rw t (
                      let after =
                        transaction_lem fails max db key expected enc.0 enc.1 check request enc.2
                          out.0 out.1 j t in
                      (
                        λ won. (
                          enc.0,
                          enc.1,
                          encode_turn-Encodes key user assistant enc.0 enc.1 enc.2 e,
                          ground arith,
                        ),
                        λ failed. ground arith,
                      ))
                ])
      ]
