-- ===== src/Conversation/Sql/Agreement.antt =====
-- Without faults SQLStore does what MemoryStore does.
use on_call_agent.Base.{
  ℕ, ◌≡◌, Bool, true, false, List, [], some, arith, ◌==◌, Text, Result, ok, Bool-cases, inl, inr,
  ◌++◌, ltb, length, ◌-◌,
}
use on_call_agent.Base.Map.{get, put}
use on_call_agent.Conversation.Key.{
  Error, SessionKey, session_key_eq, validate, live_context, context_err,
}
use on_call_agent.Conversation.Memory
use on_call_agent.Conversation.Memory.{
  Entry, Store, Hashing, even_above, commit, trim, int64_next, message_pair_hash, check_append,
}
use on_call_agent.Conversation.Memory.Compare.{append_if_version-compare}
use on_call_agent.Conversation.Tables.{
  Database, Row, Statement, rows_of, add_conversation, delete_oldest,
}
use on_call_agent.Conversation.Sql.{
  MessageCodec, turn_rows, write_turn, check_turn, reserve, transaction, encode_turn,
  append_with_key, append_if_version, trim_tx,
}
use on_call_agent.Conversation.Sql.Turns.{stored, add_conversation_lem, transaction_lem}

-- A database that answers every statement.
abbrev pub no_faults : Statement → Bool
no_faults st = false

trim_tx-total :
    (max : ℕ) (key : SessionKey) (rows : List Row)
    → (rows' : List Row) × (trim_tx no_faults max key rows ≡ ok rows')
unfolding trim_tx
trim_tx-total max key rows = elim (Bool-cases (ltb max (length (rows_of key rows)))) [
  | inl over ↦ (delete_oldest (even_above (length (rows_of key rows) - max)) key rows, ground arith)
  | inr fits ↦ (rows, ground arith)
]

check_turn-total :
    (max : ℕ) (db : Database) (key : SessionKey) (expected : ℕ) (u a : Text) (v : ℕ)
    → get key db.conversations ≡ some v
    → (db' : Database) × (check_turn no_faults max db key expected u a true
        ≡ ok (db', v == expected))
unfolding check_turn write_turn
check_turn-total max db key expected u a v found =
    let (rows, trimmed) = trim_tx-total max key (db.messages ++ turn_rows key (int64_next v) u a) in
    elim (Bool-cases (v == expected)) [
      | inl same ↦ (
        record db { conversations = put key (int64_next v) db.conversations; messages = rows },
        ground (arith, found, trimmed),
      )
      | inr stale ↦ (db, ground (arith, found))
    ]

transaction-total :
    (max : ℕ) (db : Database) (key : SessionKey) (expected : ℕ) (u a : Text)
    (hash : Result Error Text)
    → (db' : Database) × (transaction no_faults max db key expected u a true [] hash
        ≡ ok (db', (stored db key).version == expected))
unfolding transaction reserve
transaction-total max db key expected u a hash =
    check_turn-total max (add_conversation key db) key expected u a (stored db key).version
      (add_conversation_lem key db key).1

module _ {M : Type 0} (h : Hashing M) (codec : MessageCodec M) where
  -- On a database that answers every statement, and for messages that encode, AppendIfVersion of
  -- SQLStore returns what that of MemoryStore returns on the encoded messages under a context that
  -- has not ended, and if the two stores had the same limit and showed the same conversations
  -- before, then they do so after.
  pub append_if_version-memory :
      (db : Database) (s : Store Text) (key : SessionKey) (expected : ℕ) (u a : M)
      (user assistant : Text) (j : SessionKey)
      → validate key ≡ ok tt
      → codec.marshal u ≡ some user
      → codec.marshal a ≡ some assistant
      → stored db key ≡ Memory.view s key
      → stored db j ≡ Memory.view s j
      → let (db', r) =
          append_if_version h codec no_faults s.max_messages db key expected (some u) (some a) in
        let (s', r') =
          Memory.append_if_version s live_context key expected (some user) (some assistant) in
        (r ≡ r') × (stored db' j ≡ Memory.view s' j)
  unfolding append_if_version append_with_key encode_turn
  append_if_version-memory db s key expected u a user assistant j valid mu ma same_key same =
      let hash = message_pair_hash h u a in
      let (db', t) = transaction-total s.max_messages db key expected user assistant hash in
      ground (
        arith,
        valid,
        mu,
        ma,
        t,
        same_key,
        same,
        transaction_lem no_faults s.max_messages db key expected user assistant true [] hash db'
            ((stored db key).version == expected) j t,
        append_if_version-compare s live_context key expected user assistant j
            (unfold check_append context_err in ground (arith, valid)),
      )
