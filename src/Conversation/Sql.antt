-- ===== src/Conversation/Sql.antt =====
-- SQLStore of internal/conversation/sql_store.go over the three tables of its schema. A call is one
-- transaction: on an error the deferred rollback leaves the database as it was. Any statement may
-- fail; which ones do is an argument. A message row's place in its list stands for sequence_no,
-- which the BIGSERIAL column hands out in the order of insertion.
pub mod Rows
pub mod Turns
pub mod Agreement
mod Tests
use on_call_agent.Base.{
  ℕ, zero, suc, ◌-◌, ◌%◌, ◌≡◌, Bool, true, false, not, ◌&&◌, List, [], ◌∷◌, ◌++◌, Option, none,
  some, ℤ, arith, if◌then◌else◌, ltb, ◌==◌, ◌=?◌, Text, is_empty, trim_space, Result, ok, err,
  ◌>>=◌, ◌>>◌, guard, require, length, Eq, nat_eq, list_eq,
}
use on_call_agent.Base.Map.{get, put}
use on_call_agent.Conversation.Key.{
  Error, invalid_message, idempotency_conflict, idempotency_key_required, encode_failed,
  database_failed, decode_failed, SessionKey, session_key_eq, validate,
}
use on_call_agent.Conversation.Tables.{
  Row, Database, Statement, begin_tx, insert_conversation, insert_key, rows_affected, select_hash,
  select_version, update_version, insert_user, insert_assistant, count_messages, delete_messages,
  commit_tx, query_version, query_messages, scan_messages, rows_of, add_conversation, keys_of,
  add_key, delete_oldest,
}
use on_call_agent.Conversation.Memory.{
  Hashing, message_pair_hash, normalize_max, even_above, int64_next, error_of,
}

-- A message and the text that its JSONB column shows: `marshal` is json.Marshal and what the cast
-- `$5::jsonb` of the INSERT makes of its bytes, `unmarshal` is json.Unmarshal. PostgreSQL prints a
-- jsonb value in its own way, so the text is in general not the bytes of json.Marshal.
pub record MessageCodec (M : Type 0) : Type 0 where
  pub marshal : M → Option Text
  pub unmarshal : Text → Option M

pub data SqlStoreError : Type 0 where
  sql_store_required : SqlStoreError

-- NewSQLStore, with whether the database handle is there; a store is its maxMessages.
unfoldable pub new_sql_store : Bool → ℤ → Result SqlStoreError ℕ
unfolding normalize_max
new_sql_store has_db n = if not has_db then err sql_store_required else ok (normalize_max 20 n)

abbrev pub exec : (Statement → Bool) → Statement → Result Error (Unit {0})
exec fails st = guard (not (fails st)) database_failed

-- SQLStore.trimTx
unfoldable pub trim_tx : (Statement → Bool) → ℕ → SessionKey → List Row → Result Error (List Row)
trim_tx fails max key rows = do
  exec fails count_messages
  let count = length (rows_of key rows)
  if ltb max count
      then (do exec fails delete_messages; ok (delete_oldest (even_above (count - max)) key rows))
      else ok rows

-- The two INSERTs of a turn, with the messages as the cast to jsonb leaves them.
abbrev pub turn_rows : SessionKey → ℕ → Text → Text → List Row
turn_rows key version user assistant =
    record { owner = key; turn_version = version; message_json = user }
    ∷ record { owner = key; turn_version = version; message_json = assistant }
    ∷ []

-- appendWithKey from the UPDATE to the commit.
unfoldable pub write_turn :
    (Statement → Bool)
    → ℕ
    → Database
    → SessionKey
    → ℕ
    → Text
    → Text
    → Result Error (Database × Bool)
write_turn fails max db key version user assistant = do
  exec fails update_version
  exec fails insert_user
  exec fails insert_assistant
  rows ← trim_tx fails max key (db.messages ++ turn_rows key (int64_next version) user assistant)
  exec fails commit_tx
  ok (
    record db { conversations = put key (int64_next version) db.conversations; messages = rows },
    true,
  )

-- appendWithKey from SELECT … FOR UPDATE on.
unfoldable pub check_turn :
    (Statement → Bool)
    → ℕ
    → Database
    → SessionKey
    → ℕ
    → Text
    → Text
    → Bool
    → Result Error (Database × Bool)
check_turn fails max db key expected user assistant check_version = do
  exec fails select_version
  version ← require (get key db.conversations) database_failed
  if check_version && not (version == expected)
      then (do exec fails commit_tx; ok (db, false))
      else write_turn fails max db key version user assistant

-- The idempotency key: `none` if the same turn was committed under it before.
unfoldable pub reserve :
    (Statement → Bool)
    → Database
    → SessionKey
    → Text
    → Result Error Text
    → Result Error (Option Database)
reserve fails db key request hash = if is_empty request then ok (some db) else (do
  h ← hash
  exec fails insert_key
  exec fails rows_affected
  elim (get request (keys_of key db)) [
    | none ↦ ok (some (add_key key request h db))
    | some previous ↦ (do
      exec fails select_hash
      guard (previous =? h) idempotency_conflict
      exec fails commit_tx
      ok none)
  ])

-- The transaction of appendWithKey.
unfoldable pub transaction :
    (Statement → Bool)
    → ℕ
    → Database
    → SessionKey
    → ℕ
    → Text
    → Text
    → Bool
    → Text
    → Result Error Text
    → Result Error (Database × Bool)
transaction fails max db key expected user assistant check_version request hash = do
  exec fails begin_tx
  exec fails insert_conversation
  let db' = add_conversation key db
  reserved ← reserve fails db' key request hash
  elim reserved [
    | none ↦ ok (db', false)
    | some db'' ↦ check_turn fails max db'' key expected user assistant check_version
  ]

-- A transaction that fails is rolled back.
abbrev pub settle : Database → Result Error (Database × Bool) → Database × Result Error Bool
settle db (ok (db', committed)) = (db', ok committed)
settle db (err e) = (db, err e)

module _ {M : Type 0} (h : Hashing M) (codec : MessageCodec M) where
  -- The checks of appendWithKey, and the two encoded messages.
  unfoldable pub encode_turn :
      SessionKey → Option M → Option M → Result Error (Text × Text × Result Error Text)
  encode_turn key user assistant = do
    validate key
    u ← require user invalid_message
    a ← require assistant invalid_message
    user_json ← require (codec.marshal u) encode_failed
    assistant_json ← require (codec.marshal a) encode_failed
    ok (user_json, assistant_json, message_pair_hash h u a)

  -- SQLStore.appendWithKey
  unfoldable pub append_with_key :
      (Statement → Bool)
      → ℕ
      → Database
      → SessionKey
      → ℕ
      → Option M
      → Option M
      → Bool
      → Text
      → Database × Result Error Bool
  append_with_key fails max db key expected user assistant check_version request =
      elim (encode_turn key user assistant) [
        | err e ↦ (db, err e)
        | ok (u, a, hash) ↦
            settle db (transaction fails max db key expected u a check_version request hash)
      ]

  -- SQLStore.AppendIdempotent
  unfoldable pub append_idempotent :
      (Statement → Bool)
      → ℕ
      → Database
      → SessionKey
      → Text
      → Option M
      → Option M
      → Database × Result Error Bool
  append_idempotent fails max db key request user assistant =
      if is_empty (trim_space request)
      then (db, err idempotency_key_required)
      else append_with_key fails max db key 0 user assistant false request

  -- SQLStore.AppendIfVersion
  unfoldable pub append_if_version :
      (Statement → Bool)
      → ℕ
      → Database
      → SessionKey
      → ℕ
      → Option M
      → Option M
      → Database × Result Error Bool
  append_if_version fails max db key expected user assistant =
      append_with_key fails max db key expected user assistant true []

  -- SQLStore.Append
  unfoldable pub append :
      (Statement → Bool)
      → ℕ
      → Database
      → SessionKey
      → Option M
      → Option M
      → Database × Result Error (Unit {0})
  append fails max db key user assistant =
      let (db', result) = append_with_key fails max db key 0 user assistant false [] in
      (db', error_of result)

module _ {M : Type 0} where
  -- The loop over the rows in SQLStore.Load.
  unfoldable pub decode_rows : MessageCodec M → List Text → Result Error (List M)
  decode_rows codec [] = ok []
  decode_rows codec (raw ∷ rest) = do
    m ← require (codec.unmarshal raw) decode_failed
    ms ← decode_rows codec rest
    ok (m ∷ ms)

  -- SQLStore.Load
  unfoldable pub load :
      MessageCodec M → (Statement → Bool) → Database → SessionKey → Result Error (List M × ℕ)
  load codec fails db key = do
    validate key
    exec fails query_version
    elim (get key db.conversations) [
      | none ↦ ok ([], 0)
      | some version ↦ (do
        exec fails query_messages
        messages ← decode_rows codec (rows_of key db.messages)
        exec fails scan_messages
        ok (messages, version))
    ]
