-- ===== src/Conversation/Tables.antt =====
-- The three tables of internal/conversation/sql_store.go as lists of rows, the statements of a call, and
-- what the statements that change rows do.
use on_call_agent.Base.{
  ℕ, zero, suc, true, false, List, [], ◌∷◌, none, some, if◌then◌else◌, ◌=?◌, Text, nat_eq, list_eq,
}
use on_call_agent.Base.Map.{get, put}
use on_call_agent.Conversation.Key.{SessionKey, session_key_eq}

-- A row of conversation_messages.
pub record Row : Type 0 where
  pub owner : SessionKey
  pub turn_version : ℕ
  pub message_json : Text

pub record Database : Type 0 where
  pub conversations : List (SessionKey × ℕ)
  pub messages : List Row
  pub idempotency : List (SessionKey × List (Text × Text))

-- The statements of a call, in the order of the source.
pub data Statement : Type 0 where
  begin_tx insert_conversation insert_key rows_affected select_hash select_version : Statement
  update_version insert_user insert_assistant count_messages delete_messages commit_tx : Statement
  query_version query_messages scan_messages : Statement

-- The messages of one conversation, by sequence_no.
unfoldable pub rows_of : SessionKey → List Row → List Text
rows_of k [] = []
rows_of k (r ∷ rows) = if r.owner =? k then r.message_json ∷ rows_of k rows else rows_of k rows

-- INSERT INTO conversations … ON CONFLICT DO NOTHING
unfoldable pub add_conversation : SessionKey → Database → Database
add_conversation key db = elim (get key db.conversations) [
  | some v ↦ db
  | none ↦ record db { conversations = put key 0 db.conversations }
]

unfoldable pub keys_of : SessionKey → Database → List (Text × Text)
keys_of key db = elim (get key db.idempotency) [ some values ↦ values | none ↦ [] ]

-- INSERT INTO conversation_idempotency, where the key is new.
unfoldable pub add_key : SessionKey → Text → Text → Database → Database
unfolding keys_of
add_key key request hash db = record db {
  idempotency = put key (put request hash (keys_of key db)) db.idempotency;
}

-- DELETE … WHERE sequence_no IN (SELECT … ORDER BY sequence_no LIMIT n)
unfoldable pub delete_oldest : ℕ → SessionKey → List Row → List Row
delete_oldest zero k rows = rows
delete_oldest (suc n) k [] = []
delete_oldest (suc n) k (r ∷ rows) = elim (r.owner =? k) [
  | true ↦ delete_oldest n k rows
  | false ↦ r ∷ delete_oldest (suc n) k rows
]
