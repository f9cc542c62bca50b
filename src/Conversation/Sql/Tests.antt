-- ===== src/Conversation/Sql/Tests.antt =====
-- SQLStore on concrete tables; a message is its own encoding.
use on_call_agent.Base.{
  ◌≡◌, refl, Bool, true, false, [], ◌∷◌, some, Text, codes, ok, nat_eq, list_eq,
}
use on_call_agent.Base.Map.{get, put}
use on_call_agent.Conversation.Key.{SessionKey, session_key_eq, key_beq, validate, context_err}
use on_call_agent.Conversation.KeyLaws.{session_key}
use on_call_agent.Conversation.Memory
use on_call_agent.Conversation.Memory.{Store, Hashing, message_pair_hash}
use on_call_agent.Conversation.Tables.{
  Database, Statement, insert_assistant, rows_of, add_conversation,
}
use on_call_agent.Conversation.Sql.{
  MessageCodec, append_with_key, append_if_version, encode_turn, transaction, reserve, check_turn,
  write_turn, trim_tx, load, decode_rows,
}
use on_call_agent.Conversation.Sql.Turns.{stored, append_with_key-atomic}
use on_call_agent.Conversation.Sql.Agreement.{no_faults, append_if_version-memory}

abbrev plain : Hashing Text
plain = record { encode_pair = λ u a. some u; sha256_hex = λ t. t }

abbrev codec : MessageCodec Text
codec = record { marshal = λ t. some t; unmarshal = λ t. some t }

abbrev ann : SessionKey
ann = session_key (codes "t") (codes "ann") (codes "1")

abbrev fresh : Database
fresh = record { conversations = []; messages = []; idempotency = [] }

-- The second INSERT of the turn fails.
abbrev broken : Statement → Bool
broken insert_assistant = true
broken _ = false

append_with_key-atomic_example :
    stored
      (append_with_key plain codec broken 20 fresh ann 0
        (some (codes "q"))
        (some (codes "r"))
        false
        []).0
      ann
    ≡ stored fresh ann
unfolding append_with_key encode_turn validate message_pair_hash transaction add_conversation get
    put reserve check_turn write_turn key_beq
append_with_key-atomic_example =
    (append_with_key-atomic plain codec broken 20 fresh ann 0 (some (codes "q")) (some (codes "r"))
        false [] ann).1
      (λ e. cc)

append_if_version-memory_example :
    (append_if_version plain codec no_faults 4 fresh ann 0 (some (codes "q")) (some (codes "r"))).1
    ≡ ok true
unfolding validate stored Memory.view rows_of get Memory.append_if_version Memory.append_turn
    Memory.check_append Memory.append_locked Memory.entry context_err
append_if_version-memory_example =
    (append_if_version-memory plain codec fresh
      (record { max_messages = 4; entries = []; idempotency = [] }) ann 0 (codes "q") (codes "r")
      (codes "q") (codes "r") ann refl refl refl refl refl).0

loaded :
    load codec no_faults
      (append_if_version plain codec no_faults 4 fresh ann 0
        (some (codes "q"))
        (some (codes "r"))).0
      ann
    ≡ ok (codes "q" ∷ codes "r" ∷ [], 1)
unfolding load decode_rows rows_of append_if_version append_with_key encode_turn validate
    message_pair_hash transaction add_conversation get put reserve check_turn write_turn key_beq
    trim_tx
loaded = refl
