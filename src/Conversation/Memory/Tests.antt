-- ===== src/Conversation/Memory/Tests.antt =====
-- MemoryStore run on concrete calls; the messages are texts, and the hash is the payload.
use on_call_agent.Base.{
  ◌≡◌, refl, ◌≢◌, List, [], ◌∷◌, ◌++◌, some, arith, Text, codes, pos, ok, err, true, nat_eq,
  list_eq, trim_space,
}
use on_call_agent.Base.Map.{get, put}
use on_call_agent.Conversation.Key.{
  idempotency_conflict, SessionKey, key_beq, live_context, context_err, validate, session_key_eq,
}
use on_call_agent.Conversation.Memory.{
  Store, Hashing, new_memory_store, normalize_max, load, append, append_turn, append_locked,
  append_if_version, append_idempotent, append_marked, check_append, check_idempotent, commit, trim,
  entry, idempotency_entry, message_pair_hash,
}
use on_call_agent.Conversation.Memory.Runs.{
  Call, append_call, step, run, transcript, turns, load-run,
}
use on_call_agent.Conversation.Memory.Compare.{append_if_version-exclusive}
use on_call_agent.Conversation.Memory.Retries.{append_idempotent-once}

abbrev plain : Hashing Text
plain = record { encode_pair = λ u a. some (u ++ 0 ∷ a); sha256_hex = λ t. t }

abbrev ann : SessionKey
ann = record { tenant_id = codes "t"; user_id = codes "ann"; conversation_id = codes "1" }

abbrev bob : SessionKey
bob = record { tenant_id = codes "t"; user_id = codes "bob"; conversation_id = codes "1" }

abbrev say : SessionKey → Text → Call Text
say key t = append_call live_context key (some t) (some (codes "ok"))

abbrev chat : List (Call Text)
chat = say ann (codes "a") ∷ say bob (codes "b") ∷ say ann (codes "c") ∷ []

abbrev small : Store Text
small = record { max_messages = 2; entries = []; idempotency = [] }

-- With room for two messages only the last turn of Ann is kept, at version 2.
last_turn :
    (load (run plain (new_memory_store (pos 3)) [] chat).0 live_context ann).1
    ≡ ok (codes "c" ∷ codes "ok" ∷ [], 2)
unfolding run step load entry append append_turn append_locked check_append commit trim
    new_memory_store normalize_max validate context_err key_beq get put
last_turn = refl

load-run_example :
    (load (run plain (new_memory_store (pos 3)) [] chat).0 live_context ann).1
    ≡ ok (codes "c" ∷ codes "ok" ∷ [], 2)
unfolding run step load entry append append_turn append_locked check_append commit trim
    new_memory_store normalize_max validate context_err key_beq get put transcript turns
load-run_example = (load-run plain (pos 3) chat live_context ann refl refl).0

append_if_version-exclusive_example :
    (append_if_version
      (run plain
        (append_if_version small live_context ann 0 (some (codes "q")) (some (codes "r"))).0
        []
        chat).0
      live_context
      ann
      0
      (some (codes "x"))
      (some (codes "y"))).1
    ≢ ok true
unfolding append_if_version append_turn append_locked check_append validate context_err entry get
append_if_version-exclusive_example =
    append_if_version-exclusive plain small [] chat live_context live_context ann 0
      (some (codes "q")) (some (codes "r")) (some (codes "x")) (some (codes "y")) (omega arith)
      (omega arith) refl

append_idempotent-once_example :
    (append_idempotent plain
      (run plain
        (append_idempotent plain small live_context live_context ann
          (codes "k")
          (some (codes "q"))
          (some (codes "r"))).0
        []
        chat).0
      live_context
      live_context
      ann
      (codes "k")
      (some (codes "q"))
      (some (codes "s"))).1
    ≡ err idempotency_conflict
unfolding append_idempotent append_marked append append_turn append_locked check_append
    check_idempotent message_pair_hash validate context_err entry idempotency_entry get put key_beq
    trim_space
append_idempotent-once_example =
    (append_idempotent-once plain small [] chat live_context live_context live_context live_context
      ann (codes "k") (codes "q") (codes "r") (codes "q") (codes "s") (codes "q" ++ 0 ∷ codes "r")
      (codes "q" ++ 0 ∷ codes "s") ann refl refl refl).0
