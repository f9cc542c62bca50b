-- ===== src/Conversation/Cache/Tests.antt =====
-- CachedStore over a MemoryStore and a cache that never expires; messages are numbers.
use on_call_agent.Base.{
  ◌≢◌, ℕ, ◌≡◌, refl, ◌⊎◌, Bool, true, false, List, [], ◌∷◌, Option, none, some, arith, Text, codes,
  nat_eq, list_eq, list_beq_iff, has_code, ok,
}
use on_call_agent.Base.Map
use on_call_agent.Base.Map.{get-put, get-delete}
use on_call_agent.Conversation.Key.{
  SessionKey, session_key_eq, key_beq, storage_key, validate, context_err, live_context,
}
use on_call_agent.Conversation.KeyLaws.{session_key}
use on_call_agent.Conversation.Memory.{
  Store, Hashing, append, append_turn, append_locked, check_append, entry, view,
}
use on_call_agent.Conversation.Memory.Implements.{memory_conversations, seen}
use on_call_agent.Conversation.Cache.Defs.{
  ConversationCache, SnapshotCodec, Lookup, hit, miss, CachedStore, load, load_found, load_primary,
  append_cached,
}
use on_call_agent.Conversation.Cache.Coherence.{IsPlain, IsCoherent, load-current}
use on_call_agent.Conversation.Cache.Writes.{writes-IsCoherent}
use on_call_agent.Conversation.Cache.Stale.{load-stale}

abbrev plain : Hashing ℕ
plain = record { encode_pair = λ u a. some (u ∷ a ∷ []); sha256_hex = λ t. t }

abbrev unmarshal : Text → Option (List ℕ × ℕ)
unmarshal [] = none
unmarshal (v ∷ ms) = some (ms, v)

unmarshal-marshal :
    (r r' : List ℕ × ℕ) (raw : Text)
    → ◌≡◌ {A = Option Text} (some (r.1 ∷ r.0)) (some raw)
    → unmarshal raw ≡ some r'
    → r' ≡ r
unmarshal-marshal r r' raw e f = ground (arith, e, f)

abbrev codec : SnapshotCodec ℕ
codec = record {
  marshal = λ r. some (r.1 ∷ r.0);
  unmarshal = unmarshal;
  round_trip = unmarshal-marshal;
}

abbrev answer : Option Text → Lookup
answer none = miss
answer (some raw) = hit raw

answer-hit : (o : Option Text) (raw : Text) → answer o ≡ hit raw → o ≡ some raw
answer-hit o raw e = ground arith

table_set :
    (c : List (Text × Text)) (k v j raw : Text)
    → Map.get j (Map.put k v c) ≡ some raw
    → ((k ≡ j) × (raw ≡ v)) ⊎ (Map.get j c ≡ some raw)
table_set c k v j raw h = ground (arith, get-put k j v c, list_beq_iff k j)

abbrev drop_key : Bool → List (Text × Text) → Text → List (Text × Text) × Bool
drop_key true c k = (Map.delete k c, true)
drop_key false c k = (c, false)

table_delete :
    (works : Bool) (c : List (Text × Text)) (k j raw : Text)
    → Map.get j (drop_key works c k).0 ≡ some raw
    → Map.get j c ≡ some raw
table_delete true c k j raw h = ground (arith, get-delete k j c, list_beq_iff k j)
table_delete false c k j raw h = h

table_gone :
    (works : Bool) (c : List (Text × Text)) (k raw : Text)
    → (drop_key works c k).1 ≡ true
    → Map.get k (drop_key works c k).0 ≡ some raw
    → ⊥
table_gone true c k raw d h = ground (arith, get-delete k k c, list_beq_iff k k)
table_gone false c k raw d h = cc

-- A cache that deletes when `works`, and fails to do so otherwise.
abbrev table : Bool → ConversationCache
table works = record {
  State = List (Text × Text);
  holds = λ c k. Map.get k c;
  get = λ c k. (c, answer (Map.get k c));
  set = λ c k v ttl. Map.put k v c;
  delete = drop_key works;
  get-hit = λ c k. answer-hit (Map.get k c);
  get-holds = λ c k j raw e. e;
  set-holds = λ c k v ttl. table_set c k v;
  delete-holds = table_delete works;
  delete-gone = table_gone works;
}

abbrev ann : SessionKey
ann = session_key (codes "t") (codes "ann") (codes "1")

abbrev one_turn : Store ℕ
one_turn = record {
  max_messages = 4;
  entries = (ann, record { messages = 1 ∷ 2 ∷ []; version = 1 }) ∷ [];
  idempotency = [];
}

abbrev cached :
    (works : Bool)
    → List (Text × Text)
    → CachedStore (memory_conversations plain) (table works) codec
cached works c = record { primary = one_turn; cache = c; ttl = 60 }

ann-IsPlain : IsPlain ann
unfolding has_code
ann-IsPlain = record { tenant = refl; user = refl }

empty-IsCoherent :
    (works : Bool) → IsCoherent (memory_conversations plain) (table works) codec (cached works [])
unfolding Map.get
empty-IsCoherent works = record { current = λ k raw r p held reads. cc }

load-current_example :
    IsCoherent
      (memory_conversations plain)
      (table true)
      codec
      (load (memory_conversations plain) (table true) codec (cached true []) live_context ann).0
load-current_example =
    (load-current (memory_conversations plain) (table true) codec (cached true []) live_context ann
      ann-IsPlain (empty-IsCoherent true)).0

writes-IsCoherent_example :
    IsCoherent
      (memory_conversations plain)
      (table true)
      codec
      (append_cached
        (memory_conversations plain)
        (table true)
        codec
        (cached true [])
        live_context
        ann
        (some 7)
        (some 8)).0
writes-IsCoherent_example =
    (writes-IsCoherent (memory_conversations plain) (table true) codec (cached true []) live_context
      live_context ann 1 (codes "k") (some 7) (some 8) ann-IsPlain (empty-IsCoherent true) refl).0

-- The state once Load has put the session into a cache that will fail to delete it.
abbrev warmed : CachedStore (memory_conversations plain) (table false) codec
warmed =
    (load (memory_conversations plain) (table false) codec (cached false []) live_context ann).0

warmed-IsCoherent : IsCoherent (memory_conversations plain) (table false) codec warmed
warmed-IsCoherent =
    (load-current (memory_conversations plain) (table false) codec (cached false []) live_context
      ann ann-IsPlain (empty-IsCoherent false)).0

-- The turn 7, 8 was committed, and the next Load does not show it.
load-stale_example :
    let (s', done) =
      append_cached
        (memory_conversations plain)
        (table false)
        codec
        warmed
        live_context
        ann
        (some 7)
        (some 8) in
    (done ≡ ok tt)
    × ((load (memory_conversations plain) (table false) codec s' live_context ann).1
        ≡ ok (1 ∷ 2 ∷ [], 1))
    × ((seen s'.primary ann).1 ≢ 1)
unfolding append append_turn append_locked check_append context_err validate entry Map.get Map.put
    key_beq storage_key view load load_found load_primary on_call_agent.Conversation.Memory.load
load-stale_example =
    load-stale (memory_conversations plain) (table false) codec warmed live_context live_context ann
      (some 7) (some 8) (1 ∷ 1 ∷ 2 ∷ []) (1 ∷ 2 ∷ [], 1) refl ann-IsPlain warmed-IsCoherent refl
      refl refl refl
