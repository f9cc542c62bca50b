-- ===== src/Conversation/Cache/Defs.antt =====
-- CachedStore and RedisConversationCache of internal/conversation/cache.go.
use on_call_agent.Base.{
  ℕ, ◌≡◌, ◌⊎◌, Bool, true, false, List, Option, none, some, ℤ, pos, leb_ℤ, if◌then◌else◌, Text,
  Result, ok, err,
}
use on_call_agent.Conversation.Key.{
  Error, idempotency_unsupported, SessionKey, storage_key, validate, Context,
}
use on_call_agent.Conversation.Interface.{ConversationStore}

-- The answer of Get: the bytes, ErrCacheMiss, or any other error.
pub data Lookup : Type 0 where
  hit : Text → Lookup
  miss : Lookup
  outage : Lookup

-- ConversationCache. `holds` is what a Get would find if nothing expired.
pub record ConversationCache : Type 1 where
  pub State : Type 0
  pub holds : State → Text → Option Text
  pub get : State → Text → State × Lookup
  pub set : State → Text → Text → ℕ → State
  pub delete : State → Text → State × Bool
  pub get-hit : (c : State) (k raw : Text) → (get c k).1 ≡ hit raw → holds (get c k).0 k ≡ some raw
  pub get-holds :
      (c : State) (k j raw : Text) → holds (get c k).0 j ≡ some raw → holds c j ≡ some raw
  pub set-holds :
      (c : State) (k v : Text) (ttl : ℕ) (j raw : Text)
      → holds (set c k v ttl) j ≡ some raw
      → ((k ≡ j) × (raw ≡ v)) ⊎ (holds c j ≡ some raw)
  pub delete-holds :
      (c : State) (k j raw : Text) → holds (delete c k).0 j ≡ some raw → holds c j ≡ some raw
  pub delete-gone :
      (c : State) (k raw : Text) → (delete c k).1 ≡ true → holds (delete c k).0 k ≡ some raw → ⊥

-- json.Marshal and json.Unmarshal of a cachedConversation.
pub record SnapshotCodec (M : Type 0) : Type 0 where
  pub marshal : List M × ℕ → Option Text
  pub unmarshal : Text → Option (List M × ℕ)
  -- What was marshalled reads back as it was, if it reads back.
  pub round_trip :
      (r r' : List M × ℕ) (raw : Text) → marshal r ≡ some raw → unmarshal raw ≡ some r' → r' ≡ r

-- NewCachedStore: five minutes, in nanoseconds, unless the TTL is positive.
unfoldable pub cache_ttl : ℤ → ℕ
cache_ttl (ℤ.pos n) = if leb_ℤ (pos n) (pos 0) then 300_000_000_000 else n
cache_ttl (ℤ.negsuc n) = 300_000_000_000

module _ {M : Type 0} (p : ConversationStore M) (c : ConversationCache)
    (codec : SnapshotCodec M) where
  open p use {append, append_if_version, append_idempotent, is_idempotent}
  open codec use {marshal, unmarshal}

  pub record CachedStore : Type 0 where
    pub primary : p.State
    pub cache : c.State
    pub ttl : ℕ

  -- The reads of CachedStore.Load that do not come from the cache.
  unfoldable pub load_primary :
      CachedStore → Context → SessionKey → CachedStore × Result Error (List M × ℕ)
  load_primary s ctx key =
      let (primary', r) = p.load s.primary ctx key in
      elim r [
        | err e ↦ (record s { primary = primary' }, err e)
        | ok r ↦ (
          record s {
            primary = primary';
            cache = elim (marshal r) [
              | some raw ↦ c.set s.cache (storage_key key) raw s.ttl
              | none ↦ s.cache
            ];
          },
          ok r,
        )
      ]

  -- What CachedStore.Load does with the answer of the cache.
  unfoldable pub load_found :
      CachedStore → Context → SessionKey → Lookup → CachedStore × Result Error (List M × ℕ)
  load_found s ctx key (hit raw) = elim (unmarshal raw) [
    | some snapshot ↦ (s, ok snapshot)
    | none ↦ load_primary s ctx key
  ]
  load_found s ctx key miss = load_primary s ctx key
  load_found s ctx key outage = load_primary s ctx key

  -- CachedStore.Load
  unfoldable pub load : CachedStore → Context → SessionKey → CachedStore × Result Error (List M × ℕ)
  load s ctx key = elim (validate key) [
    | err e ↦ (s, err e)
    | ok _ ↦
        let (cache', found) = c.get s.cache (storage_key key) in
        load_found (record s { cache = cache' }) ctx key found
  ]

  -- CachedStore.invalidate; its callers ignore the error.
  unfoldable pub invalidate : CachedStore → SessionKey → CachedStore × Bool
  invalidate s key =
      let (cache', deleted) = c.delete s.cache (storage_key key) in
      (record s { cache = cache' }, deleted)

  -- CachedStore.Append
  unfoldable pub append_cached :
      CachedStore
      → Context
      → SessionKey
      → Option M
      → Option M
      → CachedStore × Result Error (Unit {0})
  append_cached s ctx key user assistant =
      let (primary', r) = append s.primary ctx key user assistant in
      let s' = record s { primary = primary' } in
      elim r [ err e ↦ (s', err e) | ok t ↦ ((invalidate s' key).0, ok t) ]

  -- The end of AppendIfVersion and AppendIdempotent.
  unfoldable pub invalidate_if :
      CachedStore → SessionKey → Result Error Bool → CachedStore × Result Error Bool
  invalidate_if s key (err e) = (s, err e)
  invalidate_if s key (ok false) = (s, ok false)
  invalidate_if s key (ok true) = ((invalidate s key).0, ok true)

  -- CachedStore.AppendIfVersion
  unfoldable pub append_cached_if_version :
      CachedStore → Context → SessionKey → ℕ → Option M → Option M → CachedStore × Result Error Bool
  append_cached_if_version s ctx key expected user assistant =
      let (primary', r) = append_if_version s.primary ctx key expected user assistant in
      invalidate_if (record s { primary = primary' }) key r

  -- CachedStore.AppendIdempotent
  unfoldable pub append_cached_idempotent :
      CachedStore
      → Context
      → Context
      → SessionKey
      → Text
      → Option M
      → Option M
      → CachedStore × Result Error Bool
  append_cached_idempotent s ctx later key request user assistant =
      let done = append_idempotent s.primary ctx later key request user assistant in
      if is_idempotent
      then invalidate_if (record s { primary = done.0 }) key done.1
      else (s, err idempotency_unsupported)
