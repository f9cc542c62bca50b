-- ===== src/Conversation/Cache/Writes.antt =====
-- Writes through CachedStore keep the cache coherent.
use on_call_agent.Base.{
  ℕ, ◌≡◌, ◌≢◌, inl, inr, Bool, true, false, Option, Text, Result, ok, err, Bool-cases, Result-cases,
}
use on_call_agent.Conversation.Key.{Error, SessionKey, session_key_eq, storage_key, Context}
use on_call_agent.Conversation.Interface.{ConversationStore}
use on_call_agent.Conversation.Cache.Defs.{
  ConversationCache, SnapshotCodec, CachedStore, invalidate, invalidate_if, append_cached,
  append_cached_if_version, append_cached_idempotent,
}
use on_call_agent.Conversation.Cache.Coherence.{IsPlain, IsCoherent, same_primary, one_session}

module _ {M : Type 0} (p : ConversationStore M) (c : ConversationCache)
    (codec : SnapshotCodec M) where
  -- What a write leaves of the cache, when its delete went through.
  invalidate-IsCoherent :
      (s : CachedStore p c codec) (primary' : p.State) (key : SessionKey)
      → IsPlain key
      → IsCoherent p c codec s
      → (c.delete s.cache (storage_key key)).1 ≡ true
      → ((k : SessionKey) → key ≢ k → p.seen primary' k ≡ p.seen s.primary k)
      → IsCoherent p c codec (invalidate p c codec (record s { primary = primary' }) key).0
  unfolding invalidate
  invalidate-IsCoherent s primary' key plain coherent deleted same =
      one_session p c codec s _ key plain coherent (c.delete-holds s.cache (storage_key key))
        (λ raw. c.delete-gone s.cache (storage_key key) raw deleted) same

  invalidate_if-IsCoherent :
      (s : CachedStore p c codec) (primary' : p.State) (key : SessionKey) (r : Result Error Bool)
      → IsPlain key
      → IsCoherent p c codec s
      → (c.delete s.cache (storage_key key)).1 ≡ true
      → ((k : SessionKey) → key ≢ k → p.seen primary' k ≡ p.seen s.primary k)
      → (r ≢ ok true → (k : SessionKey) → p.seen primary' k ≡ p.seen s.primary k)
      → IsCoherent p c codec (invalidate_if p c codec (record s { primary = primary' }) key r).0
  unfolding invalidate_if
  invalidate_if-IsCoherent s primary' key (ok true) plain coherent deleted other failed =
      invalidate-IsCoherent s primary' key plain coherent deleted other
  invalidate_if-IsCoherent s primary' key (ok false) plain coherent deleted other failed =
      same_primary p c codec s _ coherent (λ k raw held. held) (failed (λ e. cc))
  invalidate_if-IsCoherent s primary' key (err x) plain coherent deleted other failed =
      same_primary p c codec s _ coherent (λ k raw held. held) (failed (λ e. cc))

  append_cached-IsCoherent :
      (s : CachedStore p c codec) (ctx : Context) (key : SessionKey) (u a : Option M)
      → IsPlain key
      → IsCoherent p c codec s
      → (c.delete s.cache (storage_key key)).1 ≡ true
      → IsCoherent p c codec (append_cached p c codec s ctx key u a).0
  unfolding append_cached
  append_cached-IsCoherent s ctx key u a plain coherent deleted =
      elim (Result-cases (p.append s.primary ctx key u a).1) [
        | inl (t, e) ↦
            rw (e, append_cached)
              (invalidate-IsCoherent s _ key plain coherent deleted
                (p.append-other s.primary ctx key u a))
        | inr (x, e) ↦
            rw (e, append_cached)
              (same_primary p c codec s _ coherent (λ k raw held. held)
                (λ k. p.append-failed s.primary ctx key u a k (λ q. cc)))
      ]

  append_cached_idempotent-IsCoherent :
      (s : CachedStore p c codec) (ctx later : Context) (key : SessionKey) (request : Text)
      (u a : Option M)
      → IsPlain key
      → IsCoherent p c codec s
      → (c.delete s.cache (storage_key key)).1 ≡ true
      → IsCoherent p c codec (append_cached_idempotent p c codec s ctx later key request u a).0
  unfolding append_cached_idempotent
  append_cached_idempotent-IsCoherent s ctx later key request u a plain coherent deleted =
      elim (Bool-cases p.is_idempotent) [
        | inr e ↦ rw (e, append_cached_idempotent) coherent
        | inl e ↦
            rw (e, append_cached_idempotent)
              (invalidate_if-IsCoherent s _ key _ plain coherent deleted
                (p.append_idempotent-other s.primary ctx later key request u a)
                (λ failed k.
                  p.append_idempotent-failed s.primary ctx later key request u a k failed))
      ]

  -- A write of a plain key through CachedStore, by any of its three methods, keeps the cache
  -- coherent, if the cache can delete the entry of that key.
  pub writes-IsCoherent :
      (s : CachedStore p c codec) (ctx later : Context) (key : SessionKey) (expected : ℕ)
      (request : Text) (u a : Option M)
      → IsPlain key
      → IsCoherent p c codec s
      → (c.delete s.cache (storage_key key)).1 ≡ true
      → IsCoherent p c codec (append_cached p c codec s ctx key u a).0
        × IsCoherent p c codec (append_cached_if_version p c codec s ctx key expected u a).0
        × IsCoherent p c codec (append_cached_idempotent p c codec s ctx later key request u a).0
  unfolding append_cached_if_version
  writes-IsCoherent s ctx later key expected request u a plain coherent deleted = (
    append_cached-IsCoherent s ctx key u a plain coherent deleted,
    invalidate_if-IsCoherent s _ key _ plain coherent deleted
        (p.append_if_version-other s.primary ctx key expected u a)
        (λ failed k. p.append_if_version-failed s.primary ctx key expected u a k failed),
    append_cached_idempotent-IsCoherent s ctx later key request u a plain coherent deleted,
  )
