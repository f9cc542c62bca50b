-- ===== src/Conversation/Cache/Stale.antt =====
-- When CachedStore returns what its primary store does not hold.
use on_call_agent.Base.{ℕ, ◌≡◌, ◌≢◌, false, ◌∙◌, List, Option, some, arith, Text, ok}
use on_call_agent.Conversation.Key.{SessionKey, session_key_eq, storage_key, validate, Context}
use on_call_agent.Conversation.Interface.{ConversationStore}
use on_call_agent.Conversation.Cache.Coherence.{IsPlain, IsCoherent}
use on_call_agent.Conversation.Cache.Defs.{
  ConversationCache, SnapshotCodec, hit, miss, CachedStore, load, load_found, load_primary,
  invalidate, append_cached,
}

module _ {M : Type 0} (p : ConversationStore M) (c : ConversationCache)
    (codec : SnapshotCodec M) where
  -- If the cache was coherent and fails to delete, and still has an entry of the session that can be
  -- read, then Append reports the turn as committed, and the next Load returns what the session held
  -- before that turn, with another version than the primary store now has.
  pub load-stale :
      (s : CachedStore p c codec) (ctx after : Context) (key : SessionKey) (u a : Option M)
      (raw : Text) (r : List M × ℕ)
      → validate key ≡ ok tt
      → IsPlain key
      → IsCoherent p c codec s
      → (p.append s.primary ctx key u a).1 ≡ ok tt
      → (c.delete s.cache (storage_key key)).1 ≡ false
      → (c.get (c.delete s.cache (storage_key key)).0 (storage_key key)).1 ≡ hit raw
      → codec.unmarshal raw ≡ some r
      → let (s', done) = append_cached p c codec s ctx key u a in
        (done ≡ ok tt)
        × ((load p c codec s' after key).1 ≡ ok (p.seen s.primary key))
        × ((p.seen s'.primary key).1 ≢ (p.seen s.primary key).1)
  unfolding load load_found append_cached invalidate
  load-stale s ctx after key u a raw r valid plain coherent committed kept served reads =
      let k = storage_key key in
      let held = c.delete-holds s.cache k k raw (
        c.get-holds (c.delete s.cache k).0 k k raw
          (c.get-hit (c.delete s.cache k).0 k raw served)) in
      let old = coherent.current key raw r plain held reads in
      let moved = p.append-version s.primary ctx key u a committed in
      (
        ground (arith, committed),
        ground (arith, valid, committed, served, reads, old),
        ground (arith, committed, moved),
      )

  -- Two keys with one storage key share their cache entry: after Load of the one has stored what it
  -- read, Load of the other returns the first one's conversation.
  load-shared :
      (s : CachedStore p c codec) (ctx after : Context) (j k : SessionKey) (raw : Text)
      (r r' : List M × ℕ)
      → storage_key j ≡ storage_key k
      → validate j ≡ ok tt
      → validate k ≡ ok tt
      → (c.get s.cache (storage_key j)).1 ≡ miss
      → (p.load s.primary ctx j).1 ≡ ok r
      → codec.marshal r ≡ some raw
      → (c.get
          (c.set (c.get s.cache (storage_key j)).0 (storage_key j) raw s.ttl)
          (storage_key j)).1
        ≡ hit raw
      → codec.unmarshal raw ≡ some r'
      → (load p c codec (load p c codec s ctx j).0 after k).1 ≡ ok (p.seen s.primary j)
  unfolding load load_found load_primary
  load-shared s ctx after j k raw r r' shared vj vk missed read marshalled served reads =
      let same =
        codec.round_trip r r' raw marshalled reads ∙ p.load-result s.primary ctx j r read in
      ground (arith, shared, vj, vk, missed, read, marshalled, served, reads, same)
