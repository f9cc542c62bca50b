-- ===== src/Conversation/Cache/Coherence.antt =====
-- When CachedStore returns what its primary store holds.
use on_call_agent.Base.{
  ℕ, ◌≡◌, refl, sym, ◌∙◌, ap, subst, ◌≢◌, inl, inr, false, List, some, arith, Text, has_code, ok,
  Option-cases, Bool-cases, Result-cases, ◌=?◌,
}
use on_call_agent.Conversation.Key.{
  SessionKey, session_key_eq, key_beq_iff, storage_key, validate, Context,
}
use on_call_agent.Conversation.KeyLaws.{storage_key-injective}
use on_call_agent.Conversation.Interface.{ConversationStore}
use on_call_agent.Conversation.Cache.Defs.{
  ConversationCache, SnapshotCodec, Lookup, hit, miss, outage, CachedStore, load, load_found,
  load_primary,
}

-- The identifiers from which a storage key can be read back.
pub record IsPlain (k : SessionKey) : Type 0 where
  pub tenant : has_code b':' k.tenant_id ≡ false
  pub user : has_code b':' k.user_id ≡ false

storage_key-eq : (j k : SessionKey) → IsPlain j → IsPlain k → storage_key j ≡ storage_key k → j ≡ k
storage_key-eq j k a b e = storage_key-injective j k a.tenant b.tenant a.user b.user e

module _ {M : Type 0} (p : ConversationStore M) (c : ConversationCache)
    (codec : SnapshotCodec M) where
  abbrev Cached : Type 0
  Cached = CachedStore p c codec

  -- Every snapshot that the cache holds for a plain key is what the primary store holds.
  pub record IsCoherent (s : Cached) : Type 0 where
    pub current :
        (k : SessionKey) (raw : Text) (r : List M × ℕ)
        → IsPlain k
        → c.holds s.cache (storage_key k) ≡ some raw
        → codec.unmarshal raw ≡ some r
        → r ≡ p.seen s.primary k

  -- A state that holds no more, over a primary that shows the same.
  pub same_primary :
      (s s' : Cached)
      → IsCoherent s
      → ((k raw : Text) → c.holds s'.cache k ≡ some raw → c.holds s.cache k ≡ some raw)
      → ((k : SessionKey) → p.seen s'.primary k ≡ p.seen s.primary k)
      → IsCoherent s'
  same_primary s s' coherent fewer same = record {
    current = λ k raw r plain held reads.
        coherent.current k raw r plain (fewer (storage_key k) raw held) reads ∙ sym (same k);
  }

  -- A commit in one session, whose entry is gone from the cache.
  pub one_session :
      (s s' : Cached) (key : SessionKey)
      → IsPlain key
      → IsCoherent s
      → ((k raw : Text) → c.holds s'.cache k ≡ some raw → c.holds s.cache k ≡ some raw)
      → ((raw : Text) → c.holds s'.cache (storage_key key) ≡ some raw → ⊥)
      → ((k : SessionKey) → key ≢ k → p.seen s'.primary k ≡ p.seen s.primary k)
      → IsCoherent s'
  one_session s s' key plain_key coherent fewer gone same = record {
    current = λ k raw r plain held reads. elim (Bool-cases (key =? k)) [
      | inl e ↦ absurd (
          gone raw (
            subst (λ j. c.holds s'.cache (storage_key j) ≡ some raw) (sym ((key_beq_iff key k).0 e))
              held))
      | inr e ↦
          coherent.current k raw r plain (fewer (storage_key k) raw held) reads
          ∙ sym (same k (λ q. cc (e, (key_beq_iff key k).1 q)))
    ];
  }

  -- A snapshot of what the primary store holds is written for one plain key.
  pub written :
      (s s' : Cached) (key : SessionKey) (v : Text) (r : List M × ℕ)
      → IsPlain key
      → IsCoherent s
      → codec.marshal r ≡ some v
      → r ≡ p.seen s.primary key
      → s'.cache ≡ c.set s.cache (storage_key key) v s.ttl
      → ((k : SessionKey) → p.seen s'.primary k ≡ p.seen s.primary k)
      → IsCoherent s'
  written s s' key v r plain_key coherent marshalled loaded stored same = record {
    current = λ k raw r' plain held reads.
        elim (c.set-holds s.cache (storage_key key) v s.ttl (storage_key k) raw
          (subst (λ t. c.holds t (storage_key k) ≡ some raw) stored held)) [
            | inl (e, w) ↦
                codec.round_trip r r' v marshalled
                  (subst (λ t. codec.unmarshal t ≡ some r') w reads)
                ∙ loaded
                ∙ ap (p.seen s.primary) (storage_key-eq key k plain_key plain e)
                ∙ sym (same k)
            | inr old ↦ coherent.current k raw r' plain old reads ∙ sym (same k)
          ];
  }

  load_primary-IsCoherent :
      (s : Cached) (ctx : Context) (key : SessionKey)
      → IsPlain key
      → IsCoherent s
      → IsCoherent (load_primary p c codec s ctx key).0
  unfolding load_primary
  load_primary-IsCoherent s ctx key plain coherent =
      let same = p.load-seen s.primary ctx key in
      elim (Result-cases (p.load s.primary ctx key).1) [
        | inr (x, e) ↦ rw (e, load_primary) (same_primary s _ coherent (λ k raw held. held) same)
        | inl (r, e) ↦ elim (Option-cases (codec.marshal r)) [
          | inl n ↦ rw (e, n, load_primary) (same_primary s _ coherent (λ k raw held. held) same)
          | inr (v, m) ↦
              rw (e, m, load_primary)
                (written s _ key v r plain coherent m (p.load-result s.primary ctx key r e) refl
                  same)
        ]
      ]

  load_primary-result :
      (s : Cached) (ctx : Context) (key : SessionKey) (r : List M × ℕ)
      → (load_primary p c codec s ctx key).1 ≡ ok r
      → r ≡ p.seen s.primary key
  unfolding load_primary
  load_primary-result s ctx key r loaded = elim (Result-cases (p.load s.primary ctx key).1) [
    | inr (x, e) ↦ absurd (ground (arith, e))
    | inl (q, e) ↦ ground (arith, e, p.load-result s.primary ctx key q e)
  ]

  load_found_lem :
      (s : Cached) (ctx : Context) (key : SessionKey) (found : Lookup)
      → IsPlain key
      → IsCoherent s
      → ((raw : Text) → found ≡ hit raw → c.holds s.cache (storage_key key) ≡ some raw)
      → IsCoherent (load_found p c codec s ctx key found).0
        × ((r : List M × ℕ)
            → (load_found p c codec s ctx key found).1 ≡ ok r
            → r ≡ p.seen s.primary key)
  unfolding load_found
  load_found_lem s ctx key miss plain coherent held =
      (load_primary-IsCoherent s ctx key plain coherent, load_primary-result s ctx key)
  load_found_lem s ctx key outage plain coherent held =
      (load_primary-IsCoherent s ctx key plain coherent, load_primary-result s ctx key)
  load_found_lem s ctx key (hit raw) plain coherent held =
      elim (Option-cases (codec.unmarshal raw)) [
        | inl n ↦
            rw (n, load_found)
              (load_primary-IsCoherent s ctx key plain coherent, load_primary-result s ctx key)
        | inr (q, e) ↦
            rw (e, load_found)
              (
                coherent,
                λ r same. let current = coherent.current key raw q plain (held raw refl) e in cc,
              )
      ]

  -- While the cache is coherent, Load of a plain key returns what the primary store holds, from
  -- either side, and leaves the cache coherent.
  pub load-current :
      (s : Cached) (ctx : Context) (key : SessionKey)
      → IsPlain key
      → IsCoherent s
      → IsCoherent (load p c codec s ctx key).0
        × ((r : List M × ℕ) → (load p c codec s ctx key).1 ≡ ok r → r ≡ p.seen s.primary key)
  unfolding load
  load-current s ctx key plain coherent =
      let s' = record s { cache = (c.get s.cache (storage_key key)).0 } in
      elim (Result-cases (validate key)) [
        | inr (x, e) ↦ rw (e, load) (coherent, λ r same. cc)
        | inl (t, e) ↦
            rw (e, load)
              (load_found_lem s' ctx key (c.get s.cache (storage_key key)).1 plain
                (same_primary s s' coherent (c.get-holds s.cache (storage_key key)) (λ k. refl))
                (c.get-hit s.cache (storage_key key)))
      ]
