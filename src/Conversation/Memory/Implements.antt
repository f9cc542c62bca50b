-- ===== src/Conversation/Memory/Implements.antt =====
-- MemoryStore has the laws of ConversationStore.
use on_call_agent.Base.{
  inl, inr, Result-cases, ℕ, ◌≡◌, refl, ◌≢◌, Bool, true, false, List, Option, none, some, arith,
  Result, ok, err,
}
use on_call_agent.Conversation.Key.{Error, SessionKey, session_key_eq, key_beq_iff, Context}
use on_call_agent.Conversation.Interface.{ConversationStore}
use on_call_agent.Conversation.Memory.{
  Store, Entry, Hashing, done, view, int64_next, check_append, append_turn, commit, load, append,
  append_if_version, append_idempotent,
}
use on_call_agent.Conversation.Memory.Views.{
  after_turn, turn_if, entry_lem, append_locked_lem, append_lem, append_turn_lem,
  append_idempotent_lem,
}

pub done-failed : (r : Result Error (Unit {0})) → r ≢ ok tt → done r ≢ ok true
done-failed (ok t) failed e = failed refl
done-failed (err x) failed e = cc

module _ {M : Type 0} where
  abbrev pub seen : Store M → SessionKey → List M × ℕ
  seen s k = ((view s k).messages, (view s k).version)

  after_turn-other :
      (max : ℕ) (k j : SessionKey) (e : Entry M) (r : Result Error Bool) (u a : Option M)
      → k ≢ j
      → after_turn max j e (turn_if r k u a) ≡ e
  after_turn-other max k j e (err x) u a other = refl
  after_turn-other max k j e (ok false) u a other = refl
  after_turn-other max k j e (ok true) none a other = refl
  after_turn-other max k j e (ok true) (some u) none other = refl
  after_turn-other max k j e (ok true) (some u) (some a) other = ground (arith, key_beq_iff k j)

  turn_if-failed :
      (k : SessionKey) (r : Result Error Bool) (u a : Option M)
      → r ≢ ok true
      → turn_if r k u a ≡ none
  turn_if-failed k (err x) u a failed = refl
  turn_if-failed k (ok false) u a failed = refl
  turn_if-failed k (ok true) u a failed = absurd (failed refl)

  pub seen-other :
      (s s' : Store M) (k j : SessionKey) (r : Result Error Bool) (u a : Option M)
      → view s' j ≡ after_turn s.max_messages j (view s j) (turn_if r k u a)
      → k ≢ j
      → seen s' j ≡ seen s j
  seen-other s s' k j r u a e other =
      ground (arith, e, after_turn-other s.max_messages k j (view s j) r u a other)

  pub seen-failed :
      (s s' : Store M) (k j : SessionKey) (r : Result Error Bool) (u a : Option M)
      → view s' j ≡ after_turn s.max_messages j (view s j) (turn_if r k u a)
      → r ≢ ok true
      → seen s' j ≡ seen s j
  seen-failed s s' k j r u a e failed = ground (arith, e, turn_if-failed k r u a failed)

  pub load-result :
      (s : Store M) (ctx : Context) (k : SessionKey) (r : List M × ℕ)
      → (load s ctx k).1 ≡ ok r
      → r ≡ seen s k
  unfolding load
  load-result s ctx k r h = ground (arith, entry_lem s k k)

  pub load-seen :
      (s : Store M) (ctx : Context) (k j : SessionKey) → seen (load s ctx k).0 j ≡ seen s j
  unfolding load
  load-seen s ctx k j = ground (arith, entry_lem s k j)

  pub append_if_version_lem :
      (s : Store M) (ctx : Context) (k : SessionKey) (v : ℕ) (u a : Option M) (j : SessionKey)
      → view (append_if_version s ctx k v u a).0 j
        ≡ after_turn s.max_messages j (view s j) (turn_if (append_if_version s ctx k v u a).1 k u a)
  unfolding append_if_version
  append_if_version_lem s ctx k v u a j = (append_turn_lem s ctx k v u a true j).0

int64_next-moves : (v : ℕ) → int64_next v ≢ v
int64_next-moves v h = omega (arith, h)

module _ {M : Type 0} where
  pub append-version :
      (s : Store M) (ctx : Context) (k : SessionKey) (u a : Option M)
      → (append s ctx k u a).1 ≡ ok tt
      → (seen (append s ctx k u a).0 k).1 ≢ (seen s k).1
  unfolding append append_turn commit
  append-version s ctx k u a h same = elim (Result-cases (check_append ctx k u a)) [
    | inr (e, q) ↦ absurd (ground (arith, q, h))
    | inl ((x, y), q) ↦
        int64_next-moves (seen s k).1
          (ground (arith, q, same, append_locked_lem s k 0 x y false k, key_beq_iff k k))
  ]

module _ {M : Type 0} (h : Hashing M) where
  abbrev pub memory_conversations : ConversationStore M
  memory_conversations = record {
    State = Store M;
    seen = seen;
    load = load;
    append = append;
    append_if_version = append_if_version;
    is_idempotent = true;
    append_idempotent = append_idempotent h;
    load-result = load-result;
    load-seen = load-seen;
    append-other =
        λ s ctx k u a j other. seen-other s _ k j _ u a (append_lem s ctx k u a j).0 other;
    append-failed = λ s ctx k u a j failed.
        seen-failed s _ k j _ u a (append_lem s ctx k u a j).0 (done-failed _ failed);
    append-version = append-version;
    append_if_version-other = λ s ctx k v u a j other.
        seen-other s _ k j _ u a (append_if_version_lem s ctx k v u a j) other;
    append_if_version-failed = λ s ctx k v u a j failed.
        seen-failed s _ k j _ u a (append_if_version_lem s ctx k v u a j) failed;
    append_idempotent-other = λ s ctx later k q u a j other.
        seen-other s _ k j _ u a (append_idempotent_lem h s ctx later k q u a j).0 other;
    append_idempotent-failed = λ s ctx later k q u a j failed.
        seen-failed s _ k j _ u a (append_idempotent_lem h s ctx later k q u a j).0 failed;
  }
