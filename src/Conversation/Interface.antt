-- ===== src/Conversation/Interface.antt =====
-- ConversationStore and IdempotentConversationStore of internal/conversation/store.go: the methods,
-- and the laws on which a client may rely. `seen` is what a session holds, its messages and version.
use on_call_agent.Base.{ℕ, ◌≡◌, ◌≢◌, Bool, true, List, Option, Text, Result, ok}
use on_call_agent.Conversation.Key.{Error, SessionKey, Context}

pub record ConversationStore (M : Type 0) : Type 1 where
  pub State : Type 0
  pub seen : State → SessionKey → List M × ℕ
  pub load : State → Context → SessionKey → State × Result Error (List M × ℕ)
  pub append : State → Context → SessionKey → Option M → Option M → State × Result Error (Unit {0})
  pub append_if_version :
      State → Context → SessionKey → ℕ → Option M → Option M → State × Result Error Bool
  -- Whether the store has AppendIdempotent too.
  pub is_idempotent : Bool
  pub append_idempotent :
      State
      → Context
      → Context
      → SessionKey
      → Text
      → Option M
      → Option M
      → State × Result Error Bool
  pub load-result :
      (s : State) (ctx : Context) (k : SessionKey) (r : List M × ℕ)
      → (load s ctx k).1 ≡ ok r
      → r ≡ seen s k
  pub load-seen :
      (s : State) (ctx : Context) (k j : SessionKey) → seen (load s ctx k).0 j ≡ seen s j
  pub append-other :
      (s : State) (ctx : Context) (k : SessionKey) (u a : Option M) (j : SessionKey)
      → k ≢ j
      → seen (append s ctx k u a).0 j ≡ seen s j
  pub append-failed :
      (s : State) (ctx : Context) (k : SessionKey) (u a : Option M) (j : SessionKey)
      → (append s ctx k u a).1 ≢ ok tt
      → seen (append s ctx k u a).0 j ≡ seen s j
  -- A committed turn gives the session another version.
  pub append-version :
      (s : State) (ctx : Context) (k : SessionKey) (u a : Option M)
      → (append s ctx k u a).1 ≡ ok tt
      → (seen (append s ctx k u a).0 k).1 ≢ (seen s k).1
  pub append_if_version-other :
      (s : State) (ctx : Context) (k : SessionKey) (v : ℕ) (u a : Option M) (j : SessionKey)
      → k ≢ j
      → seen (append_if_version s ctx k v u a).0 j ≡ seen s j
  pub append_if_version-failed :
      (s : State) (ctx : Context) (k : SessionKey) (v : ℕ) (u a : Option M) (j : SessionKey)
      → (append_if_version s ctx k v u a).1 ≢ ok true
      → seen (append_if_version s ctx k v u a).0 j ≡ seen s j
  pub append_idempotent-other :
      (s : State) (ctx later : Context) (k : SessionKey) (request : Text) (u a : Option M)
      (j : SessionKey)
      → k ≢ j
      → seen (append_idempotent s ctx later k request u a).0 j ≡ seen s j
  pub append_idempotent-failed :
      (s : State) (ctx later : Context) (k : SessionKey) (request : Text) (u a : Option M)
      (j : SessionKey)
      → (append_idempotent s ctx later k request u a).1 ≢ ok true
      → seen (append_idempotent s ctx later k request u a).0 j ≡ seen s j
