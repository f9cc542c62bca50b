-- ===== src/Conversation/Memory/Compare.antt =====
-- AppendIfVersion of MemoryStore as a compare-and-swap, and the calls that fail.
use on_call_agent.Base.{
  ℕ, ◌+◌, ◌%◌, ◌^◌, ◌<◌, ◌≡◌, ◌≢◌, List, Option, none, some, true, arith, length, if◌then◌else◌,
  ◌=?◌, ◌&&◌, ◌==◌, ok,
}
use on_call_agent.Conversation.Key.{SessionKey, session_key_eq, key_beq_iff, Context}
use on_call_agent.Conversation.Memory.{
  Store, Hashing, append, append_turn, append_if_version, check_append, commit, view,
}
use on_call_agent.Conversation.Memory.Views.{append_locked_lem, append_lem}
use on_call_agent.Conversation.Memory.Runs.{Turn, Call, run, version-run}

clash :
    (expected k v w : ℕ)
    → expected < 2 ^ 64
    → k + 1 < 2 ^ 64
    → v ≡ (expected + 1) % 2 ^ 64
    → w ≡ expected
    → w % 2 ^ 64 ≡ (v + k) % 2 ^ 64
    → ⊥
clash expected k v w small few one two counted = omega arith

module _ {M : Type 0} where
  -- A call of AppendIfVersion that passes its checks commits exactly when the session has the
  -- expected version, and then changes no other session; otherwise no session changes.
  pub append_if_version-compare :
      (s : Store M) (ctx : Context) (key : SessionKey) (expected : ℕ) (u a : M) (j : SessionKey)
      → check_append ctx key (some u) (some a) ≡ ok (u, a)
      → let (s', r) = append_if_version s ctx key expected (some u) (some a) in
        (r ≡ ok ((view s key).version == expected))
        × (view s' j ≡ (
            if (view s key).version == expected && key =? j
            then commit s.max_messages (view s j) u a
            else view s j))
  unfolding append_if_version append_turn
  append_if_version-compare s ctx key expected u a j checked =
      ground (arith, append_locked_lem s key expected u a true j, key_beq_iff key j)

  committed_at :
      (s : Store M) (ctx : Context) (key : SessionKey) (expected : ℕ) (u a : Option M)
      → (append_if_version s ctx key expected u a).1 ≡ ok true
      → ((view s key).version ≡ expected)
        × ((view (append_if_version s ctx key expected u a).0 key).version
            ≡ (expected + 1) % 2 ^ 64)
  unfolding append_if_version append_turn check_append commit
  committed_at s ctx key expected none a h = ground arith
  committed_at s ctx key expected (some u) none h = ground arith
  committed_at s ctx key expected (some u) (some a) h =
      ground (arith, append_locked_lem s key expected u a true key, key_beq_iff key key)

  -- Of two calls of AppendIfVersion that expect the same version only one can commit, whatever
  -- calls stand between them, as long as these are fewer than 2^64 - 1.
  pub append_if_version-exclusive :
      (h : Hashing M) (s : Store M) (log : List (Turn M)) (cs : List (Call M))
      (first second : Context) (key : SessionKey) (expected : ℕ) (u a v b : Option M)
      → expected < 2 ^ 64
      → length cs + 1 < 2 ^ 64
      → (append_if_version s first key expected u a).1 ≡ ok true
      → let later = (run h (append_if_version s first key expected u a).0 log cs).0 in
        (append_if_version later second key expected v b).1 ≢ ok true
  append_if_version-exclusive h s log cs first second key expected u a v b small few won again =
      let s' = (append_if_version s first key expected u a).0 in
      let (k, at_most, counted) = version-run h s' log cs key in
      let one = (committed_at s first key expected u a won).1 in
      let two = (committed_at (run h s' log cs).0 second key expected v b again).0 in
      clash expected k (view s' key).version (view (run h s' log cs).0 key).version small
        (omega arith) one two counted

  -- A call that does not report a commit leaves what every session shows, and the limit.
  pub append-unchanged :
      (s : Store M) (ctx : Context) (key : SessionKey) (u a : Option M) (j : SessionKey)
      → (append s ctx key u a).1 ≢ ok tt
      → view (append s ctx key u a).0 j ≡ view s j
  append-unchanged s ctx key u a j failed = ground (arith, append_lem s ctx key u a j)
