-- ===== src/Conversation/Memory.antt =====
-- MemoryStore of internal/conversation/store.go. A method returns the store that it leaves behind
-- and its result. The sync.Maps are association lists; the messages are values, so that the copies
-- that cloneMessage makes are the messages themselves. JSON and SHA-256 are parameters.
pub mod Views
pub mod Window
pub mod Runs
pub mod Compare
pub mod Retries
pub mod Implements
mod Tests
use on_call_agent.Base.{
  ℕ, ◌+◌, ◌-◌, ◌%◌, ◌^◌, Bool, true, false, not, ◌&&◌, List, [], ◌∷◌, ◌++◌, Option, none, some,
  if◌then◌else◌, ltb, ◌==◌, ◌=?◌, Text, is_empty, trim_space, Result, ok, err, ◌>>=◌, ◌>>◌, guard,
  require, length, drop, ℤ, pos, negsuc, nat_eq, list_eq,
}
use on_call_agent.Base.Map.{get, put}
use on_call_agent.Conversation.Key.{
  Error, invalid_message, idempotency_conflict, idempotency_key_required, encode_failed, SessionKey,
  session_key_eq, validate, Context, context_err,
}

-- memoryEntry without its lock. `version` is the bit pattern of an int64.
pub record Entry (M : Type 0) : Type 0 where
  pub messages : List M
  pub version : ℕ

-- `idempotency` holds for each session the request keys with the hashes of their turns.
pub record Store (M : Type 0) : Type 0 where
  pub max_messages : ℕ
  pub entries : List (SessionKey × Entry M)
  pub idempotency : List (SessionKey × List (Text × Text))

-- json.Marshal of a pair of messages (`none` is its error) and hex of SHA-256.
pub record Hashing (M : Type 0) : Type 0 where
  pub encode_pair : M → M → Option Text
  pub sha256_hex : Text → Text

-- `if maxMessages%2 != 0 { maxMessages-- }`
abbrev pub even_below : ℕ → ℕ
even_below n = if n % 2 == 0 then n else n - 1

-- The default of NewMemoryStore and the rounding.
unfoldable pub normalize_max : ℕ → ℤ → ℕ
normalize_max default (pos n) = even_below (if ltb n 2 then default else n)
normalize_max default (negsuc n) = even_below default

-- `excess`, made even by `excess++`
abbrev pub even_above : ℕ → ℕ
even_above n = if n % 2 == 0 then n else n + 1

abbrev pub int64_next : ℕ → ℕ
int64_next v = (v + 1) % 2 ^ 64

-- `_, err := …; return err`
abbrev pub error_of {ℓ κ} : {E : Type ℓ} {A : Type κ} → Result E A → Result E (Unit {0})
error_of (ok _) = ok tt
error_of (err e) = err e

-- The same with the result that a commit reports.
abbrev pub done {ℓ κ} : {E : Type ℓ} {A : Type κ} → Result E A → Result E Bool
done (ok _) = ok true
done (err e) = err e

module _ {M : Type 0} where
  -- NewMemoryStore
  unfoldable pub new_memory_store : ℤ → Store M
  unfolding normalize_max
  new_memory_store n = record { max_messages = normalize_max 6 n; entries = []; idempotency = [] }

  abbrev pub empty_entry : Entry M
  empty_entry = record { messages = []; version = 0 }

  -- MemoryStore.entry: LoadOrStore of an empty entry.
  unfoldable pub entry : Store M → SessionKey → Store M × Entry M
  entry s key = elim (get key s.entries) [
    | some e ↦ (s, e)
    | none ↦ (record s { entries = put key empty_entry s.entries }, empty_entry)
  ]

  -- MemoryStore.Load
  unfoldable pub load : Store M → Context → SessionKey → Store M × Result Error (List M × ℕ)
  load s ctx key = elim (context_err ctx >> validate key) [
    | err e ↦ (s, err e)
    | ok _ ↦ let (s', e) = entry s key in (s', ok (e.messages, e.version))
  ]

  -- The trimming in MemoryStore.append: the oldest messages go, an even number of them.
  unfoldable pub trim : ℕ → List M → List M
  trim max messages =
      if ltb max (length messages)
      then drop (even_above (length messages - max)) messages
      else messages

  -- What MemoryStore.append writes once its checks have passed.
  unfoldable pub commit : ℕ → Entry M → M → M → Entry M
  commit max e user assistant = record {
    messages = trim max (e.messages ++ user ∷ assistant ∷ []);
    version = int64_next e.version;
  }

  -- The checks of MemoryStore.append before it takes the entry's lock.
  unfoldable pub check_append : Context → SessionKey → Option M → Option M → Result Error (M × M)
  check_append ctx key user assistant = do
    context_err ctx
    validate key
    u ← require user invalid_message
    a ← require assistant invalid_message
    ok (u, a)

  -- The rest, under the entry's lock.
  unfoldable pub append_locked :
      Store M → SessionKey → ℕ → M → M → Bool → Store M × Result Error Bool
  append_locked s key expected user assistant check_version =
      let (s', e) = entry s key in
      if check_version && not (e.version == expected) then (s', ok false) else (
        record s' { entries = put key (commit s'.max_messages e user assistant) s'.entries },
        ok true,
      )

  -- MemoryStore.append
  unfoldable pub append_turn :
      Store M → Context → SessionKey → ℕ → Option M → Option M → Bool → Store M × Result Error Bool
  append_turn s ctx key expected user assistant check_version =
      elim (check_append ctx key user assistant) [
        | err e ↦ (s, err e)
        | ok (u, a) ↦ append_locked s key expected u a check_version
      ]

  -- MemoryStore.Append
  unfoldable pub append :
      Store M → Context → SessionKey → Option M → Option M → Store M × Result Error (Unit {0})
  append s ctx key user assistant =
      let (s', r) = append_turn s ctx key 0 user assistant false in (s', error_of r)

  -- MemoryStore.AppendIfVersion
  unfoldable pub append_if_version :
      Store M → Context → SessionKey → ℕ → Option M → Option M → Store M × Result Error Bool
  append_if_version s ctx key expected user assistant =
      append_turn s ctx key expected user assistant true

  -- messagePairHash
  unfoldable pub message_pair_hash : Hashing M → M → M → Result Error Text
  message_pair_hash h user assistant = elim (h.encode_pair user assistant) [
    | none ↦ err encode_failed
    | some payload ↦ ok (h.sha256_hex payload)
  ]

  -- MemoryStore.idempotencyEntry: LoadOrStore of an empty map.
  unfoldable pub idempotency_entry : Store M → SessionKey → Store M × List (Text × Text)
  idempotency_entry s key = elim (get key s.idempotency) [
    | some values ↦ (s, values)
    | none ↦ (record s { idempotency = put key [] s.idempotency }, [])
  ]

  -- The checks of MemoryStore.AppendIdempotent, and the hash.
  unfoldable pub check_idempotent :
      Hashing M → Context → SessionKey → Text → Option M → Option M → Result Error (M × M × Text)
  unfolding message_pair_hash
  check_idempotent h ctx key request user assistant = do
    context_err ctx
    validate key
    guard (not (is_empty (trim_space request))) idempotency_key_required
    u ← require user invalid_message
    a ← require assistant invalid_message
    hash ← message_pair_hash h u a
    ok (u, a, hash)

  -- The inner Append of AppendIdempotent, and the mark that it leaves when it succeeds.
  unfoldable pub append_marked :
      Store M
      → Context
      → SessionKey
      → Text
      → List (Text × Text)
      → M
      → M
      → Text
      → Store M × Result Error Bool
  append_marked s ctx key request values user assistant hash =
      let (s', r) = append s ctx key (some user) (some assistant) in
      elim r [
        | err e ↦ (s', err e)
        | ok _ ↦
            (record s' { idempotency = put key (put request hash values) s'.idempotency }, ok true)
      ]

  -- MemoryStore.AppendIdempotent. The context is read twice, and may end in between.
  unfoldable pub append_idempotent :
      Hashing M
      → Store M
      → Context
      → Context
      → SessionKey
      → Text
      → Option M
      → Option M
      → Store M × Result Error Bool
  append_idempotent h s ctx later key request user assistant =
      elim (check_idempotent h ctx key request user assistant) [
        | err e ↦ (s, err e)
        | ok (u, a, hash) ↦
            let (s', values) = idempotency_entry s key in
            elim (get request values) [
              | some previous ↦
                  (s', if previous =? hash then ok false else err idempotency_conflict)
              | none ↦ append_marked s' later key request values u a hash
            ]
      ]

  -- What a reader of the store sees of a session.
  unfoldable pub view : Store M → SessionKey → Entry M
  view s key = elim (get key s.entries) [ some e ↦ e | none ↦ empty_entry ]

  -- The hash that the store holds for a request key.
  unfoldable pub marked : Store M → SessionKey → Text → Option Text
  marked s key request = elim (get key s.idempotency) [
    | some values ↦ get request values
    | none ↦ none
  ]
