-- ===== src/Conversation/Memory/Retries.antt =====
-- AppendIdempotent of MemoryStore: a request key commits once.
use on_call_agent.Base.{
  ◌≡◌, List, [], ◌∷◌, Option, none, some, true, false, arith, if◌then◌else◌, ◌=?◌, Text, nat_eq,
  list_eq, list_beq_iff, ok, err, Option-cases, inl, inr,
}
use on_call_agent.Base.Map.{get, put, get-put}
use on_call_agent.Conversation.Key.{
  idempotency_conflict, SessionKey, session_key_eq, key_beq_iff, Context,
}
use on_call_agent.Conversation.Memory.{
  Store, Hashing, load, append, append_if_version, append_turn, append_marked, append_idempotent,
  check_idempotent, idempotency_entry, message_pair_hash, view, marked,
}
use on_call_agent.Conversation.Memory.Views.{
  entry_lem, append_turn_lem, append_lem, idempotency_entry_lem,
}
use on_call_agent.Conversation.Memory.Runs.{
  Turn, Call, load_call, append_call, append_if_version_call, append_idempotent_call, step, run,
  logged,
}

abbrev no_marks : List (Text × Text)
no_marks = []

module _ {M : Type 0} where
  marked-same :
      (s s' : Store M) (key : SessionKey) (request : Text)
      → s'.idempotency ≡ s.idempotency
      → marked s' key request ≡ marked s key request
  unfolding marked
  marked-same s s' key request e = ground arith

  idempotency_entry-marked :
      (s : Store M) (key j : SessionKey) (request : Text)
      → (marked (idempotency_entry s key).0 j request ≡ marked s j request)
        × (get request (idempotency_entry s key).1 ≡ marked s key request)
  unfolding idempotency_entry marked get
  idempotency_entry-marked s key j request =
      ground (arith, get-put key j no_marks s.idempotency, key_beq_iff key j)

  -- A successful append leaves its mark and keeps all others.
  append_marked-marked :
      (s : Store M) (ctx : Context) (key : SessionKey) (request : Text)
      (values : List (Text × Text)) (u a : M) (hash : Text) (j : SessionKey) (q : Text)
      → marked (append_marked s ctx key request values u a hash).0 j q
        ≡ (elim (append_marked s ctx key request values u a hash).1 [
          | ok _ ↦
              if key =? j then (if request =? q then some hash else get q values) else marked s j q
          | err _ ↦ marked s j q
        ])
  unfolding append_marked marked
  append_marked-marked s ctx key request values u a hash j q =
      let s' = (append s ctx key (some u) (some a)).0 in
      ground (
        arith,
        append_lem s ctx key (some u) (some a) j,
        get-put key j (put request hash values) s'.idempotency,
        get-put request q hash values,
      )

  -- A mark is never lost or changed.
  append_idempotent-marked :
      (h : Hashing M) (s : Store M) (ctx later : Context) (key : SessionKey) (request : Text)
      (user assistant : Option M) (j : SessionKey) (q hash : Text)
      → marked s j q ≡ some hash
      → marked (append_idempotent h s ctx later key request user assistant).0 j q ≡ some hash
  unfolding append_idempotent check_idempotent
  append_idempotent-marked h s ctx later key request none assistant j q hash m = ground arith
  append_idempotent-marked h s ctx later key request (some u) none j q hash m = ground arith
  append_idempotent-marked h s ctx later key request (some u) (some a) j q hash m =
      elim (Option-cases (h.encode_pair u a)) [
        | inl e ↦ ground (arith, e)
        | inr (payload, e) ↦ ground (
          arith,
          e,
          key_beq_iff key j,
          list_beq_iff request q,
          idempotency_entry-marked s key j q,
          append_marked-marked (idempotency_entry s key).0 later key request
              (idempotency_entry s key).1 u a (h.sha256_hex payload) j q,
        )
      ]

  -- A commit leaves the hash of its turn under the request key.
  append_idempotent-marks :
      (h : Hashing M) (s : Store M) (ctx later : Context) (key : SessionKey) (request : Text)
      (u a : M) (hash : Text)
      → message_pair_hash h u a ≡ ok hash
      → (append_idempotent h s ctx later key request (some u) (some a)).1 ≡ ok true
      → marked (append_idempotent h s ctx later key request (some u) (some a)).0 key request
        ≡ some hash
  unfolding append_idempotent check_idempotent
  append_idempotent-marks h s ctx later key request u a hash hashed won = ground (
    arith,
    hashed,
    key_beq_iff key key,
    list_beq_iff request request,
    append_marked-marked (idempotency_entry s key).0 later key request (idempotency_entry s key).1 u
        a hash key request,
  )

  step-marked :
      (h : Hashing M) (s : Store M) (c : Call M) (j : SessionKey) (q hash : Text)
      → marked s j q ≡ some hash
      → marked (step h s c).0 j q ≡ some hash
  unfolding step
  step-marked h s (load_call ctx key) j q hash m =
      unfold load in ground (arith, entry_lem s key j, marked-same s (load s ctx key).0 j q)
  step-marked h s (append_call ctx key u a) j q hash m =
      ground (arith, append_lem s ctx key u a j, marked-same s (append s ctx key u a).0 j q)
  step-marked h s (append_if_version_call ctx key v u a) j q hash m =
      unfold append_if_version in
      ground (
        arith,
        append_turn_lem s ctx key v u a true j,
        marked-same s (append_turn s ctx key v u a true).0 j q,
      )
  step-marked h s (append_idempotent_call ctx later key request u a) j q hash m =
      append_idempotent-marked h s ctx later key request u a j q hash m

  run-marked :
      (h : Hashing M) (s : Store M) (log : List (Turn M)) (cs : List (Call M)) (j : SessionKey)
      (q hash : Text)
      → marked s j q ≡ some hash
      → marked (run h s log cs).0 j q ≡ some hash
  unfolding run
  run-marked h s log [] j q hash m = m
  run-marked h s log (c ∷ cs) j q hash m =
      run-marked h (step h s c).0 (logged log (step h s c).1) cs j q hash
        (step-marked h s c j q hash m)

  retry_of_marked :
      (h : Hashing M) (s : Store M) (ctx later : Context) (key : SessionKey) (request : Text)
      (u a : M) (old hash : Text) (j : SessionKey)
      → marked s key request ≡ some old
      → check_idempotent h ctx key request (some u) (some a) ≡ ok (u, a, hash)
      → let (s', r) = append_idempotent h s ctx later key request (some u) (some a) in
        (r ≡ (if old =? hash then ok false else err idempotency_conflict)) × (view s' j ≡ view s j)
  unfolding append_idempotent
  retry_of_marked h s ctx later key request u a old hash j m checked =
      ground (arith, idempotency_entry-marked s key key request, idempotency_entry_lem s key j)

  -- Once AppendIdempotent has committed a turn under a request key, then after any calls at all a
  -- further call under that key which passes its checks changes no session: it reports that nothing
  -- was committed if its turn has the same hash, and a conflict otherwise.
  pub append_idempotent-once :
      (h : Hashing M) (s : Store M) (log : List (Turn M)) (cs : List (Call M))
      (c₁ c₂ c₃ c₄ : Context) (key : SessionKey) (request : Text) (u a v b : M) (old hash : Text)
      (j : SessionKey)
      → message_pair_hash h u a ≡ ok old
      → (append_idempotent h s c₁ c₂ key request (some u) (some a)).1 ≡ ok true
      → check_idempotent h c₃ key request (some v) (some b) ≡ ok (v, b, hash)
      → let later =
          (run h (append_idempotent h s c₁ c₂ key request (some u) (some a)).0 log cs).0 in
        let (s', r) = append_idempotent h later c₃ c₄ key request (some v) (some b) in
        (r ≡ (if old =? hash then ok false else err idempotency_conflict))
        × (view s' j ≡ view later j)
  append_idempotent-once h s log cs c₁ c₂ c₃ c₄ key request u a v b old hash j hashed won checked =
      let first = (append_idempotent h s c₁ c₂ key request (some u) (some a)).0 in
      retry_of_marked h (run h first log cs).0 c₃ c₄ key request v b old hash j
        (run-marked h first log cs key request old
          (append_idempotent-marks h s c₁ c₂ key request u a old hashed won))
        checked
