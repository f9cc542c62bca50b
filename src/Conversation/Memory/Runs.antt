-- ===== src/Conversation/Memory/Runs.antt =====
-- Any sequence of calls on a MemoryStore, against the transcript of all committed turns.
use on_call_agent.Base.{
  ℕ, suc, ◌+◌, ◌-◌, ◌%◌, ◌^◌, ◌≤◌, ◌≡◌, refl, ap, ◌∙◌, sym, List, [], ◌∷◌, ◌++◌, Option, none, some,
  true, arith, length, if◌then◌else◌, ◌=?◌, Text, ℤ, ok, min, drop-of-nil, Bool-cases, inl, inr,
}
use on_call_agent.Base.Map.{get}
use on_call_agent.Conversation.Key.{SessionKey, session_key_eq, Context, context_err, validate}
use on_call_agent.Conversation.Memory.{
  Store, Entry, Hashing, done, new_memory_store, normalize_max, load, append, append_if_version,
  append_idempotent, commit, view,
}
use on_call_agent.Conversation.Memory.Views.{
  after_turn, turn_if, entry_lem, append_turn_lem, append_lem, append_idempotent_lem,
}
use on_call_agent.Conversation.Memory.Window.{window, trim-window, length-window, normalize_max_lem}

-- The calls of ConversationStore and IdempotentConversationStore.
pub data Call (M : Type 0) : Type 0 where
  load_call : Context → SessionKey → Call M
  append_call : Context → SessionKey → Option M → Option M → Call M
  append_if_version_call : Context → SessionKey → ℕ → Option M → Option M → Call M
  append_idempotent_call : Context → Context → SessionKey → Text → Option M → Option M → Call M

-- What a call may leave in the log: the turn that it reported as committed.
abbrev pub Turn : Type 0 → Type 0
Turn M = SessionKey × M × M

module _ {M : Type 0} where
  abbrev pub logged : List (Turn M) → Option (Turn M) → List (Turn M)
  logged log none = log
  logged log (some t) = log ++ t ∷ []

module _ {M : Type 0} (h : Hashing M) where
  unfoldable pub step : Store M → Call M → Store M × Option (Turn M)
  step s (load_call ctx key) = ((load s ctx key).0, none)
  step s (append_call ctx key u a) =
      let (s', r) = append s ctx key u a in (s', turn_if (done r) key u a)
  step s (append_if_version_call ctx key v u a) =
      let (s', r) = append_if_version s ctx key v u a in (s', turn_if r key u a)
  step s (append_idempotent_call ctx later key request u a) =
      let (s', r) = append_idempotent h s ctx later key request u a in (s', turn_if r key u a)

  -- The store after the calls, and the log of the committed turns, oldest first.
  unfoldable pub run : Store M → List (Turn M) → List (Call M) → Store M × List (Turn M)
  run s log [] = (s, log)
  run s log (c ∷ cs) = let (s', t) = step s c in run s' (logged log t) cs

module _ {M : Type 0} where
  -- The messages of one session in the log, and the number of its turns.
  unfoldable pub transcript : SessionKey → List (Turn M) → List M
  transcript j [] = []
  transcript j ((key, u, a) ∷ log) = if key =? j then u ∷ a ∷ transcript j log else transcript j log

  unfoldable pub turns : SessionKey → List (Turn M) → ℕ
  turns j [] = 0
  turns j ((key, u, a) ∷ log) = if key =? j then turns j log + 1 else turns j log

  transcript-snoc :
      (j key : SessionKey) (u a : M) (log : List (Turn M))
      → transcript j (log ++ (key, u, a) ∷ [])
        ≡ (if key =? j then transcript j log ++ u ∷ a ∷ [] else transcript j log)
  unfolding transcript
  transcript-snoc j key u a [] = ground arith
  transcript-snoc j key u a ((k, v, b) ∷ log) = ground (arith, transcript-snoc j key u a log)

  turns-snoc :
      (j key : SessionKey) (u a : M) (log : List (Turn M))
      → turns j (log ++ (key, u, a) ∷ []) ≡ (if key =? j then turns j log + 1 else turns j log)
  unfolding turns
  turns-snoc j key u a [] = ground arith
  turns-snoc j key u a ((k, v, b) ∷ log) = ground (arith, turns-snoc j key u a log)

  length-transcript :
      (j : SessionKey) (log : List (Turn M)) → length (transcript j log) ≡ turns j log + turns j log
  unfolding transcript turns
  length-transcript j [] = refl
  length-transcript j ((key, u, a) ∷ log) = ground (arith, length-transcript j log)

  pub record Shows (s : Store M) (log : List (Turn M)) (j : SessionKey) : Type 0 where
    pub messages : (view s j).messages ≡ window s.max_messages (transcript j log)
    pub version : (view s j).version ≡ turns j log % 2 ^ 64

  after_turn-Shows :
      (s s' : Store M) (log : List (Turn M)) (j : SessionKey) (t : Option (Turn M))
      → 2 ≤ s.max_messages
      → s.max_messages % 2 ≡ 0
      → Shows s log j
      → view s' j ≡ after_turn s.max_messages j (view s j) t
      → s'.max_messages ≡ s.max_messages
      → Shows s' (logged log t) j
  unfolding commit
  after_turn-Shows s s' log j none big even shows e m = ground arith
  after_turn-Shows s s' log j (some (key, u, a)) big even shows e m = ground (
    arith,
    transcript-snoc j key u a log,
    turns-snoc j key u a log,
    length-transcript j log,
    trim-window s.max_messages (transcript j log) u a,
  )

  new-Shows : (n : ℤ) (j : SessionKey) → Shows (new_memory_store {M = M} n) [] j
  unfolding new_memory_store view get transcript turns
  new-Shows n j = record { messages = sym (drop-of-nil (0 - normalize_max 6 n)); version = refl }

version_after :
    {M : Type 0} (e e' : Entry M) (t : Option (Turn M)) (j : SessionKey) (max v k n : ℕ)
    → e' ≡ after_turn max j e t
    → k ≤ n
    → v % 2 ^ 64 ≡ (e'.version + k) % 2 ^ 64
    → (k : ℕ) × (k ≤ suc n) × (v % 2 ^ 64 ≡ (e.version + k) % 2 ^ 64)
unfolding commit
version_after e e' none j max v k n same few counted = (k, omega arith, ground arith)
version_after e e' (some (key, u, a)) j max v k n same few counted = elim (Bool-cases (key =? j)) [
  | inl hit ↦ (suc k, omega arith, ground arith)
  | inr miss ↦ (k, omega arith, ground arith)
]

new_max : (M : Type 0) (n : ℤ) → (new_memory_store {M = M} n).max_messages ≡ normalize_max 6 n
unfolding new_memory_store
new_max M n = refl

module _ {M : Type 0} (h : Hashing M) where
  step_lem :
      (s : Store M) (c : Call M) (j : SessionKey)
      → (view (step h s c).0 j ≡ after_turn s.max_messages j (view s j) (step h s c).1)
        × ((step h s c).0.max_messages ≡ s.max_messages)
  unfolding step
  step_lem s (load_call ctx key) j = unfold load in ground (arith, entry_lem s key j)
  step_lem s (append_call ctx key u a) j = ground (arith, append_lem s ctx key u a j)
  step_lem s (append_if_version_call ctx key v u a) j =
      unfold append_if_version in ground (arith, append_turn_lem s ctx key v u a true j)
  step_lem s (append_idempotent_call ctx later key request u a) j =
      ground (arith, append_idempotent_lem h s ctx later key request u a j)

  version_of_step :
      (s : Store M) (c : Call M) (j : SessionKey) (v k n : ℕ)
      → k ≤ n
      → v % 2 ^ 64 ≡ ((view (step h s c).0 j).version + k) % 2 ^ 64
      → (k : ℕ) × (k ≤ suc n) × (v % 2 ^ 64 ≡ ((view s j).version + k) % 2 ^ 64)
  version_of_step s c j v k n few counted =
      version_after (view s j) (view (step h s c).0 j) (step h s c).1 j s.max_messages v k n
        (step_lem s c j).0 few counted

  run-Shows :
      (s : Store M) (log : List (Turn M)) (cs : List (Call M)) (j : SessionKey)
      → 2 ≤ s.max_messages
      → s.max_messages % 2 ≡ 0
      → Shows s log j
      → ((run h s log cs).0.max_messages ≡ s.max_messages)
        × Shows (run h s log cs).0 (run h s log cs).1 j
  unfolding run
  run-Shows s log [] j big even shows = (refl, shows)
  run-Shows s log (c ∷ cs) j big even shows =
      let st = step_lem s c j in
      let next =
        run-Shows (step h s c).0 (logged log (step h s c).1) cs j (omega arith) (omega arith)
          (after_turn-Shows s (step h s c).0 log j (step h s c).1 big even shows st.0 st.1) in
      (next.0 ∙ st.1, next.1)

  run_new-Shows :
      (n : ℤ) (cs : List (Call M)) (j : SessionKey)
      → ((run h (new_memory_store n) [] cs).0.max_messages ≡ normalize_max 6 n)
        × Shows (run h (new_memory_store n) [] cs).0 (run h (new_memory_store n) [] cs).1 j
  run_new-Shows n cs j =
      let limit = normalize_max_lem 6 n (omega arith) in
      let (same, shows) =
        run-Shows (new_memory_store n) [] cs j (rw (new_max M n) limit.0) (rw (new_max M n) limit.1)
          (new-Shows n j) in
      (same ∙ new_max M n, shows)

  -- Whatever calls were made on a new store, Load of a valid key under a context that has not ended
  -- returns the last messages of all the turns committed in that session, in order and no more than
  -- the limit, and the number of these turns as an int64.
  pub load-run :
      (n : ℤ) (cs : List (Call M)) (ctx : Context) (j : SessionKey)
      → context_err ctx ≡ ok tt
      → validate j ≡ ok tt
      → let (s, log) = run h (new_memory_store n) [] cs in
        let shown = window (normalize_max 6 n) (transcript j log) in
        ((load s ctx j).1 ≡ ok (shown, turns j log % 2 ^ 64))
        × (length shown ≡ min (turns j log + turns j log) (normalize_max 6 n))
  unfolding load
  load-run n cs ctx j live valid =
      let (max, shows) = run_new-Shows n cs j in
      let log = (run h (new_memory_store n) [] cs).1 in
      let shown = shows.messages ∙ ap (λ k. window k (transcript j log)) max in
      (
        ground (arith, shown, shows.version, entry_lem (run h (new_memory_store n) [] cs).0 j j),
        omega
            (arith, length-window (normalize_max 6 n) (transcript j log), length-transcript j log),
      )

  -- The version of a session counts its commits from any state on.
  pub version-run :
      (s : Store M) (log : List (Turn M)) (cs : List (Call M)) (j : SessionKey)
      → (k : ℕ) × (k ≤ length cs)
        × ((view (run h s log cs).0 j).version % 2 ^ 64 ≡ ((view s j).version + k) % 2 ^ 64)
  unfolding run
  version-run s log [] j = (0, omega arith, omega arith)
  version-run s log (c ∷ cs) j =
      let (k, few, counted) = version-run (step h s c).0 (logged log (step h s c).1) cs j in
      version_of_step s c j (view (run h s log (c ∷ cs)).0 j).version k (length cs) few counted
