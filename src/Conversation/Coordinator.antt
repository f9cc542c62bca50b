-- ===== src/Conversation/Coordinator.antt =====
-- Coordinator of internal/conversation/store.go: one token for each session key. A call of Run is cut
-- where it can wait: it checks, takes the token of its session, runs the callback, and puts the
-- token back. Any number of calls take these steps in any order.
mod Tests
use on_call_agent.Base.{
  ℕ, suc, ◌+◌, ◌≤◌, ◌≡◌, refl, ◌⊎◌, Bool, true, false, not, List, [], ◌∷◌, Option, none, some,
  if◌then◌else◌, ◌=?◌, arith, Result, ok, err, ◌>>=◌, ◌>>◌, guard,
}
use on_call_agent.Base.Map.{get, put, get-put}
use on_call_agent.Conversation.Key.{
  Error, callback_required, SessionKey, session_key_eq, key_beq_iff, validate, Context, context_err,
}

-- The locks; `true` where the token is in the channel.
pub record Coordinator : Type 0 where
  pub locks : List (SessionKey × Bool)

-- Coordinator.lock: LoadOrStore of a lock that has its token.
unfoldable pub lock : Coordinator → SessionKey → Coordinator × Bool
lock c key = elim (get key c.locks) [
  | some free ↦ (c, free)
  | none ↦ (record { locks = put key true c.locks }, true)
]

-- The checks of Coordinator.Run.
unfoldable pub check_run : Context → SessionKey → Bool → Result Error (Unit {0})
check_run ctx key has_callback = do
  context_err ctx
  validate key
  guard has_callback callback_required
  ok tt

-- `<-lock.token`, when the token is there.
unfoldable pub take_token : Coordinator → SessionKey → Coordinator
take_token c key = record { locks = put key false c.locks }

-- The deferred `lock.token <- struct{}{}`.
unfoldable pub put_token : Coordinator → SessionKey → Coordinator
put_token c key = record { locks = put key true c.locks }

-- The coordinator and the sessions whose callbacks are running.
pub record World : Type 0 where
  pub coordinator : Coordinator
  pub running : List SessionKey

unfoldable pub count : SessionKey → List SessionKey → ℕ
count k [] = 0
count k (j ∷ js) = if j =? k then suc (count k js) else count k js

-- One callback of a session returns.
unfoldable pub finish_one : SessionKey → List SessionKey → List SessionKey
finish_one k [] = []
finish_one k (j ∷ js) = if j =? k then js else j ∷ finish_one k js

-- `refused` fails a check; `waits` finds no token, or gives up on its context; `runs` finds it.
pub data Step : World → World → Type 0 where
  refused :
      (w : World) (ctx : Context) (key : SessionKey) (f : Bool) (e : Error)
      → check_run ctx key f ≡ err e
      → Step w w
  waits :
      (w : World) (ctx : Context) (key : SessionKey) (f : Bool)
      → check_run ctx key f ≡ ok tt
      → Step w (record w { coordinator = (lock w.coordinator key).0 })
  runs :
      (w : World) (ctx : Context) (key : SessionKey) (f : Bool)
      → check_run ctx key f ≡ ok tt
      → (lock w.coordinator key).1 ≡ true
      → Step w (record {
        coordinator = take_token (lock w.coordinator key).0 key;
        running = key ∷ w.running;
      })
  returns :
      (w : World) (key : SessionKey)
      → 1 ≤ count key w.running
      → Step w
          (record { coordinator = put_token w.coordinator key; running = finish_one key w.running })

pub data Reach (s : World) : World → Type 0 where
  here : Reach s s
  next : {t u : World} → Reach s t → Step t u → Reach s u

-- NewCoordinator
abbrev pub new_coordinator : World
new_coordinator = record { coordinator = record { locks = [] }; running = [] }

-- The token in the channel of a session; a lock not yet made has one.
unfoldable pub token : Coordinator → SessionKey → ℕ
token c key = elim (get key c.locks) [ none ↦ 1 | some free ↦ if free then 1 else 0 ]

token-lock :
    (c : Coordinator) (key j : SessionKey)
    → (token (lock c key).0 j ≡ token c j) × (token c key ≡ (if (lock c key).1 then 1 else 0))
unfolding token lock
token-lock c key j = ground (arith, get-put key j true c.locks, key_beq_iff key j)

token-put :
    (c : Coordinator) (key : SessionKey) (free : Bool) (j : SessionKey)
    → token (record { locks = put key free c.locks }) j
      ≡ (if key =? j then (if free then 1 else 0) else token c j)
unfolding token
token-put c key free j = ground (arith, get-put key j free c.locks)

count-finish_one :
    (k j : SessionKey) (js : List SessionKey)
    → 1 ≤ count k js
    → (if k =? j then suc (count j (finish_one k js)) else count j (finish_one k js)) ≡ count j js
unfolding count finish_one
count-finish_one k j [] h = absurd (omega arith)
count-finish_one k j (i ∷ js) h =
    ground (arith, key_beq_iff k j, key_beq_iff i k, key_beq_iff i j, count-finish_one k j js)

-- For each session either the token is in its channel or one callback runs.
Step-exclusive :
    {t u : World} (j : SessionKey)
    → Step t u
    → ((k : SessionKey) → token t.coordinator k + count k t.running ≡ 1)
    → token u.coordinator j + count j u.running ≡ 1
Step-exclusive j (refused w ctx key f e h) inv = inv j
Step-exclusive j (waits w ctx key f h) inv = omega (arith, inv j, token-lock w.coordinator key j)
Step-exclusive j (runs w ctx key f h free) inv =
    unfold take_token count in
    ground (
      arith,
      inv j,
      token-lock w.coordinator key j,
      token-lock w.coordinator key key,
      token-put (lock w.coordinator key).0 key false j,
      key_beq_iff key j,
    )
Step-exclusive j (returns w key h) inv =
    unfold put_token in
    ground (
      arith,
      inv j,
      inv key,
      token-put w.coordinator key true j,
      count-finish_one key j w.running h,
      key_beq_iff key j,
    )

Reach-held :
    {w : World} (j : SessionKey)
    → Reach new_coordinator w
    → token w.coordinator j + count j w.running ≡ 1
unfolding token get count
Reach-held j here = refl
Reach-held j (next r st) = Step-exclusive j st (λ k. Reach-held k r)

-- In any interleaving of calls of Run, at most one callback of a session runs at a time, and while
-- none runs the session's token is there for the next call.
pub Reach-exclusive :
    {w : World} (j : SessionKey)
    → Reach new_coordinator w
    → (count j w.running ≤ 1) × (count j w.running ≡ 0 → token w.coordinator j ≡ 1)
Reach-exclusive j r = let h = Reach-held j r in (omega arith, λ e. omega arith)
