-- ===== src/Conversation/Registry/Idle.antt =====
-- What stopping and evicting do to each session.
use on_call_agent.Base.{
  ℕ, ◌≡◌, refl, ◌∙◌, inl, inr, Bool, true, false, List, [], ◌∷◌, arith, if◌then◌else◌, nat_eq, ◌==◌,
  Bool-cases,
}
use on_call_agent.Base.Map.{get-put}
use on_call_agent.Conversation.Key.{SessionKey, session_key_eq}
use on_call_agent.Conversation.Registry.{
  Registry, deref, stop, stop_each, stop_all, is_idle, idle_sessions, busy_sessions, evict_idle,
}
use on_call_agent.Conversation.Registry.Bounds.{stop_each_lem}

-- The addresses of a list of sessions all meet a test.
abbrev pub AllMeet : (ℕ → Bool) → Bool → List (SessionKey × ℕ) → Type 0
AllMeet test b [] = Unit {0}
AllMeet test b ((key, address) ∷ rest) = (test address ≡ b) × AllMeet test b rest

idle_sessions-AllMeet :
    (r : Registry) (now : ℕ) (xs : List (SessionKey × ℕ))
    → AllMeet (is_idle r now) true (idle_sessions r now xs)
unfolding idle_sessions
idle_sessions-AllMeet r now [] = tt
idle_sessions-AllMeet r now ((key, address) ∷ rest) = elim (Bool-cases (is_idle r now address)) [
  | inl e ↦ rw (e, idle_sessions) (e, idle_sessions-AllMeet r now rest)
  | inr e ↦ rw (e, idle_sessions) (idle_sessions-AllMeet r now rest)
]

busy_sessions-AllMeet :
    (r : Registry) (now : ℕ) (xs : List (SessionKey × ℕ))
    → AllMeet (is_idle r now) false (busy_sessions r now xs)
unfolding busy_sessions
busy_sessions-AllMeet r now [] = tt
busy_sessions-AllMeet r now ((key, address) ∷ rest) = elim (Bool-cases (is_idle r now address)) [
  | inl e ↦ rw (e, busy_sessions) (busy_sessions-AllMeet r now rest)
  | inr e ↦ rw (e, busy_sessions) (e, busy_sessions-AllMeet r now rest)
]

deref-stop :
    (r : Registry) (a b : ℕ)
    → deref (stop r a) b ≡ (if a == b then record (deref r b) { stopped = true } else deref r b)
unfolding stop deref
deref-stop r a b = ground (arith, get-put a b (record (deref r a) { stopped = true }) r.heap)

stop_each-other :
    (test : ℕ → Bool) (r : Registry) (a : ℕ) (xs : List (SessionKey × ℕ))
    → AllMeet test true xs
    → test a ≡ false
    → deref (stop_each r xs) a ≡ deref r a
unfolding stop_each
stop_each-other test r a [] all other = refl
stop_each-other test r a ((key, b) ∷ rest) all other =
    stop_each-other test (stop r b) a rest all.1 other
    ∙ ground (arith, deref-stop r b a, all.0, other)

stop_each-stopped :
    (r : Registry) (a : ℕ) (xs : List (SessionKey × ℕ))
    → (deref r a).stopped ≡ true
    → (deref (stop_each r xs) a).stopped ≡ true
unfolding stop_each
stop_each-stopped r a [] h = h
stop_each-stopped r a ((key, b) ∷ rest) h =
    stop_each-stopped (stop r b) a rest (ground (arith, deref-stop r b a))

-- The sessions of a list are stopped.
abbrev pub AllStopped : Registry → List (SessionKey × ℕ) → Type 0
AllStopped r xs = AllMeet (λ a. (deref r a).stopped) true xs

stop_each-AllStopped : (r : Registry) (xs : List (SessionKey × ℕ)) → AllStopped (stop_each r xs) xs
unfolding stop_each
stop_each-AllStopped r [] = tt
stop_each-AllStopped r ((key, a) ∷ rest) = (
  stop_each-stopped (stop r a) a rest (ground (arith, deref-stop r a a)),
  stop_each-AllStopped (stop r a) rest,
)

-- StopAll leaves no session registered, and has stopped each that was.
stop_all_lem : (r : Registry) → ((stop_all r).sessions ≡ []) × AllStopped (stop_all r) r.sessions
unfolding stop_all
stop_all_lem r = (
  (stop_each_lem (record r { sessions = [] }) r.sessions).0,
  stop_each-AllStopped (record r { sessions = [] }) r.sessions,
)

-- Evicting idle sessions leaves every session that is not idle as it was, keeps only such sessions
-- registered, and stops each registered one that was idle.
evict_idle_lem :
    (r : Registry) (now a : ℕ)
    → (is_idle r now a ≡ false → deref (evict_idle r now) a ≡ deref r a)
      × AllMeet (is_idle r now) false (evict_idle r now).sessions
      × AllStopped (evict_idle r now) (idle_sessions r now r.sessions)
unfolding evict_idle
evict_idle_lem r now a =
    let kept = record r { sessions = busy_sessions r now r.sessions } in
    let idle = idle_sessions r now r.sessions in
    (
      λ busy.
          stop_each-other (is_idle r now) kept a idle (idle_sessions-AllMeet r now r.sessions) busy
          ∙ unfold deref in refl,
      rw (stop_each_lem kept idle).0 (busy_sessions-AllMeet r now r.sessions),
      stop_each-AllStopped kept idle,
    )
