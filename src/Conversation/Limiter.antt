-- ===== src/Conversation/Limiter.antt =====
-- RunLimiter of internal/conversation/run_limiter.go: a channel of tokens and a done channel. Acquire
-- is cut between its two selects, since another goroutine may run there and where it waits.
mod Tests
use on_call_agent.Base.{
  ℕ, suc, ◌+◌, ◌-◌, ◌≤◌, ◌<◌, ◌≡◌, refl, ◌⊎◌, Bool, true, false, ℤ, pos, negsuc, if◌then◌else◌,
  ◌==◌, arith, ltb,
}

pub record Limiter : Type 0 where
  pub max_runs : ℕ
  pub tokens : ℕ
  pub closed : Bool

-- NewRunLimiter
unfoldable pub new_run_limiter : ℤ → Limiter
new_run_limiter (pos n) = record {
  max_runs = if n == 0 then 100 else n;
  tokens = 0;
  closed = false;
}
new_run_limiter (negsuc n) = record { max_runs = 100; tokens = 0; closed = false }

-- RunLimiter.Release: takes a token out of the channel, if there is one.
unfoldable pub release : Limiter → Limiter
release l = if l.tokens == 0 then l else record l { tokens = l.tokens - 1 }

-- RunLimiter.Close
unfoldable pub close : Limiter → Limiter
close l = record l { closed = true }

-- The limiter, the calls of Acquire that wait in its second select, and the turns that hold a token.
pub record World : Type 0 where
  pub limiter : Limiter
  pub waiting : ℕ
  pub running : ℕ

-- `enter` and `refuse` are the first select of Acquire; `take`, `stop` and `cancel` are the three
-- cases of the second one, of which any that is ready may be chosen.
pub data Step : World → World → Type 0 where
  enter : (w : World) → w.limiter.closed ≡ false → Step w (record w { waiting = suc w.waiting })
  refuse : (w : World) → w.limiter.closed ≡ true → Step w w
  take :
      (w : World) (n : ℕ)
      → w.waiting ≡ suc n
      → w.limiter.tokens < w.limiter.max_runs
      → Step w (record {
        limiter = record {
          max_runs = w.limiter.max_runs;
          tokens = suc w.limiter.tokens;
          closed = w.limiter.closed;
        };
        waiting = n;
        running = suc w.running;
      })
  stop :
      (w : World) (n : ℕ)
      → w.waiting ≡ suc n
      → w.limiter.closed ≡ true
      → Step w (record w { waiting = n })
  cancel : (w : World) (n : ℕ) → w.waiting ≡ suc n → Step w (record w { waiting = n })
  finish :
      (w : World) (n : ℕ)
      → w.running ≡ suc n
      → Step w (record w { limiter = release w.limiter; running = n })
  shut : (w : World) → Step w (record w { limiter = close w.limiter })

pub data Reach (s : World) : World → Type 0 where
  here : Reach s s
  next : {t u : World} → Reach s t → Step t u → Reach s u

abbrev pub start : ℤ → World
start n = record { limiter = new_run_limiter n; waiting = 0; running = 0 }

pub record IsSound (w : World) : Type 0 where
  pub balanced : w.limiter.tokens ≡ w.running
  pub bounded : w.running ≤ w.limiter.max_runs

Step-IsSound : {t u : World} → Step t u → IsSound t → IsSound u
unfolding release close
Step-IsSound (enter w h) s = ground arith
Step-IsSound (refuse w h) s = s
Step-IsSound (take w n h k) s = ground arith
Step-IsSound (stop w n h k) s = ground arith
Step-IsSound (cancel w n h) s = ground arith
Step-IsSound (finish w n h) s = ground arith
Step-IsSound (shut w) s = ground arith

max_runs-Step : {t u : World} → Step t u → u.limiter.max_runs ≡ t.limiter.max_runs
unfolding release close
max_runs-Step (enter w h) = refl
max_runs-Step (refuse w h) = refl
max_runs-Step (take w n h k) = refl
max_runs-Step (stop w n h k) = refl
max_runs-Step (cancel w n h) = refl
max_runs-Step (finish w n h) = ground arith
max_runs-Step (shut w) = refl

Reach-IsSound :
    {s t : World} → IsSound s → Reach s t → IsSound t × (t.limiter.max_runs ≡ s.limiter.max_runs)
Reach-IsSound h here = (h, refl)
Reach-IsSound h (next r st) =
    let (sound, same) = Reach-IsSound h r in
    (Step-IsSound st sound, omega (arith, max_runs-Step st))

-- However turns start, wait, are cancelled and finish, the channel holds one token for each turn
-- that runs, and no more turns run at once than the limit set at the start.
pub Reach-running_bounded :
    (n : ℤ) {w : World}
    → Reach (start n) w
    → (w.limiter.tokens ≡ w.running)
      × (w.running ≤ (new_run_limiter n).max_runs)
      × (w.limiter.max_runs ≡ (new_run_limiter n).max_runs)
unfolding new_run_limiter
Reach-running_bounded (pos n) r =
    let (sound, same) =
      Reach-IsSound {s = start (pos n)} (record { balanced = refl; bounded = omega arith }) r in
    omega arith
Reach-running_bounded (negsuc n) r =
    let (sound, same) =
      Reach-IsSound {s = start (negsuc n)} (record { balanced = refl; bounded = omega arith }) r in
    omega arith

-- The turns that have started or may still start.
abbrev pub claims : World → ℕ
claims w = w.running + w.waiting

Step-closed :
    {t u : World}
    → Step t u
    → t.limiter.closed ≡ true
    → (u.limiter.closed ≡ true) × (claims u ≤ claims t)
unfolding release close
Step-closed (enter w h) c = ground arith
Step-closed (refuse w h) c = ground arith
Step-closed (take w n h k) c = ground arith
Step-closed (stop w n h k) c = ground arith
Step-closed (cancel w n h) c = ground arith
Step-closed (finish w n h) c = ground arith
Step-closed (shut w) c = ground arith

-- After Close no further call gets past the first select: the turns that run or may still start
-- never become more again, and the limiter stays closed.
Reach-closed :
    {t u : World}
    → Reach t u
    → t.limiter.closed ≡ true
    → (u.limiter.closed ≡ true) × (claims u ≤ claims t)
Reach-closed here c = (c, omega arith)
Reach-closed (next r st) c =
    let (still, fewer) = Reach-closed r c in
    let (still', fewer') = Step-closed st still in (still', omega arith)
