-- ===== src/RateLimit/Sliding.antt =====
-- `SlidingWindowLimiter` of app/core/rate_limit.py. The clock counts ticks, `tick` of them to the
-- second; a `deque` of times is a list, oldest first; the `defaultdict` of the deques is a function.
pub mod Exact
pub mod Bound
use civiclens.Prelude.{
  ℕ, ◌+◌, ◌-◌, ◌*◌, ◌/◌, String, Bool, true, false, List, [], ◌∷◌, ◌++◌, ltb, leb, max, length,
  Result, ok, err, str_eq, if◌then◌else◌, ◌||◌,
}

-- `time.monotonic()` has a resolution of one nanosecond.
abbrev pub tick : ℕ
tick = 1000000000

-- The exception `RateLimited`.
pub data RateLimited : Type 0 where
  retry_after : ℕ → RateLimited

pub record Limiter : Type 0 where
  pub limit : ℕ
  pub window_seconds : ℕ
  pub hits : String → List ℕ

-- The `ValueError` of the constructor.
pub data BadLimiter : Type 0 where
  not_positive : BadLimiter

unfoldable pub new : ℕ → ℕ → Result BadLimiter Limiter
new limit window_seconds =
    if ltb limit 1 || ltb window_seconds 1
    then err not_positive
    else ok (record { limit = limit; window_seconds = window_seconds; hits = λ _. [] })

abbrev pub window : Limiter → ℕ
window l = l.window_seconds * tick

-- `while q and now - q[0] >= window: q.popleft()`
unfoldable pub prune : ℕ → ℕ → List ℕ → List ℕ
prune now w [] = []
prune now w (t ∷ q) = let rest = prune now w q in if leb w (now - t) then rest else t ∷ q

abbrev oldest : ℕ → List ℕ → ℕ
oldest now [] = now
oldest now (t ∷ q) = t

abbrev pub update : {V : Type 0} → (String → V) → String → V → String → V
update f k v j = if str_eq j k then v else f j

unfoldable pub hit : Limiter → String → ℕ → Result RateLimited (Unit {0}) × Limiter
hit l key now =
    let q = prune now (window l) (l.hits key) in
    if leb l.limit (length q)
    then (
      err (retry_after (max 1 ((window l - (now - oldest now q)) / tick + 1))),
      record l { hits = update l.hits key q },
    )
    else (ok tt, record l { hits = update l.hits key (q ++ now ∷ []) })

-- Calls in the order in which they are made, each with its key and the clock's time, and which of
-- them are let through.
abbrev pub passes : Result RateLimited (Unit {0}) → Bool
passes (ok _) = true
passes (err _) = false

unfoldable pub run : Limiter → List (String × ℕ) → List Bool
run l [] = []
run l ((key, now) ∷ calls) = let (r, l') = hit l key now in passes r ∷ run l' calls
