-- ===== src/RateLimit/Throttle.antt =====
-- `FailureThrottle` of app/core/rate_limit.py: failures per key in a sliding window, and the
-- lock-out. Times are ticks of the clock; the two dictionaries are functions, `pop` and `del` write
-- what a key has that is not there: no failures, no lock.
pub mod Past
pub mod Follows
pub mod Lockout
pub mod Keys
use civiclens.Prelude.{
  ℕ, ◌+◌, ◌-◌, ◌*◌, ◌/◌, String, Option, none, some, List, [], ◌∷◌, ◌++◌, ltb, leb, length, Result,
  ok, err, if◌then◌else◌,
}
use civiclens.RateLimit.Sliding.{RateLimited, retry_after, tick, update}

pub record ThrottlePolicy : Type 0 where
  pub max_failures : ℕ
  pub window_seconds : ℕ
  pub lockout_seconds : ℕ

abbrev pub default_policy : ThrottlePolicy
default_policy = record { max_failures = 5; window_seconds = 300; lockout_seconds = 900 }

pub record Throttle : Type 0 where
  pub policy : ThrottlePolicy
  pub failures : String → List ℕ
  pub locked_until : String → Option ℕ

-- `while q and now - q[0] > window_seconds: q.popleft()`
unfoldable pub prune : ℕ → ℕ → List ℕ → List ℕ
prune now w [] = []
prune now w (t ∷ q) = let rest = prune now w q in if ltb w (now - t) then rest else t ∷ q

-- The branches of `check` on `self._locked_until.get(key)`.
unfoldable pub check_lock :
    Option ℕ → Throttle → String → ℕ → Result RateLimited (Unit {0}) × Throttle
check_lock none s key now = (ok tt, s)
check_lock (some until) s key now =
    if ltb now until then (err (retry_after ((until - now) / tick + 1)), s) else (
      ok tt,
      record s {
        locked_until = update s.locked_until key none;
        failures = update s.failures key [];
      },
    )

unfoldable pub check : Throttle → String → ℕ → Result RateLimited (Unit {0}) × Throttle
unfolding check_lock
check s key now = check_lock (s.locked_until key) s key now

unfoldable pub record_failure : Throttle → String → ℕ → Throttle
record_failure s key now =
    let q = prune now (s.policy.window_seconds * tick) (s.failures key) ++ now ∷ [] in
    record s {
      failures = update s.failures key q;
      locked_until =
          if leb s.policy.max_failures (length q)
          then update s.locked_until key (some (now + s.policy.lockout_seconds * tick))
          else s.locked_until;
    }

unfoldable pub record_success : Throttle → String → Throttle
record_success s key = record s {
  failures = update s.failures key [];
  locked_until = update s.locked_until key none;
}
