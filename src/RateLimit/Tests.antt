-- ===== src/RateLimit/Tests.antt =====
-- Runs of the limiters, and the theorems at concrete calls.
use civiclens.Prelude.{ℕ, ◌*◌, String, ◌≡◌, refl, true, false, none, some, List, [], ◌∷◌, arith, ok}
use civiclens.RateLimit.Sliding.{Limiter, new, run, tick, hit, prune}
use civiclens.RateLimit.Sliding.Exact.{reference, run-new_is_exact}
use civiclens.RateLimit.Throttle.{Throttle, default_policy, check, record_success}
use civiclens.RateLimit.Throttle.Lockout.{lockout_exact}
use civiclens.RateLimit.Throttle.Past.{InOrder, happened_all, cleared, answer}
use civiclens.RateLimit.Throttle.Keys.{Call, failed, checked, perform_all}

-- Two calls in ten seconds.
abbrev limiter : Limiter
limiter = record { limit = 2; window_seconds = 10; hits = λ _. [] }

limiter-new : new 2 10 ≡ ok limiter
unfolding new
limiter-new = refl

abbrev calls : List (String × ℕ)
calls =
    ("a", 0) ∷ ("a", 1000000000) ∷ ("b", 2000000000) ∷ ("a", 3000000000) ∷ ("a", 10000000000) ∷ []

run-calls : run limiter calls ≡ true ∷ true ∷ true ∷ false ∷ true ∷ []
unfolding run hit prune
run-calls = refl

run-new_is_exact_example : run limiter calls ≡ reference 2 (10 * tick) [] calls
run-new_is_exact_example = run-new_is_exact 2 10 calls limiter-new (omega arith)

abbrev throttle : Throttle
throttle = record { policy = default_policy; failures = λ _. []; locked_until = λ _. none }

-- Five failures lock the key out; one that is older than the window does not count.
abbrev throttle_calls : List Call
throttle_calls =
    failed "ip" 1000000000
    ∷ failed "ip" 400000000000
    ∷ failed "other" 400000000000
    ∷ failed "ip" 401000000000
    ∷ failed "ip" 402000000000
    ∷ failed "ip" 403000000000
    ∷ checked "ip" 403000000000
    ∷ failed "ip" 404000000000
    ∷ []

locked_at : (happened_all throttle.policy "ip" throttle_calls cleared).lock ≡ some 1304000000000
unfolding happened_all
locked_at = refl

lockout_exact_example :
    (check (perform_all (record_success throttle "ip") throttle_calls) "ip" 405000000000).0
    ≡ answer (happened_all throttle.policy "ip" throttle_calls cleared).lock 405000000000
unfolding InOrder
lockout_exact_example = lockout_exact throttle "ip" throttle_calls 405000000000 (
  omega arith,
  (
    omega arith,
    (omega arith, (omega arith, (omega arith, (omega arith, (omega arith, (omega arith, tt)))))),
  ),
)
