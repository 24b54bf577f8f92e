-- ===== src/RateLimit/Sliding/Bound.antt =====
-- At most `limit` calls with one key pass in any window.
use mathlib.Core.List.{append-nil, append_assoc}
use civiclens.RateLimit.Sliding.{Limiter, new, tick, run}
use civiclens.Prelude.{
  ℕ, ◌+◌, ◌≤◌, ◌<◌, String, Bool, List, [], ◌∷◌, ◌++◌, str_eq, if◌then◌else◌, arith, eq_iff,
  Bool-cases, ◌≡◌, ltb, inl, ok, ◌*◌, ltb→lt, inr,
}
use civiclens.RateLimit.Sliding.Exact.{recent, reference, IsMonotone, run-new_is_exact}

-- The calls whose answer was yes.
pub let_through : List Bool → List (String × ℕ) → List (String × ℕ)
let_through [] calls = []
let_through (b ∷ bs) [] = []
let_through (b ∷ bs) (call ∷ calls) =
    let rest = let_through bs calls in if b then call ∷ rest else rest

-- The time of the last call.
abbrev pub last_time : ℕ → List (String × ℕ) → ℕ
last_time t [] = t
last_time t ((key, now) ∷ calls) = last_time now calls

recent_mono :
    (key : String) (now later w : ℕ) (past : List (String × ℕ))
    → now ≤ later
    → recent key later w past ≤ recent key now w past
unfolding recent
recent_mono key now later w [] h = omega arith
recent_mono key now later w ((k, t) ∷ past) h = ground (arith, recent_mono key now later w past h)

recent-append :
    (key : String) (now w : ℕ) (past : List (String × ℕ)) (k : String) (t : ℕ)
    → recent key now w (past ++ (k, t) ∷ [])
      ≤ recent key now w past + (if str_eq k key then 1 else 0)
unfolding recent
recent-append key now w [] k t = ground arith
recent-append key now w ((j, u) ∷ past) k t = ground (arith, recent-append key now w past k t)

abbrev IsBounded : ℕ → ℕ → ℕ → List (String × ℕ) → Type 0
IsBounded limit w t past = (key : String) (now : ℕ) → t ≤ now → recent key now w past ≤ limit

pass-IsBounded :
    (limit w t now : ℕ) (key : String) (past : List (String × ℕ))
    → t ≤ now
    → IsBounded limit w t past
    → recent key now w past < limit
    → IsBounded limit w now (past ++ (key, now) ∷ [])
pass-IsBounded limit w t now key past h b room j later k = ground (
  arith,
  recent-append j later w past key now,
  recent_mono key now later w past k,
  b j later,
  eq_iff key j,
)

reference-IsBounded :
    (limit w t : ℕ) (past calls : List (String × ℕ))
    → IsBounded limit w t past
    → IsMonotone t calls
    → IsBounded limit w
        (last_time t calls)
        (past ++ let_through (reference limit w past calls) calls)
unfolding reference let_through
reference-IsBounded limit w t past [] b m = rw append-nil b
reference-IsBounded limit w t past ((key, now) ∷ calls) b m =
    elim (Bool-cases (ltb (recent key now w past) limit)) [
      | inl pass ↦ rw pass (
          rw append_assoc at (
            reference-IsBounded limit w now (past ++ (key, now) ∷ []) calls
              (pass-IsBounded limit w t now key past m.0 b (ltb→lt _ _ pass)) m.1))
      | inr refuse ↦
          rw refuse
            (reference-IsBounded limit w now past calls (λ j later k. b j later (omega arith)) m.1)
    ]

-- Whatever sequence of calls a new limiter has answered, with times that do not go back, of the
-- calls with any one key that it let through at most `limit` lie less than a window before any
-- moment from the last call on.
pub at_most_limit_in_window :
    (limit window_seconds : ℕ) {l : Limiter} (calls : List (String × ℕ)) (key : String) (now : ℕ)
    → new limit window_seconds ≡ ok l
    → IsMonotone 0 calls
    → last_time 0 calls ≤ now
    → recent key now (window_seconds * tick) (let_through (run l calls) calls) ≤ limit
at_most_limit_in_window limit window_seconds {l} calls key now made m h =
    rw (run-new_is_exact limit window_seconds calls made m) (
      reference-IsBounded limit (window_seconds * tick) 0 [] calls
        (λ j t k. unfold recent in omega arith) m key now h)
