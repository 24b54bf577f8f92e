-- ===== src/RateLimit/Throttle/Keys.antt =====
-- What happens to one key never touches another.
use civiclens.Prelude.{ℕ, String, ◌≡◌, ◌≢◌, List, arith, All, eq_iff, ◌∷◌, [], refl}
use civiclens.RateLimit.Throttle.{Throttle, check, record_failure, record_success}

-- A call on the throttle.
pub data Call : Type 0 where
  checked : String → ℕ → Call
  failed : String → ℕ → Call
  succeeded : String → Call

abbrev pub key_of : Call → String
key_of (checked k now) = k
key_of (failed k now) = k
key_of (succeeded k) = k

unfoldable pub perform : Throttle → Call → Throttle
unfolding check record_failure record_success
perform s (checked k now) = (check s k now).1
perform s (failed k now) = record_failure s k now
perform s (succeeded k) = record_success s k

unfoldable pub perform_all : Throttle → List Call → Throttle
unfolding perform
perform_all s [] = s
perform_all s (c ∷ cs) = perform_all (perform s c) cs

-- What a throttle knows of one key.
pub record IsSameAt (key : String) (s t : Throttle) : Type 0 where
  pub policy : t.policy ≡ s.policy
  pub failures : t.failures key ≡ s.failures key
  pub locked : t.locked_until key ≡ s.locked_until key

pub perform-IsSameAt :
    (key : String) (s : Throttle) (c : Call) → key_of c ≢ key → IsSameAt key s (perform s c)
unfolding perform check record_failure record_success
perform-IsSameAt key s (checked k now) ne = ground (arith, eq_iff key k)
perform-IsSameAt key s (failed k now) ne = ground (arith, eq_iff key k)
perform-IsSameAt key s (succeeded k) ne = ground (arith, eq_iff key k)

perform_all-IsSameAt :
    (key : String) (s : Throttle) (cs : List Call)
    → All (λ c. key_of c ≢ key) cs
    → IsSameAt key s (perform_all s cs)
unfolding perform_all
perform_all-IsSameAt key s [] ne = record { policy = refl; failures = refl; locked = refl }
perform_all-IsSameAt key s (c ∷ cs) ne =
    ground (arith, perform-IsSameAt key s c ne.0, perform_all-IsSameAt key (perform s c) cs ne.1)

-- However many checks, failures and successes other keys have, a check of this key answers as it
-- would have without them.
pub check_ignores_other_keys :
    (s : Throttle) (key : String) (now : ℕ) (cs : List Call)
    → All (λ c. key_of c ≢ key) cs
    → (check (perform_all s cs) key now).0 ≡ (check s key now).0
unfolding check
check_ignores_other_keys s key now cs ne = ground (arith, perform_all-IsSameAt key s cs ne)
