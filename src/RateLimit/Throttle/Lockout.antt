-- ===== src/RateLimit/Throttle/Lockout.antt =====
-- The failure throttle of app/core/rate_limit.py against the reference that keeps every failure.
use civiclens.RateLimit.Throttle.Past.{happened_all, InOrder, answer, cleared, History, happened}
use civiclens.RateLimit.Throttle.{ThrottlePolicy, Throttle, record_success, check, check_lock}
use civiclens.RateLimit.Throttle.Keys.{
  Call, checked, failed, succeeded, key_of, perform, perform_all, perform-IsSameAt,
}
use civiclens.Prelude.{
  ℕ, ◌≤◌, String, ◌≡◌, refl, ap, ◌∙◌, inl, inr, Option, none, some, List, [], ◌∷◌, arith, eq_iff,
  ltb, Bool-cases, str_eq, str_ne,
}
use civiclens.RateLimit.Throttle.Follows.{
  time_after, Follows, own-Follows, same-Follows, later, success-Follows,
}

InOrder-after :
    (last : ℕ) (c : Call) (cs : List Call)
    → InOrder last (c ∷ cs)
    → (last ≤ time_after last c) × InOrder (time_after last c) cs
unfolding InOrder
InOrder-after last (failed k now) cs o = o
InOrder-after last (checked k now) cs o = o
InOrder-after last (succeeded k) cs o = (omega arith, o)

module _ (p : ThrottlePolicy) (key : String) where
  perform_all-Follows :
      (s : Throttle) (last : ℕ) (cs : List Call) (h : History)
      → InOrder last cs
      → Follows p key s last h
      → (end : ℕ) × Follows p key (perform_all s cs) end (happened_all p key cs h)
  unfolding perform_all happened_all
  perform_all-Follows s last [] h o f = (last, f)
  perform_all-Follows s last (c ∷ cs) h o f =
      let next = InOrder-after last c cs o in
      elim (Bool-cases (str_eq (key_of c) key)) [
        | inl e ↦ rw e (
            perform_all-Follows (perform s c) (time_after last c) cs (happened p c h) next.1
              (own-Follows p key s last c cs h ((eq_iff (key_of c) key).0 e) o f))
        | inr e ↦ rw e (
            perform_all-Follows (perform s c) (time_after last c) cs h next.1 (
              same-Follows p key s (perform s c) (time_after last c) h
                (perform-IsSameAt key s c (str_ne (key_of c) key e))
                (later p key s last _ h next.0 f)))
      ]

check_lock-answer :
    (o : Option ℕ) (s : Throttle) (key : String) (now : ℕ)
    → (check_lock o s key now).0 ≡ answer o now
unfolding check_lock
check_lock-answer none s key now = refl
check_lock-answer (some until) s key now = elim (Bool-cases (ltb now until)) [
  | inl b ↦ rw b refl
  | inr b ↦ rw b refl
]

-- After a success, and then any failures, checks and successes, with any keys, at times that do not
-- go back, a check at any time answers as the reference that keeps every failure: a failure locks
-- its key out when it and the failures of its window, since the last success or expired lock-out,
-- are at least `max_failures`; from then until the lock-out has passed a check raises, with the whole
-- seconds that are left plus one; and otherwise it passes.
pub lockout_exact :
    (s : Throttle) (key : String) (calls : List Call) (now : ℕ)
    → InOrder 0 calls
    → (check (perform_all (record_success s key) calls) key now).0
      ≡ answer (happened_all s.policy key calls cleared).lock now
unfolding check record_success
lockout_exact s key calls now o =
    let f =
      perform_all-Follows s.policy key (record_success s key) 0 calls cleared o
        (success-Follows s.policy key s 0 refl) in
    let after = perform_all (record_success s key) calls in
    check_lock-answer (after.locked_until key) after key now ∙ ap (λ l. answer l now) f.1.lock_same
