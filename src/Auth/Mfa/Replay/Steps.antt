-- ===== src/Auth/Mfa/Replay/Steps.antt =====
-- The time steps that `MFAService.verify_login` of app/services/mfa_service.py accepts for a user.
use civiclens.Auth.Mfa.Service.{verify_login, is_later, entered}
use civiclens.Auth.Mfa.Replay.{
  Advances, UsedUpTo, stepped, verify_login-Attempt, spent, Attempt, failed, proved,
}
use civiclens.Auth.Mfa.{MfaRecord, MfaSetup, MfaState, MfaError, is_code}
use civiclens.RateLimit.Sliding.{update}
use civiclens.Prelude.{
  ℕ, ◌≤◌, ◌<◌, String, ◌≡◌, refl, sym, ap, ◌∙◌, Bool, true, Option, some, List, [], ◌∷◌, arith,
  eq_iff, str_eq, Result, ok, strip, some_injective,
}

pub update_same :
    (rows : String → Option MfaRecord) (key user_id : String) (r : MfaRecord)
    → key ≡ user_id
    → update rows key (some r) user_id ≡ some r
update_same rows key user_id r e =
    let same : str_eq user_id key ≡ true = (eq_iff _ _).1 (sym e) in rw same refl

-- A row that advances has its user still, and no earlier last step.
pub Advances-own :
    {setup : MfaSetup} {s : String} {r r' : MfaRecord}
    → Advances setup s r r'
    → r'.user_id ≡ r.user_id
Advances-own (stepped step secret c t l e) = ap (λ x. x.user_id) e
Advances-own (spent c m e) = ap (λ x. x.user_id) e

Advances-last :
    {setup : MfaSetup} {s : String} {r r' : MfaRecord} (last : ℕ)
    → Advances setup s r r'
    → r.last_used_step ≡ some last
    → (later : ℕ) × (r'.last_used_step ≡ some later) × (last ≤ later)
Advances-last last (stepped step secret c t l e) u =
    (step, ap (λ x. x.last_used_step) e, ground (arith, ap (is_later step) (sym u) ∙ l))
Advances-last last (spent c m e) u = (last, ap (λ x. x.last_used_step) e ∙ u, omega arith)

Attempt-UsedUpTo :
    {setup : MfaSetup} {user_id s : String} {st : MfaState} {out : Result MfaError Bool × MfaState}
    (k : ℕ)
    → Attempt setup user_id s st out
    → UsedUpTo user_id k st.rows
    → UsedUpTo user_id k out.1.rows
Attempt-UsedUpTo k (failed e n) u = rw e u
Attempt-UsedUpTo {user_id = user_id} {st = st} k (proved r r' f on a good e) u =
    let same : u.row ≡ r = some_injective (sym u.found ∙ f) in
    let mine : r'.user_id ≡ user_id = Advances-own a ∙ ap (λ x. x.user_id) (sym same) ∙ u.own in
    let next = Advances-last u.last a (ap (λ x. x.last_used_step) (sym same) ∙ u.used) in
    rw e (record {
      row = r';
      last = next.0;
      found = update_same st.rows r'.user_id user_id r' mine;
      own = mine;
      used = next.1;
      reached = omega (arith, u.reached, next.2);
    })

-- Attempts of one user, each with the two clocks and the code.
unfoldable pub verify_all : MfaSetup → String → List (ℕ × ℕ × String) → MfaState → MfaState
verify_all setup user_id [] st = st
verify_all setup user_id ((now, mono, s) ∷ rest) st =
    verify_all setup user_id rest (verify_login setup now mono user_id s st).1

verify_all-UsedUpTo :
    (setup : MfaSetup) (user_id : String) (k : ℕ) (rest : List (ℕ × ℕ × String)) (st : MfaState)
    → UsedUpTo user_id k st.rows
    → UsedUpTo user_id k (verify_all setup user_id rest st).rows
unfolding verify_all
verify_all-UsedUpTo setup user_id k [] st u = u
verify_all-UsedUpTo setup user_id k ((now, mono, s) ∷ rest) st u =
    verify_all-UsedUpTo setup user_id k rest _
      (Attempt-UsedUpTo k (verify_login-Attempt setup now mono user_id s st) u)

-- Once a step up to `k` was used, a code by time that is accepted after any further attempts is the
-- code of a step after `k`, and the steps up to that one are used from then on.
pub no_replay :
    (setup : MfaSetup) (user_id s : String) (k now mono : ℕ) (rest : List (ℕ × ℕ × String))
    (st st' : MfaState)
    → UsedUpTo user_id k st.rows
    → is_code setup (entered s) ≡ true
    → verify_login setup now mono user_id s (verify_all setup user_id rest st) ≡ (ok true, st')
    → (step : ℕ) × (secret : String) × (k < step)
      × (setup.totp_at secret step ≡ strip (entered s))
      × UsedUpTo user_id step st'.rows
no_replay setup user_id s k now mono rest st st' u c h =
    let v = verify_all-UsedUpTo setup user_id k rest st u in
    accepted v
      (along h (verify_login-Attempt setup now mono user_id s (verify_all setup user_id rest st)))
  where
    along :
        {a b : Result MfaError Bool × MfaState}
        → a ≡ b
        → Attempt setup user_id s (verify_all setup user_id rest st) a
        → Attempt setup user_id s (verify_all setup user_id rest st) b
    along e x = rw⁻¹ e x

    accepted :
        UsedUpTo user_id k (verify_all setup user_id rest st).rows
        → Attempt setup user_id s (verify_all setup user_id rest st) (ok true, st')
        → (step : ℕ) × (secret : String) × (k < step)
          × (setup.totp_at secret step ≡ strip (entered s))
          × UsedUpTo user_id step st'.rows
    accepted v (failed e n) = absurd (n refl)
    accepted v (proved r r' f on (spent x m e) o w) = absurd (cc (sym c ∙ x))
    accepted v (proved r r' f on (stepped step secret x t l e) o w) =
        let same : v.row ≡ r = some_injective (sym v.found ∙ f) in
        let last : r.last_used_step ≡ some v.last =
          ap (λ y. y.last_used_step) (sym same) ∙ v.used in
        let mine : r'.user_id ≡ user_id =
          ap (λ y. y.user_id) e ∙ ap (λ y. y.user_id) (sym same) ∙ v.own in
        let after_last : v.last < step = ground (arith, ap (is_later step) (sym last) ∙ l) in
        (
          step,
          secret,
          omega (arith, after_last, v.reached),
          t,
          rw w (record {
            row = r';
            last = step;
            found = update_same (verify_all setup user_id rest st).rows r'.user_id user_id r' mine;
            own = mine;
            used = ap (λ y. y.last_used_step) e;
            reached = omega arith;
          }),
        )
