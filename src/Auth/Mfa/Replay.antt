-- ===== src/Auth/Mfa/Replay.antt =====
-- Codes by time in `MFAService.verify_login` of app/services/mfa_service.py: no time step is used
-- twice.
pub mod Steps
use civiclens.RateLimit.Sliding.{RateLimited, update}
use civiclens.RateLimit.Throttle.{Throttle}
use civiclens.Auth.Mfa.Service.{
  prove, Proof, by_step, by_time, by_backup, is_later, remove_first, rejected, verify_login,
  conclude, verify_row, entered, let_through, check_optional, mfa_key, settled,
}
use civiclens.Auth.Mfa.{
  match_code, first_match, MfaSetup, MfaRecord, match_step, is_code, all_of, code, is_backup,
  MfaState, MfaError, Bool,
}
use civiclens.Prelude.{
  ℕ, zero, suc, ◌≤◌, String, ◌≡◌, refl, sym, ap, ◌∙◌, inl, inr, true, false, ◌&&◌, Option, none,
  some, arith, eq_iff, ltb, Bool-cases, Option-cases, any, str_eq, ok, strip, Result-cases,
  some_injective, ok_injective, Result, Bool, ◌≢◌, err, if◌then◌else◌,
}

-- The row of a user, on which a step up to `k` was used.
pub record UsedUpTo (user_id : String) (k : ℕ) (rows : String → Option MfaRecord) : Type 0 where
  pub row : MfaRecord
  pub last : ℕ
  pub found : rows user_id ≡ some row
  pub own : row.user_id ≡ user_id
  pub used : row.last_used_step ≡ some last
  pub reached : k ≤ last

-- A row after a proof: a later step, or one backup code fewer, and nothing else.
pub data Advances (setup : MfaSetup) (s : String) (r r' : MfaRecord) : Type 0 where
  stepped :
      (step : ℕ) (secret : String)
      → is_code setup s ≡ true
      → setup.totp_at secret step ≡ strip s
      → is_later step r.last_used_step ≡ true
      → r' ≡ record r { last_used_step = some step }
      → Advances setup s r r'
  spent :
      is_code setup s ≡ false
      → any (str_eq (setup.digest s)) r.backup_code_hashes ≡ true
      → r' ≡ record r { backup_code_hashes = remove_first (setup.digest s) r.backup_code_hashes }
      → Advances setup s r r'

first_match-totp :
    (setup : MfaSetup) (secret s : String) (step n k : ℕ)
    → first_match setup secret s step n ≡ some k
    → setup.totp_at secret k ≡ s
unfolding first_match
first_match-totp setup secret s step zero k h = absurd (cc h)
first_match-totp setup secret s step (suc n) k h =
    elim (Bool-cases (str_eq (setup.totp_at secret step) s)) [
      | inl e ↦
          let same : step ≡ k = some_injective (rw e at h) in
          ap (setup.totp_at secret) (sym same) ∙ (eq_iff _ _).0 e
      | inr e ↦ first_match-totp setup secret s (suc step) n k (rw e at h)
    ]

match_code-totp :
    (setup : MfaSetup) (r : MfaRecord) (s : String) (now k : ℕ)
    → match_code setup r s now ≡ ok (some k)
    → (secret : String) × (setup.totp_at secret k ≡ strip s)
unfolding match_code match_step
match_code-totp setup r s now k h = elim (Bool-cases (is_code setup (strip s))) [
  | inr e ↦ absurd (cc (rw e at h))
  | inl e ↦ elim (Option-cases (setup.decrypt r.secret_encrypted)) [
    | inl d ↦ absurd (cc (rw d at (rw e at h)))
    | inr (secret, d) ↦ elim (Bool-cases (all_of (λ c. ltb (code c) 128) (strip s))) [
      | inr a ↦ absurd (cc (rw a at (rw d at (rw e at h))))
      | inl a ↦ (
        secret,
        first_match-totp setup secret (strip s) _ _ k
            (ok_injective (rw a at (rw d at (rw e at h)))),
      )
    ]
  ]
]

-- The row that a proof writes.
abbrev row_of : Proof → Option MfaRecord
row_of rejected = none
row_of (by_step r) = some r
row_of (by_backup r) = some r

by_time-step :
    (r : MfaRecord) (o : Option ℕ) (r' : MfaRecord)
    → row_of (by_time r o) ≡ some r'
    → (step : ℕ) × (o ≡ some step)
      × (is_later step r.last_used_step ≡ true)
      × (r' ≡ record r { last_used_step = some step })
by_time-step r none r' h = absurd (cc h)
by_time-step r (some step) r' h = elim (Bool-cases (is_later step r.last_used_step)) [
  | inl e ↦ (step, refl, e, sym (some_injective (rw e at h)))
  | inr e ↦ absurd (cc (rw e at h))
]

prove-Advances :
    (setup : MfaSetup) (now : ℕ) (r r' : MfaRecord) (s : String) (p : Proof)
    → prove setup now r s ≡ ok p
    → row_of p ≡ some r'
    → Advances setup s r r'
unfolding prove
prove-Advances setup now r r' s p h w = elim (Bool-cases (is_code setup s)) [
  | inl e ↦ elim (Result-cases (match_code setup r s now)) [
    | inr (x, m) ↦ absurd (cc (rw m at (rw e at h)))
    | inl (o, m) ↦
        let same : by_time r o ≡ p = ok_injective (rw m at (rw e at h)) in
        let t = by_time-step r o r' (ap row_of same ∙ w) in
        let found = match_code-totp setup r s now t.0 (m ∙ ap ok t.1) in
        stepped t.0 found.0 e found.1 t.2 t.3
  ]
  | inr e ↦ elim (Bool-cases (is_backup s && any (str_eq (setup.digest s)) r.backup_code_hashes)) [
    | inr b ↦
        let same : rejected ≡ p = ok_injective (rw b at (rw e at h)) in
        absurd (cc (ap row_of same ∙ w))
    | inl b ↦
        let same = ok_injective (rw b at (rw e at h)) in
        spent e (ground (arith, b)) (sym (some_injective (ap row_of same ∙ w)))
  ]
]

-- What `verify_login` does: it fails and writes no row, or it succeeds on an enabled row that
-- advances.
pub data Attempt (setup : MfaSetup) (user_id s : String) (st : MfaState)
    (out : Result MfaError Bool × MfaState) : Type 0 where
  failed : out.1.rows ≡ st.rows → out.0 ≢ ok true → Attempt setup user_id s st out
  proved :
      (r r' : MfaRecord)
      → st.rows user_id ≡ some r
      → r.enabled ≡ true
      → Advances setup (entered s) r r'
      → out.0 ≡ ok true
      → out.1.rows ≡ update st.rows r'.user_id (some r')
      → Attempt setup user_id s st out

conclude-Attempt :
    (setup : MfaSetup) (now mono : ℕ) (user_id s : String) (r : MfaRecord) (st : MfaState)
    (t : Option Throttle)
    → st.rows user_id ≡ some r
    → r.enabled ≡ true
    → Attempt setup user_id s st
        (conclude user_id mono (record st { throttle = t }) (prove setup now r (entered s)))
unfolding conclude settled
conclude-Attempt setup now mono user_id s r st t f e =
    elim (Result-cases (prove setup now r (entered s))) [
      | inr (x, h) ↦ rw h (failed refl (λ k. absurd (cc k)))
      | inl (rejected, h) ↦ rw h (failed refl (λ k. absurd (cc k)))
      | inl (by_step r', h) ↦
          rw h (proved r r' f e (prove-Advances setup now r r' (entered s) _ h refl) refl refl)
      | inl (by_backup r', h) ↦
          rw h (proved r r' f e (prove-Advances setup now r r' (entered s) _ h refl) refl refl)
    ]

verify_row-Attempt :
    (setup : MfaSetup) (now mono : ℕ) (user_id s : String) (r : MfaRecord) (st : MfaState)
    → st.rows user_id ≡ some r
    → r.enabled ≡ true
    → Attempt setup user_id s st (verify_row setup now mono user_id s r st)
unfolding verify_row
verify_row-Attempt setup now mono user_id s r st f e =
    through (check_optional st.throttle (mfa_key user_id) mono)
  where
    through :
        (c : Result RateLimited (Unit {0}) × Option Throttle)
        → Attempt setup user_id s st
            (let_through c st (λ st'. conclude user_id mono st' (prove setup now r (entered s))))
    through (err x, t) = failed refl (λ k. absurd (cc k))
    through (ok u, t) = conclude-Attempt setup now mono user_id s r st t f e

pub verify_login-Attempt :
    (setup : MfaSetup) (now mono : ℕ) (user_id s : String) (st : MfaState)
    → Attempt setup user_id s st (verify_login setup now mono user_id s st)
unfolding verify_login
verify_login-Attempt setup now mono user_id s st = elim (Option-cases (st.rows user_id)) [
  | inl f ↦ rw f (failed refl (λ k. absurd (cc k)))
  | inr (r, f) ↦ elim (Bool-cases r.enabled) [
    | inl e ↦
        let out = verify_row setup now mono user_id s r st in
        let whole = ap (λ (b : Bool). if b then out else (ok false, st)) e in
        rw f (rw whole (verify_row-Attempt setup now mono user_id s r st f e))
    | inr e ↦ rw f (rw e (failed refl (λ k. absurd (cc k))))
  ]
]
