-- ===== src/Auth/Mfa/Service.antt =====
-- The operations of `MFAService` in app/services/mfa_service.py.
use civiclens.RateLimit.Throttle.{check, Throttle, record_success, record_failure}
use civiclens.Auth.Mfa.{
  MfaRecord, MfaError, MfaSetup, match_code, is_code, MfaState, not_reauthenticated,
  already_enabled, wrong_code, is_backup, mfa_locked, no_pending_enrollment,
}
use Prim.Native.Char.{code}
use civiclens.RateLimit.Sliding.{update, RateLimited}
use civiclens.Reference.{chars, of_chars}
use civiclens.Reference.Matching.{upper}
use civiclens.Prelude.{
  ℕ, String, Bool, true, false, ◌&&◌, ◌||◌, Option, none, some, List, [], ◌∷◌, ◌++◌, map, ltb, ◌==◌,
  if◌then◌else◌, any, str_eq, Result, ok, err, strip, str_append,
}

-- `self._repo.save(record)`
abbrev pub save : MfaRecord → MfaState → MfaState
save r st = record st { rows = update st.rows r.user_id (some r) }

abbrev pub mfa_audited : String → String → Option String → MfaState → MfaState
mfa_audited action user_id resource st = record st {
  audit =
      st.audit ++ record { action = action; actor_id = some user_id; resource_id = resource } ∷ [];
}

abbrev pub enabled_row : Option MfaRecord → Bool
enabled_row none = false
enabled_row (some r) = r.enabled

unfoldable pub is_enabled : String → MfaState → Bool
is_enabled user_id st = enabled_row (st.rows user_id)

-- `MfaRecord(user_id=user_id, secret_encrypted=…)`
abbrev pub pending : String → String → MfaRecord
pending user_id secret = record {
  user_id = user_id;
  secret_encrypted = secret;
  enabled = false;
  last_used_step = none;
  backup_code_hashes = [];
  confirmed_at = none;
}

-- The secret is drawn by the engine; it is returned with the state.
unfoldable pub begin_enrollment :
    MfaSetup → String → String → MfaState → Result MfaError String × MfaState
begin_enrollment setup secret user_id st =
    if enabled_row (st.rows user_id) then (err already_enabled, st) else (
      ok secret,
      mfa_audited "mfa.enrollment_started" user_id (some user_id)
          (save (pending user_id (setup.encrypt secret)) st),
    )

abbrev pub confirmed : MfaSetup → ℕ → ℕ → List String → MfaRecord → MfaRecord
confirmed setup step now codes r = record r {
  enabled = true;
  last_used_step = some step;
  confirmed_at = some now;
  backup_code_hashes = map setup.digest codes;
}

-- `codes` are the backup codes that `_new_backup_codes` draws.
unfoldable pub confirm_enrollment :
    MfaSetup
    → ℕ
    → List String
    → String
    → String
    → MfaState
    → Result MfaError (List String) × MfaState
unfolding match_code
confirm_enrollment setup now codes user_id s st = pending_row (st.rows user_id)
  where
    matched : MfaRecord → Result MfaError (Option ℕ) → Result MfaError (List String) × MfaState
    matched r (err x) = (err x, st)
    matched r (ok none) = (err wrong_code, mfa_audited "mfa.enrollment_failed" user_id none st)
    matched r (ok (some step)) = (
      ok codes,
      mfa_audited "mfa.enabled" user_id (some user_id) (save (confirmed setup step now codes r) st),
    )

    pending_row : Option MfaRecord → Result MfaError (List String) × MfaState
    pending_row none = (err no_pending_enrollment, st)
    pending_row (some r) =
        if r.enabled then (err already_enabled, st) else matched r (match_code setup r s now)

-- `list.remove`
unfoldable pub remove_first : String → List String → List String
remove_first x [] = []
remove_first x (y ∷ ys) = let rest = remove_first x ys in if str_eq x y then ys else y ∷ rest

-- What a code proves, and the row that is written then.
pub data Proof : Type 0 where
  rejected : Proof
  by_step by_backup : MfaRecord → Proof

-- `step > record.last_used_step`
abbrev pub is_later : ℕ → Option ℕ → Bool
is_later step none = true
is_later step (some last) = ltb last step

abbrev pub by_time : MfaRecord → Option ℕ → Proof
by_time r none = rejected
by_time r (some step) =
    if is_later step r.last_used_step
    then by_step (record r { last_used_step = some step })
    else rejected

abbrev pub by_time_if : MfaRecord → Result MfaError (Option ℕ) → Result MfaError Proof
by_time_if r (ok step) = ok (by_time r step)
by_time_if r (err x) = err x

-- `code.upper()`: the characters whose capital is plain are listed beside the reference numbers, and
-- another that is not plain stays as it is, which `_BACKUP_RE` refuses like its capital.
unfoldable pub upper_text : String → String
unfolding chars upper of_chars
upper_text s = of_chars (upper (chars s))

abbrev pub has_dash : String → Bool
has_dash String.[] = false
has_dash (String.◌∷◌ c s) = code c == 45 || has_dash s

-- The code as it is looked up: stripped, and a backup code in capitals.
unfoldable pub entered : String → String
unfolding strip upper_text
entered s = let t = strip s in if has_dash t then upper_text t else t

unfoldable pub prove : MfaSetup → ℕ → MfaRecord → String → Result MfaError Proof
unfolding is_code match_code is_backup remove_first
prove setup now r s =
    if is_code setup s
    then by_time_if r (match_code setup r s now)
    else if is_backup s && any (str_eq (setup.digest s)) r.backup_code_hashes
    then ok (
        by_backup
          (record r { backup_code_hashes = remove_first (setup.digest s) r.backup_code_hashes }))
    else ok rejected

-- `if self._throttle: self._throttle.check(key)`
unfoldable pub check_optional :
    Option Throttle → String → ℕ → Result RateLimited (Unit {0}) × Option Throttle
unfolding check
check_optional none key now = (ok tt, none)
check_optional (some t) key now = let (r, t') = check t key now in (r, some t')

-- `(self._throttle.record_success if ok else self._throttle.record_failure)(key)`
unfoldable pub noted_optional : Bool → String → ℕ → Option Throttle → Option Throttle
unfolding record_success record_failure
noted_optional b key now none = none
noted_optional true key now (some t) = some (record_success t key)
noted_optional false key now (some t) = some (record_failure t key now)

abbrev pub mfa_key : String → String
mfa_key user_id = str_append "mfa:" user_id

-- The end of `verify_login`.
unfoldable pub settled : Bool → String → ℕ → MfaState → Result MfaError Bool × MfaState
unfolding noted_optional
settled b user_id mono st = (
  ok b,
  mfa_audited (if b then "mfa.verified" else "mfa.verification_failed") user_id none
      (record st { throttle = noted_optional b (mfa_key user_id) mono st.throttle }),
)

-- The part of `verify_login` after the code is looked at.
unfoldable pub conclude :
    String → ℕ → MfaState → Result MfaError Proof → Result MfaError Bool × MfaState
unfolding settled
conclude user_id mono st (err x) = (err x, st)
conclude user_id mono st (ok rejected) = settled false user_id mono st
conclude user_id mono st (ok (by_step r)) = settled true user_id mono (save r st)
conclude user_id mono st (ok (by_backup r)) =
    settled true user_id mono (mfa_audited "mfa.backup_code_used" user_id none (save r st))

-- The part of `verify_login` on a row that is enabled.
-- The rest of a call once the throttle has let it through.
abbrev pub let_through :
    Result RateLimited (Unit {0}) × Option Throttle
    → MfaState
    → (MfaState → Result MfaError Bool × MfaState)
    → Result MfaError Bool × MfaState
let_through (err x, t) st k = (err (mfa_locked x), record st { throttle = t })
let_through (ok u, t) st k = k (record st { throttle = t })

unfoldable pub verify_row :
    MfaSetup → ℕ → ℕ → String → String → MfaRecord → MfaState → Result MfaError Bool × MfaState
unfolding prove conclude entered check_optional
verify_row setup now mono user_id s r st =
    let_through (check_optional st.throttle (mfa_key user_id) mono) st
      (λ st'. conclude user_id mono st' (prove setup now r (entered s)))

unfoldable pub verify_login :
    MfaSetup → ℕ → ℕ → String → String → MfaState → Result MfaError Bool × MfaState
unfolding verify_row
verify_login setup now mono user_id s st = on_row (st.rows user_id)
  where
    on_row : Option MfaRecord → Result MfaError Bool × MfaState
    on_row none = (ok false, st)
    on_row (some r) = if r.enabled then verify_row setup now mono user_id s r st else (ok false, st)

-- The rest of `disable` once the code was checked.
abbrev pub disabled_if :
    String → Result MfaError Bool × MfaState → Result MfaError (Unit {0}) × MfaState
disabled_if user_id (err x, st) = (err x, st)
disabled_if user_id (ok false, st) = (err wrong_code, st)
disabled_if user_id (ok true, st) = (
  ok tt,
  mfa_audited "mfa.disabled" user_id (some user_id)
      (record st { rows = update st.rows user_id none }),
)

unfoldable pub disable :
    MfaSetup → ℕ → ℕ → String → String → Bool → MfaState → Result MfaError (Unit {0}) × MfaState
unfolding verify_login
disable setup now mono user_id s reauthenticated st =
    if reauthenticated
    then disabled_if user_id (verify_login setup now mono user_id s st)
    else (err not_reauthenticated, st)
