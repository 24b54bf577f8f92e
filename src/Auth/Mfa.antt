-- ===== src/Auth/Mfa.antt =====
-- app/services/mfa_service.py and SqlMfaRepository of app/db/repositories/identity.py: one-time
-- codes by time, backup codes, and turning the second factor on and off. The column `created_at`
-- is left out. The decryption, the code of a time step, the digest and `\d` are parameters.
pub mod Service
pub mod Replay
pub mod Backup
use civiclens.Auth.State.{AuditEntry}
use civiclens.RateLimit.Sliding.{RateLimited}
use civiclens.RateLimit.Throttle.{Throttle}
use Prim.Native.Char.{Char, code}
use Prim.Native.String.{count}
use civiclens.Prelude.{
  ℕ, zero, suc, ◌+◌, ◌-◌, ◌*◌, ◌/◌, String, Bool, true, false, not, ◌&&◌, ◌||◌, Option, none, some,
  List, [], ◌∷◌, ltb, leb, ◌==◌, if◌then◌else◌, str_eq, is_empty, Result, ok, err, ◌>>◌, raise_if,
  strip,
}

pub record MfaRecord : Type 0 where
  pub user_id : String
  pub secret_encrypted : String
  pub enabled : Bool
  -- `none` for -1
  pub last_used_step : Option ℕ
  pub backup_code_hashes : List String
  pub confirmed_at : Option ℕ

pub data MfaError : Type 0 where
  already_enabled no_pending_enrollment wrong_code malformed_code not_reauthenticated : MfaError
  undecryptable not_ascii : MfaError
  mfa_locked : RateLimited → MfaError

-- What the service is built with: `totp_at` is the code of a secret at a time step, `window` the
-- number of steps before and after the present one that are accepted.
pub record MfaSetup : Type 0 where
  pub encrypt : String → String
  pub decrypt : String → Option String
  pub totp_at : String → ℕ → String
  pub digest : String → String
  pub is_decimal : Char → Bool
  pub window : ℕ

pub record MfaState : Type 0 where
  pub rows : String → Option MfaRecord
  pub throttle : Option Throttle
  pub audit : List AuditEntry

-- `TOTP_INTERVAL`
abbrev pub interval : ℕ
interval = 30

unfoldable pub all_of : (Char → Bool) → String → Bool
all_of p String.[] = true
all_of p (String.◌∷◌ c s) = p c && all_of p s

-- `_CODE_RE.match(code)` on a text without white space at its ends
unfoldable pub is_code : MfaSetup → String → Bool
unfolding all_of
is_code setup s = count s == 6 && all_of setup.is_decimal s

-- `[A-Z2-9]`
abbrev pub is_backup_char : Char → Bool
is_backup_char c = (leb 65 (code c) && leb (code c) 90) || (leb 50 (code c) && leb (code c) 57)

-- `n` characters of a backup code, and then what `rest` accepts
abbrev pub after_group : ℕ → (String → Bool) → String → Bool
after_group zero rest s = rest s
after_group (suc n) rest String.[] = false
after_group (suc n) rest (String.◌∷◌ c s) = is_backup_char c && after_group n rest s

abbrev pub then_dash : (String → Bool) → String → Bool
then_dash rest String.[] = false
then_dash rest (String.◌∷◌ c s) = code c == 45 && rest s

-- `_BACKUP_RE.match(code)` on a text without white space at its ends
unfoldable pub is_backup : String → Bool
is_backup s = after_group 4 (then_dash (after_group 4 is_empty)) s

-- `totp.at(int(now), offset)` for the offsets from the step `step` on, `n` of them; comparing with a
-- text that is not ASCII raises `TypeError`.
unfoldable pub first_match : MfaSetup → String → String → ℕ → ℕ → Option ℕ
first_match setup secret s step zero = none
first_match setup secret s step (suc n) =
    let rest = first_match setup secret s (suc step) n in
    if str_eq (setup.totp_at secret step) s then some step else rest

-- `PyOtpEngine.match`; the clock is at least `window` steps after its origin
unfoldable pub match_step : MfaSetup → String → String → ℕ → Result MfaError (Option ℕ)
unfolding all_of first_match
match_step setup secret s now =
    raise_if (not (all_of (λ c. ltb (code c) 128) s)) not_ascii
    >> ok (first_match setup secret s (now / interval - setup.window) (2 * setup.window + 1))

-- `_match`
unfoldable pub match_code : MfaSetup → MfaRecord → String → ℕ → Result MfaError (Option ℕ)
unfolding is_code match_step strip
match_code setup r s now =
    raise_if (not (is_code setup (strip s))) malformed_code
    >> opened (setup.decrypt r.secret_encrypted)
  where
    opened : Option String → Result MfaError (Option ℕ)
    opened none = err undecryptable
    opened (some secret) = match_step setup secret (strip s) now
