-- ===== src/Auth/Tests/SecondFactor.antt =====
-- Runs of app/services/mfa_service.py on small data.
use civiclens.Auth.Mfa.Backup.{occurrences, backup_once}
use civiclens.Auth.Mfa.Replay.Steps.{verify_all, no_replay}
use civiclens.Auth.Mfa.Service.{verify_login, entered}
use civiclens.Auth.Mfa.{MfaRecord, MfaSetup, MfaState}
use civiclens.Auth.Mfa.Replay.{UsedUpTo}
use Prim.Native.Char.{code}
use civiclens.Prelude.{
  ℕ, ◌<◌, String, ◌≡◌, refl, ◌≢◌, true, false, ◌&&◌, none, some, [], ◌∷◌, arith, leb, ◌==◌,
  if◌then◌else◌, str_eq, ok, strip, str_append,
}

abbrev mfa : MfaSetup
mfa = record {
  encrypt = λ s. str_append "e:" s;
  decrypt = λ s. some "secret";
  totp_at = λ secret step. if step == 7 then "777777" else if step == 8 then "888888" else "000000";
  digest = λ s. str_append "#" s;
  is_decimal = λ c. leb 48 (code c) && leb (code c) 57;
  window = 1;
}

abbrev enrolled : MfaRecord
enrolled = record {
  user_id = "u1";
  secret_encrypted = "e:secret";
  enabled = true;
  last_used_step = some 6;
  backup_code_hashes = "#ABCD-2345" ∷ "#WXYZ-6789" ∷ [];
  confirmed_at = some 180;
}

abbrev before : MfaState
before = record {
  rows = λ u. if str_eq u "u1" then some enrolled else none;
  throttle = none;
  audit = [];
}

step_6_used : UsedUpTo "u1" 6 before.rows
step_6_used = record {
  row = enrolled;
  last = 6;
  found = refl;
  own = refl;
  used = refl;
  reached = omega arith;
}

abbrev after_eight : MfaState
after_eight =
    (verify_login mfa 240 0 "u1" "888888" (verify_all mfa "u1" ((210, 0, "777777") ∷ []) before)).1

no_replay_example :
    (step : ℕ) × (secret : String) × (6 < step)
    × (mfa.totp_at secret step ≡ strip (entered "888888"))
    × UsedUpTo "u1" step after_eight.rows
unfolding verify_login verify_all
no_replay_example =
    no_replay mfa "u1" "888888" 6 240 0 ((210, 0, "777777") ∷ []) before after_eight step_6_used
      refl refl

seven_again :
    (verify_login mfa 210 0 "u1" "777777" (verify_all mfa "u1" ((210, 0, "777777") ∷ []) before)).0
    ≡ ok false
unfolding verify_login verify_all
seven_again = refl

backup_once_example :
    (verify_login mfa 240 0 "u1" "abcd-2345" (
      verify_all mfa "u1"
        ((210, 0, "777777") ∷ [])
        (verify_login mfa 200 0 "u1" "abcd-2345" before).1)).0
    ≢ ok true
unfolding verify_login occurrences
backup_once_example =
    backup_once mfa "u1" "abcd-2345" 200 0 240 0 ((210, 0, "777777") ∷ []) before enrolled refl refl
      refl refl refl
