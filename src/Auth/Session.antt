-- ===== src/Auth/Session.antt =====
-- `SessionPolicy` and `SessionRecord` of app/core/security.py. Times are in microseconds; a
-- difference of times that the code would find negative is 0 here, and no limit is below 0.
use civiclens.Prelude.{
  ℕ, ◌-◌, ◌*◌, String, Bool, false, Option, ltb, leb, if◌then◌else◌, is_some, str_eq,
}

pub record SessionPolicy : Type 0 where
  pub idle : ℕ
  pub absolute : ℕ

abbrev pub minute : ℕ
minute = 60000000

-- `SessionPolicy()`
abbrev pub default_session_policy : SessionPolicy
default_session_policy = record { idle = 30 * minute; absolute = 720 * minute }

-- `MOBILE_SESSION_POLICY`
abbrev pub mobile_session_policy : SessionPolicy
mobile_session_policy = record { idle = 20160 * minute; absolute = 86400 * minute }

pub record SessionRecord : Type 0 where
  pub id : String
  pub user_id : String
  pub token_hash : String
  pub created_at : ℕ
  pub last_seen_at : ℕ
  pub mfa_verified : Bool
  pub revoked_at : Option ℕ
  pub kind : String

unfoldable pub is_active : SessionRecord → ℕ → SessionPolicy → Bool
is_active s now policy =
    if is_some s.revoked_at
    then false
    else if ltb policy.absolute (now - s.created_at)
    then false
    else leb (now - s.last_seen_at) policy.idle

-- `MOBILE_SESSION_POLICY if session.kind == "mobile" else self._policy`
abbrev pub policy_of : SessionPolicy → SessionRecord → SessionPolicy
policy_of policy s = if str_eq s.kind "mobile" then mobile_session_policy else policy
