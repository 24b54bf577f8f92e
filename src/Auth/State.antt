-- ===== src/Auth/State.antt =====
-- What an `AuthService` of app/services/auth_service.py works on: the tables, the failure throttle
-- and the audit trail; what it is built with; and what one call draws from outside.
use civiclens.RateLimit.Sliding.{RateLimited}
use civiclens.Auth.Session.{SessionPolicy, SessionRecord}
use civiclens.Auth.Password.{Problem, password_problems}
use civiclens.Auth.Tables.{UserRecord, revoke_all_for_user, update_user, ResetTokenRecord}
use civiclens.RateLimit.Throttle.{Throttle, check, record_failure, record_success}
use civiclens.Prelude.{ℕ, String, Bool, Option, none, some, List, [], ◌∷◌, ◌++◌, Result, ok, err}

-- The row that `AuditService.record` adds, without its metadata.
pub record AuditEntry : Type 0 where
  pub action : String
  pub actor_id : Option String
  pub resource_id : Option String

pub record State : Type 0 where
  pub users : List UserRecord
  pub sessions : List SessionRecord
  pub resets : List ResetTokenRecord
  pub throttle : Throttle
  pub audit : List AuditEntry

-- The password hasher (`hash` takes the salt that it draws), the digest of tokens, the policy, and
-- `str.lower`, which follows the tables of Unicode.
pub record Setup : Type 0 where
  pub hash : String → String → String
  pub verify : String → String → Bool
  pub needs_rehash : String → Bool
  pub hash_token : String → String
  pub policy : SessionPolicy
  pub lower : String → String

-- One call: the clock, the throttle's clock, and the fresh identifier, token and salt.
pub record Call : Type 0 where
  pub now : ℕ
  pub monotonic : ℕ
  pub uuid : String
  pub token : String
  pub salt : String

pub data AuthError : Type 0 where
  invalid_email bad_name officer_without_department role_not_assignable : AuthError
  weak_password : List Problem → AuthError
  email_taken bad_setup_token setup_completed unknown_user : AuthError
  privileged_account own_or_unknown_account user_not_found : AuthError
  bad_credentials not_signed_in session_expired wrong_password bad_reset_link : AuthError
  locked_out : RateLimited → AuthError
  row_missing : AuthError

-- A call returns its value or the exception that it raises, and the state it leaves.
abbrev pub Answer : Type 0 → Type 0
Answer A = Result AuthError A × State

-- The rest of a call after a step that may raise and changes nothing.
abbrev pub after : {A B : Type 0} → Result AuthError A → State → (A → Answer B) → Answer B
after (ok a) st k = k a
after (err e) st k = (err e, st)

abbrev pub or_raise : {A : Type 0} → Option A → AuthError → Result AuthError A
or_raise (some a) e = ok a
or_raise none e = err e

-- `validate_password_policy`
unfoldable pub check_password : (String → String) → String → String → Result AuthError (Unit {0})
check_password lower password email = passed (password_problems lower password email)
  where
    passed : List Problem → Result AuthError (Unit {0})
    passed [] = ok tt
    passed (p ∷ ps) = err (weak_password (p ∷ ps))

abbrev pub audited : String → Option String → Option String → State → State
audited action actor resource st = record st {
  audit = st.audit ++ record { action = action; actor_id = actor; resource_id = resource } ∷ [];
}

-- `self._users.add(user)`
abbrev pub add_user : UserRecord → State → State
add_user u st = record st { users = st.users ++ u ∷ [] }

-- `self._users.update(user)`, and the rest of the call
abbrev pub with_user : {B : Type 0} → UserRecord → State → (State → Answer B) → Answer B
with_user u st k =
    after (or_raise (update_user u st.users) row_missing) st
      (λ users. k (record st { users = users }))

-- `self._sessions.revoke_all_for_user(user_id, at)`
abbrev pub revoke_sessions : String → ℕ → State → State
revoke_sessions user_id at st = record st { sessions = revoke_all_for_user user_id at st.sessions }

-- `for k in keys: self._throttle.check(k)`
unfoldable pub check_keys : List String → ℕ → Throttle → Result RateLimited (Unit {0}) × Throttle
check_keys [] now t = (ok tt, t)
check_keys (k ∷ ks) now t =
    let (r, t') = check t k now in elim r [ ok u ↦ check_keys ks now t' | err e ↦ (err e, t') ]

-- The rest of a call once the throttle has let it through.
abbrev pub unlocked :
    {B : Type 0} → Result RateLimited (Unit {0}) × Throttle → State → (State → Answer B) → Answer B
unlocked (ok u, t) st k = k (record st { throttle = t })
unlocked (err e, t) st k = (err (locked_out e), record st { throttle = t })

-- `for k in keys: self._throttle.record_failure(k)`
unfoldable pub fail_keys : List String → ℕ → Throttle → Throttle
fail_keys [] now t = t
fail_keys (k ∷ ks) now t = fail_keys ks now (record_failure t k now)

-- `for k in keys: self._throttle.record_success(k)`
unfoldable pub clear_keys : List String → Throttle → Throttle
clear_keys [] t = t
clear_keys (k ∷ ks) t = clear_keys ks (record_success t k)
