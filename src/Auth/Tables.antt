-- ===== src/Auth/Tables.antt =====
-- The tables of users, sessions and reset tokens: `UserRecord` and `ResetTokenRecord` of
-- app/services/auth_service.py, and the repositories of app/db/repositories/identity.py. A table is
-- the list of its rows.
use civiclens.Access.{Role}
use civiclens.Auth.Session.{SessionRecord}
use civiclens.Prelude.{
  ℕ, String, Bool, true, false, ◌&&◌, Option, none, some, List, [], ◌∷◌, if◌then◌else◌, is_some,
  is_none, length, filter, find?, str_eq,
}

pub record UserRecord : Type 0 where
  pub id : String
  pub email : String
  pub password_hash : String
  pub full_name : String
  pub role : Role
  pub department_id : Option String
  pub is_active : Bool

pub record ResetTokenRecord : Type 0 where
  pub token_hash : String
  pub user_id : String
  pub expires_at : ℕ
  pub used_at : Option ℕ

abbrev pub has_user_id : String → UserRecord → Bool
has_user_id id u = str_eq u.id id

unfoldable pub get_by_id : String → List UserRecord → Option UserRecord
get_by_id id users = find? (has_user_id id) users

unfoldable pub get_by_email : String → List UserRecord → Option UserRecord
get_by_email email users = find? (λ u. str_eq u.email email) users

-- The columns that `SqlUserRepository.update` writes: all but the key.
abbrev pub write_user : UserRecord → List UserRecord → List UserRecord
write_user u [] = []
write_user u (r ∷ t) = (if has_user_id u.id r then u else r) ∷ write_user u t

-- `none` for the `LookupError` on a row that is not there
unfoldable pub update_user : UserRecord → List UserRecord → Option (List UserRecord)
update_user u users = if is_some (get_by_id u.id users) then some (write_user u users) else none

unfoldable pub same_role : Role → Role → Bool
same_role Role.citizen Role.citizen = true
same_role Role.officer Role.officer = true
same_role Role.admin Role.admin = true
same_role Role.super_admin Role.super_admin = true
same_role Role.integration_admin Role.integration_admin = true
same_role Role.auditor Role.auditor = true
same_role _ _ = false

unfoldable pub count_with_role : Role → List UserRecord → ℕ
count_with_role role users = length (filter (λ u. same_role u.role role) users)

unfoldable pub get_by_token_hash : String → List SessionRecord → Option SessionRecord
get_by_token_hash h sessions = find? (λ s. str_eq s.token_hash h) sessions

-- The columns that `SqlSessionRepository.update` writes.
unfoldable pub update_session : SessionRecord → List SessionRecord → List SessionRecord
update_session s [] = []
update_session s (r ∷ t) =
    (if str_eq r.id s.id
      then record r {
        last_seen_at = s.last_seen_at;
        revoked_at = s.revoked_at;
        mfa_verified = s.mfa_verified;
      }
      else r)
    ∷ update_session s t

unfoldable pub revoke_all_for_user : String → ℕ → List SessionRecord → List SessionRecord
revoke_all_for_user user_id at [] = []
revoke_all_for_user user_id at (r ∷ t) =
    (if str_eq r.user_id user_id && is_none r.revoked_at
      then record r { revoked_at = some at }
      else r)
    ∷ revoke_all_for_user user_id at t

unfoldable pub get_reset : String → List ResetTokenRecord → Option ResetTokenRecord
get_reset h resets = find? (λ r. str_eq r.token_hash h) resets

unfoldable pub mark_used : String → ℕ → List ResetTokenRecord → List ResetTokenRecord
mark_used h at [] = []
mark_used h at (r ∷ t) =
    (if str_eq r.token_hash h then record r { used_at = some at } else r) ∷ mark_used h at t
