-- ===== src/Auth/Roles.antt =====
-- What the calls of app/services/auth_service.py do to the roles that the user rows carry.
pub mod Effects
pub mod Everyday
pub mod Privilege
use civiclens.Auth.Rows.{get-append, get-write_same, get-write_other}
use civiclens.Auth.Tables.{get_by_id, UserRecord, write_user, has_user_id}
use civiclens.Access.{Role}
use civiclens.Prelude.{
  String, ◌≡◌, refl, ◌⊎◌, inl, Option, none, some, List, [], ◌∷◌, ◌++◌, ap, or_else, if◌then◌else◌,
  Bool-cases, inr, str_eq, eq_iff, sym, ◌∙◌,
}

abbrev role_of_row : Option UserRecord → Option Role
role_of_row none = none
role_of_row (some u) = some u.role

unfoldable pub role_of : String → List UserRecord → Option Role
unfolding get_by_id
role_of id users = elim (get_by_id id users) [ none ↦ none | some u ↦ some u.role ]

-- A change of the table in which a role appears under `P` alone: of what the row had before, if
-- anything, and of the new role.
pub data Changed (uuid : String) (P : Option Role → Role → Type 0) (users users' : List UserRecord)
    : Type 0 where
  kept : users' ≡ users → Changed uuid P users users'
  added :
      (u : UserRecord)
      → u.id ≡ uuid
      → P none u.role
      → users' ≡ users ++ u ∷ []
      → Changed uuid P users users'
  written :
      (old new : UserRecord)
      → get_by_id new.id users ≡ some old
      → P (some old.role) new.role
      → users' ≡ write_user new users
      → Changed uuid P users users'

-- The role of an account after a change: what it was, or one that `P` admits.
abbrev pub Follows : (Option Role → Role → Type 0) → Option Role → Option Role → Type 0
Follows P before later = (later ≡ before) ⊎ ((r : Role) × (later ≡ some r) × P before r)

Follows-along :
    (P : Option Role → Role → Type 0) {before later later' : Option Role}
    → later ≡ later'
    → Follows P before later'
    → Follows P before later
Follows-along P e f = rw e f

pub role-Follows :
    {uuid : String} (P : Option Role → Role → Type 0) (users users' : List UserRecord) (id : String)
    → Changed uuid P users users'
    → Follows P (role_of id users) (role_of id users')
unfolding role_of
role-Follows P users users' id (kept e) = inl (ap (role_of id) e)
role-Follows P users users' id (added u own p e) =
    Follows-along P (ap (role_of id) e ∙ ap role_of_row (get-append id users u))
      (found (get_by_id id users))
  where
    found :
        (o : Option UserRecord)
        → Follows P
            (role_of_row o)
            (role_of_row (or_else o (if has_user_id id u then some u else none)))
    found (some r) = inl refl
    found none = elim (Bool-cases (has_user_id id u)) [
      | inl h ↦ rw h (inr (u.role, refl, p))
      | inr h ↦ rw h (inl refl)
    ]
role-Follows P users users' id (written old new h p e) = elim (Bool-cases (str_eq new.id id)) [
  | inl k ↦
      let same : new.id ≡ id = (eq_iff _ _).0 k in
      let before : get_by_id id users ≡ some old = ap (λ i. get_by_id i users) (sym same) ∙ h in
      let later : get_by_id id (write_user new users) ≡ some new =
        ap (λ i. get_by_id i (write_user new users)) (sym same) ∙ get-write_same new users h in
      Follows-along P (ap (role_of id) e ∙ ap role_of_row later)
        (inr (new.role, refl, rw (ap role_of_row before) p))
  | inr k ↦ inl (ap (role_of id) e ∙ ap role_of_row (get-write_other id new users k))
]
