-- ===== src/Auth/Rows.antt =====
-- What the repositories of app/db/repositories/identity.py do to the row that a key finds.
use civiclens.Auth.State.{State, Answer, with_user}
use civiclens.Auth.Tables.{get_by_id, update_user, UserRecord, has_user_id, write_user}
use civiclens.Prelude.{
  String, ◌≡◌, refl, inl, inr, true, false, none, some, List, [], ◌∷◌, ◌++◌, eq_iff, if◌then◌else◌,
  Bool-cases, or_else, str_eq, find?-holds, find?-append, ap, ◌∙◌,
}

pub get_by_id-id :
    (id : String) (t : List UserRecord) {u : UserRecord} → get_by_id id t ≡ some u → u.id ≡ id
unfolding get_by_id
get_by_id-id id t h = (eq_iff _ _).0 (find?-holds (has_user_id id) t h)

pub get-append :
    (id : String) (t : List UserRecord) (u : UserRecord)
    → get_by_id id (t ++ u ∷ [])
      ≡ or_else (get_by_id id t) (if has_user_id id u then some u else none)
unfolding get_by_id
get-append id t u = find?-append (has_user_id id) t (u ∷ [])

pub get-write_same :
    (u : UserRecord) (t : List UserRecord) {old : UserRecord}
    → get_by_id u.id t ≡ some old
    → get_by_id u.id (write_user u t) ≡ some u
unfolding get_by_id
get-write_same u [] h = absurd (cc h)
get-write_same u (r ∷ t) h = elim (Bool-cases (has_user_id u.id r)) [
  | inl e ↦ let k : str_eq u.id u.id ≡ true = (eq_iff u.id u.id).1 refl in rw e (rw k)
  | inr e ↦ rw e (rw e (get-write_same u t (rw e at h)))
]

pub get-write_other :
    (id : String) (u : UserRecord) (t : List UserRecord)
    → str_eq u.id id ≡ false
    → get_by_id id (write_user u t) ≡ get_by_id id t
unfolding get_by_id
get-write_other id u [] h = refl
get-write_other id u (r ∷ t) h = elim (Bool-cases (has_user_id u.id r)) [
  | inl e ↦
      let same : r.id ≡ u.id = (eq_iff _ _).0 e in
      let other : str_eq r.id id ≡ false = rw same h in
      rw e (rw h (rw other (get-write_other id u t h)))
  | inr e ↦ rw e (rw (get-write_other id u t h))
]

-- A row that is there is written.
pub update-found :
    (u : UserRecord) (t : List UserRecord) {old : UserRecord}
    → get_by_id u.id t ≡ some old
    → update_user u t ≡ some (write_user u t)
unfolding update_user
update-found u t h = rw h

-- So the call goes on with the table written.
pub with_user-found :
    {B : Type 0} (u : UserRecord) (st : State) (k : State → Answer B) {old : UserRecord}
    → get_by_id u.id st.users ≡ some old
    → with_user u st k ≡ k (record st { users = write_user u st.users })
with_user-found u st k h = rw (update-found u st.users h)

pub found_by_own_id :
    (id : String) (t : List UserRecord) {u : UserRecord}
    → get_by_id id t ≡ some u
    → get_by_id u.id t ≡ some u
found_by_own_id id t h = ap (λ i. get_by_id i t) (get_by_id-id id t h) ∙ h
