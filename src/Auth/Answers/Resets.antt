-- ===== src/Auth/Answers/Resets.antt =====
-- What a reset of the password through app/services/auth_service.py leaves behind.
use civiclens.Auth.Session.{SessionRecord}
use civiclens.Auth.State.{Setup, Call, State, bad_reset_link, check_password}
use civiclens.Auth.Passwords.{reset_password, usable, replace_password, new_password}
use civiclens.Auth.Tables.{
  revoke_all_for_user, get_reset, ResetTokenRecord, mark_used, UserRecord, get_by_id, write_user,
}
use civiclens.Auth.Rows.{get_by_id-id, found_by_own_id, get-write_same}
use civiclens.Prelude.{
  ℕ, String, ◌≡◌, refl, sym, ap, ◌∙◌, inl, inr, true, Option, none, some, List, [], ◌∷◌, arith,
  eq_iff, Bool-cases, Option-cases, is_some, All, str_eq, str_ne, ok, err, Result-cases, All-map,
  some_injective, find?-holds,
}

get-mark_used :
    (h : String) (at : ℕ) (t : List ResetTokenRecord) (r : ResetTokenRecord)
    → get_reset h t ≡ some r
    → get_reset h (mark_used h at t) ≡ some (record r { used_at = some at })
unfolding get_reset mark_used
get-mark_used h at [] r e = absurd (cc e)
get-mark_used h at (x ∷ t) r e = elim (Bool-cases (str_eq x.token_hash h)) [
  | inl k ↦
      let same : x ≡ r = some_injective (rw k at e) in
      rw k (rw k (ap (λ (y : ResetTokenRecord). some (record y { used_at = some at })) same))
  | inr k ↦ rw k (rw k (get-mark_used h at t r (rw k at e)))
]

pub revoke_all_for_user-All :
    (u : String) (at : ℕ) (t : List SessionRecord)
    → All (λ s. s.user_id ≡ u → is_some s.revoked_at ≡ true) (revoke_all_for_user u at t)
unfolding revoke_all_for_user
revoke_all_for_user-All u at [] = tt
revoke_all_for_user-All u at (s ∷ t) = elim (Bool-cases (str_eq s.user_id u)) [
  | inr e ↦ rw e (λ k. absurd (str_ne _ _ e k), revoke_all_for_user-All u at t)
  | inl e ↦ elim (Option-cases s.revoked_at) [
    | inl r ↦ rw e (rw r (λ k. refl, revoke_all_for_user-All u at t))
    | inr (x, r) ↦ rw e (rw r (λ k. refl, revoke_all_for_user-All u at t))
  ]
]

revoked_named :
    (u v : String) (at : ℕ) (t : List SessionRecord)
    → u ≡ v
    → All (λ s. s.user_id ≡ v → is_some s.revoked_at ≡ true) (revoke_all_for_user u at t)
revoked_named u v at t e =
    All-map (λ s. s.user_id ≡ u → is_some s.revoked_at ≡ true)
      (λ s. s.user_id ≡ v → is_some s.revoked_at ≡ true) (λ s f k. f (k ∙ sym e)) _
      (revoke_all_for_user-All u at t)

usable-row :
    (now : ℕ) (o : Option ResetTokenRecord) {r : ResetTokenRecord}
    → usable now o ≡ ok r
    → o ≡ some r
unfolding usable
usable-row now none h = absurd (cc h)
usable-row now (some x) h = ground arith

-- The account, and the state, of a reset that succeeds.
pub record ResetDone (setup : Setup) (call : Call) (raw new : String) (st st' : State)
    : Type 0 where
  pub row : ResetTokenRecord
  pub user : UserRecord
  pub row_found : get_reset (setup.hash_token raw) st.resets ≡ some row
  pub user_found : get_by_id row.user_id st.users ≡ some user
  pub users : st'.users ≡ write_user (new_password setup call user new) st.users
  pub sessions : st'.sessions ≡ revoke_all_for_user user.id call.now st.sessions
  pub resets : st'.resets ≡ mark_used row.token_hash call.now st.resets

reset_done :
    (setup : Setup) (call : Call) (raw new : String) (st st' : State)
    → reset_password setup call raw new st ≡ (ok tt, st')
    → ResetDone setup call raw new st st'
unfolding reset_password replace_password
reset_done setup call raw new st st' h =
    elim (Result-cases (usable call.now (get_reset (setup.hash_token raw) st.resets))) [
      | inr (x, f) ↦ absurd (cc (rw f at h))
      | inl (row, f) ↦ elim (Option-cases (get_by_id row.user_id st.users)) [
        | inl g ↦ absurd (cc (rw g at (rw f at h)))
        | inr (u, g) ↦ elim (Result-cases (check_password setup.lower new u.email)) [
          | inr (x, c) ↦ absurd (cc (rw c at (rw g at (rw f at h))))
          | inl (x, c) ↦
              let own = found_by_own_id row.user_id st.users g in
              let k = ap (λ y. y.1) (rw own at (rw c at (rw g at (rw f at h)))) in
              record {
                row = row;
                user = u;
                row_found = usable-row call.now _ f;
                user_found = g;
                users = sym (ap (λ y. y.users) k);
                sessions = sym (ap (λ y. y.sessions) k);
                resets = sym (ap (λ y. y.resets) k);
              }
        ]
      ]
    ]

-- A reset token works once: after a reset that succeeds, every further reset with the same token is
-- refused, at any time and for any password, and changes nothing.
pub reset_once :
    (setup : Setup) (call call' : Call) (raw new new' : String) (st st' : State)
    → reset_password setup call raw new st ≡ (ok tt, st')
    → reset_password setup call' raw new' st' ≡ (err bad_reset_link, st')
unfolding reset_password usable get_reset
reset_once setup call call' raw new new' st st' h =
    let d = reset_done setup call raw new st st' h in
    let key : d.row.token_hash ≡ setup.hash_token raw =
      (eq_iff _ _).0
        (find?-holds (λ r. str_eq r.token_hash (setup.hash_token raw)) st.resets d.row_found) in
    let spent =
      ap (get_reset (setup.hash_token raw))
        (d.resets ∙ ap (λ k. mark_used k call.now st.resets) key)
      ∙ get-mark_used (setup.hash_token raw) call.now st.resets d.row d.row_found in
    rw spent refl

-- A reset that succeeds writes the new password into the account that the token's row names, and
-- leaves every session of that account revoked.
pub reset_ends_sessions :
    (setup : Setup) (call : Call) (raw new : String) (st st' : State)
    → reset_password setup call raw new st ≡ (ok tt, st')
    → (row : ResetTokenRecord) × (u : UserRecord) × (get_reset (setup.hash_token raw) st.resets
        ≡ some row)
      × (get_by_id row.user_id st'.users ≡ some u)
      × (u.password_hash ≡ setup.hash call.salt new)
      × All (λ s. s.user_id ≡ row.user_id → is_some s.revoked_at ≡ true) st'.sessions
reset_ends_sessions setup call raw new st st' h =
    let d = reset_done setup call raw new st st' h in
    let u = new_password setup call d.user new in
    let own = found_by_own_id d.row.user_id st.users d.user_found in
    let id : d.user.id ≡ d.row.user_id = get_by_id-id d.row.user_id st.users d.user_found in
    (
      d.row,
      u,
      d.row_found,
      ap (λ i. get_by_id i st'.users) (sym id)
          ∙ ap (get_by_id u.id) d.users
          ∙ get-write_same u st.users own,
      refl,
      rw d.sessions (revoked_named u.id d.row.user_id call.now st.sessions id),
    )
