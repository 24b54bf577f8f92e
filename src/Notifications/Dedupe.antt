-- ===== src/Notifications/Dedupe.antt =====
-- Notifying twice with the same key.
use civiclens.Notifications.{
  NotificationRecord, NotificationPreference, Table, conflicts, add, false, notify, nothing, not, ℕ,
  add_queued, add_others, queued_record, email, push,
}
use civiclens.Prelude.{
  String, ◌≡◌, refl, sym, ◌∙◌, inl, inr, Bool, true, ◌&&◌, some, [], ◌∷◌, ◌++◌, arith, eq_iff,
  Bool-cases, any, str_eq, opt_eq, false, ◌||◌, not, ℕ, ltb,
}

any_more :
    (p : NotificationRecord → Bool) (t : Table) (n : NotificationRecord)
    → any p t ≡ true
    → any p (t ++ n ∷ []) ≡ true
any_more p [] n h = absurd (cc h)
any_more p (r ∷ t) n h = elim (Bool-cases (p r)) [
  | inl e ↦ rw e
  | inr e ↦ rw e (any_more p t n (rw e at h))
]

any_last :
    (p : NotificationRecord → Bool) (t : Table) (n : NotificationRecord)
    → p n ≡ true
    → any p (t ++ n ∷ []) ≡ true
any_last p [] n h = rw h
any_last p (r ∷ t) n h = elim (Bool-cases (p r)) [ inl e ↦ rw e | inr e ↦ rw e (any_last p t n h) ]

-- The row that a record is, with its user and its key.
pub record HasKey (n : NotificationRecord) (user key : String) : Type 0 where
  pub user_eq : n.user_id ≡ user
  pub key_eq : n.dedupe_key ≡ some key

abbrev key_taken : String → String → Table → Bool
key_taken user key t = any (λ row. str_eq row.user_id user && opt_eq (some key) row.dedupe_key) t

any-conflicts :
    (n : NotificationRecord) (user key : String) (t : Table)
    → HasKey n user key
    → any (conflicts n) t ≡ key_taken user key t
any-conflicts n user key [] h = refl
any-conflicts n user key (r ∷ t) h = rw (any-conflicts n user key t h) (rw h.user_eq (rw h.key_eq))

add-taken :
    (n : NotificationRecord) (user key : String) (t : Table)
    → HasKey n user key
    → key_taken user key (add n t).1 ≡ true
unfolding add
add-taken n user key t h = elim (Bool-cases (any (conflicts n) t)) [
  | inl e ↦ rw e (sym (any-conflicts n user key t h) ∙ e)
  | inr e ↦ rw e (
      any_last _ t n
        (rw h.user_eq (rw h.key_eq (ground (arith, eq_iff user user, eq_iff key key)))))
]

add_queued-taken :
    (wanted : Bool) (n : NotificationRecord) (user key : String) (t : Table)
    → key_taken user key t ≡ true
    → key_taken user key (add_queued wanted n t).1 ≡ true
unfolding add_queued add
add_queued-taken wanted n user key t h = elim (Bool-cases wanted) [
  | inr e ↦ rw e h
  | inl e ↦
      rw e (elim (Bool-cases (any (conflicts n) t)) [
        | inl k ↦ rw k h
        | inr k ↦ rw k (any_more _ t n h)
      ])
]

add_taken-false :
    (n : NotificationRecord) (user key : String) (t : Table)
    → HasKey n user key
    → key_taken user key t ≡ true
    → add n t ≡ (false, t)
unfolding add
add_taken-false n user key t h k = rw (any-conflicts n user key t h) (rw k)

notify-taken :
    (pref : NotificationPreference) (devices : ℕ) (rec : NotificationRecord)
    (user key email_id push_id : String) (t : Table)
    → HasKey rec user key
    → (any (λ k. str_eq k rec.kind) pref.muted_kinds || not pref.in_app) ≡ false
    → key_taken user key (notify pref devices rec email_id push_id t).1 ≡ true
unfolding notify add_others
notify-taken pref devices rec user key email_id push_id t h heard =
    let t1 = (add rec t).1 in
    let em = queued_record email ":email" email_id rec in
    rw heard (elim (Bool-cases (add rec t).0) [
      | inl e ↦ rw e (
          add_queued-taken (ltb 0 devices) (queued_record push ":push" push_id rec) user key
            (add_queued pref.email em t1).1
            (add_queued-taken pref.email em user key t1 (add-taken rec user key t h)))
      | inr e ↦ rw e (add-taken rec user key t h)
    ])

-- Notifying a user again with the same key, of the same kind and under the same preferences, stores
-- nothing and asks for no e-mail and no push message, whatever the text is.
pub notify_again :
    (pref : NotificationPreference) (devices devices' : ℕ) (rec rec' : NotificationRecord)
    (user key email_id email_id' push_id push_id' : String) (t : Table)
    → HasKey rec user key
    → HasKey rec' user key
    → rec'.kind ≡ rec.kind
    → notify pref devices' rec' email_id' push_id' (notify pref devices rec email_id push_id t).1
      ≡ (nothing, (notify pref devices rec email_id push_id t).1)
unfolding notify
notify_again pref devices devices' rec rec' user key email_id email_id' push_id push_id' t h h'
      kind =
    elim (Bool-cases (any (λ k. str_eq k rec.kind) pref.muted_kinds || not pref.in_app)) [
      | inl muted ↦ rw kind (rw muted)
      | inr heard ↦
          let taken = notify-taken pref devices rec user key email_id push_id t h heard in
          rw
            (
              add_taken-false rec' user key (notify pref devices rec email_id push_id t).1 h' taken,
              notify,
            )
            (rw kind (rw heard))
    ]
