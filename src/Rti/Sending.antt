-- ===== src/Rti/Sending.antt =====
-- What is sent of app/services/rti_workflow.py is what the applications record, through every call of
-- app/services/rti_service.py and every run.
use civiclens.Access.{AuthContext}
use civiclens.Rti.{
  RtiRules, RtiDraft, RtiApplication, Applications, validate_draft, get, update, has_id,
  already_filed, not_filed, not_generated, receipt_in_future, integrity_error,
}
use civiclens.Rti.Service.{
  RtiCall, permitted, owned, redrafted, reference_of, written, submitted, answered, RtiRequest,
  do_create, do_update_draft, do_generate, do_mark_responded, do_mark_filed, handle, create,
  update_draft, generate, mark_filed, mark_responded, serve, new_application, is_open, is_filed,
  is_generated, in_future,
}
use civiclens.Rti.Sound.{owned-found}
use civiclens.Rti.Owners.{get-update}
use civiclens.Rti.Reminders.{due_reminders, Reminder, reminded, remind, remind_each, run}
use civiclens.Rti.Told.{
  Noted, noting, sent_of, Agrees, Distinct, told-own, told-other, get-update_own, All-both,
  Distinct-rows, Distinct-filter, Distinct-update, Distinct-add,
}
use civiclens.Prelude.{
  ℕ, String, ◌≡◌, refl, sym, ap, ◌∙◌, inl, inr, Bool, false, not, Option, none, some, List, [], ◌∷◌,
  ◌++◌, eq_iff, Bool-cases, is_some, or_else, filter, find?, All, str_eq, ok, ◌>>◌, raise_if,
  Result-cases, >>=-ok, find?-append, find?-holds, All-filter, ok_injective, >>-ok,
}

-- What a call leaves as it was of the identifiers and of what was sent.
pub record SameSent (t t' : Applications) : Type 0 where
  pub distinct : Distinct t → Distinct t'
  pub same : (i : String) → sent_of (get i t') ≡ sent_of (get i t)

update-SameSent :
    (id : String) (a a' : RtiApplication) (t : Applications)
    → get id t ≡ some a
    → a'.id ≡ a.id
    → a'.reminders_sent ≡ a.reminders_sent
    → SameSent t (update a' t)
unfolding get
update-SameSent id a a' t h e r = record {
  distinct = Distinct-update a' t;
  same = λ i. elim (Bool-cases (str_eq a'.id i)) [
    | inr n ↦ ap sent_of (get-update a' t i n)
    | inl n ↦
        let at_i : a'.id ≡ i = (eq_iff a'.id i).0 n in
        let at_id : a.id ≡ id = (eq_iff a.id id).0 (find?-holds (has_id id) t h) in
        let found : get a'.id t ≡ some a = ap (λ x. get x t) (e ∙ at_id) ∙ h in
        ap (λ x. sent_of (get x (update a' t))) (sym at_i)
        ∙ ap sent_of (get-update_own a' a t found)
        ∙ r
        ∙ ap sent_of (sym found)
        ∙ ap (λ x. sent_of (get x t)) at_i
  ];
}

add-SameSent :
    (a : RtiApplication) (t : Applications)
    → get a.id t ≡ none
    → a.reminders_sent ≡ []
    → SameSent t (t ++ a ∷ [])
unfolding get
add-SameSent a t n r = record {
  distinct = Distinct-add a t n;
  same = λ i. ap sent_of (find?-append (has_id i) t (a ∷ [])) ∙ new i (get i t);
}
  where
    new :
        (i : String) (o : Option RtiApplication)
        → sent_of (or_else o (find? (has_id i) (a ∷ []))) ≡ sent_of o
    new i (some b) = refl
    new i none = elim (Bool-cases (has_id i a)) [ inl e ↦ rw e r | inr e ↦ rw e refl ]

free : (o : Option RtiApplication) → raise_if (is_some o) integrity_error ≡ ok tt → o ≡ none
free none h = refl
free (some a) h = absurd (cc h)

module _ (ctx : AuthContext) (t : Applications) where
  handle-SameSent :
      (wording : RtiDraft → String → String) (rules : RtiRules) (call : RtiCall) (r : RtiRequest)
      {t' : Applications}
      → handle wording rules call ctx r t ≡ ok t'
      → SameSent t t'
  unfolding handle create update_draft generate mark_filed mark_responded
  handle-SameSent wording rules call (do_create d) h =
      let m = >>=-ok (permitted ctx >> validate_draft d) _ h in
      let new = new_application call ctx.user_id m.0 in
      let k = >>=-ok (raise_if (is_some (get call.id t)) integrity_error) _ m.2 in
      rw (sym (ok_injective k.2)) (add-SameSent new t (free (get call.id t) k.1) refl)
  handle-SameSent wording rules call (do_update_draft id d) h =
      let o = >>=-ok (owned ctx id t) _ h in
      let m =
        >>=-ok (raise_if (not (is_open o.0.status)) already_filed >> validate_draft d) _ o.2 in
      rw (sym (ok_injective m.2))
        (update-SameSent id o.0 (redrafted m.0 o.0) t (owned-found ctx id t o.1).0 refl refl)
  handle-SameSent wording rules call (do_generate id) h =
      let o = >>=-ok (owned ctx id t) _ h in
      let a' = written wording (reference_of call o.0.reference) o.0 in
      rw (sym (ok_injective (>>-ok (raise_if (not (is_open o.0.status)) already_filed) _ o.2)))
        (update-SameSent id o.0 a' t (owned-found ctx id t o.1).0 refl refl)
  handle-SameSent wording rules call (do_mark_responded id) h =
      let o = >>=-ok (owned ctx id t) _ h in
      rw (sym (ok_injective (>>-ok (raise_if (not (is_filed o.0.status)) not_filed) _ o.2)))
        (update-SameSent id o.0 (answered o.0) t (owned-found ctx id t o.1).0 refl refl)
  handle-SameSent wording rules call (do_mark_filed id received) h =
      let o = >>=-ok (owned ctx id t) _ h in
      let k =
        >>-ok
          (raise_if (not (is_generated o.0.status)) not_generated
            >> raise_if (in_future received call.now) receipt_in_future)
          _ o.2 in
      rw (sym (ok_injective k)) (
        update-SameSent id o.0 (submitted rules call.now received o.0) t
          (owned-found ctx id t o.1).0 refl refl)

pub serve-SameSent :
    (wording : RtiDraft → String → String) (rules : RtiRules) (call : RtiCall) (ctx : AuthContext)
    (r : RtiRequest) (t : Applications)
    → SameSent t (serve wording rules call ctx r t)
unfolding serve
serve-SameSent wording rules call ctx r t =
    elim (Result-cases (handle wording rules call ctx r t)) [
      | inl e ↦ rw e.1 (handle-SameSent ctx t wording rules call r e.1)
      | inr e ↦ rw e.1 (record { distinct = λ d. d; same = λ i. refl })
    ]

-- What holds after every step: identifiers are distinct, and what was sent is recorded.
pub record Told (t : Applications) (log : List Reminder) : Type 0 where
  pub distinct : Distinct t
  pub agrees : Agrees t log

Agrees-remind :
    (k : ℕ) (a : RtiApplication) (t : Applications) (log : List Reminder)
    → get a.id t ≡ some a
    → Agrees t log
    → Agrees
        (update (reminded k a) t)
        (log ++ record { owner_id = a.owner_id; application_id = a.id; threshold = k } ∷ [])
Agrees-remind k a t log h g i =
    let r : Reminder = record { owner_id = a.owner_id; application_id = a.id; threshold = k } in
    elim (Bool-cases (str_eq a.id i)) [
      | inr n ↦ told-other log r i n ∙ g i ∙ ap sent_of (sym (get-update (reminded k a) t i n))
      | inl n ↦
          let at_i : a.id ≡ i = (eq_iff a.id i).0 n in
          told-own log r i n
          ∙ ap (λ x. x ++ k ∷ []) (g i ∙ ap (λ x. sent_of (get x t)) (sym at_i) ∙ ap sent_of h)
          ∙ ap sent_of (sym (get-update_own (reminded k a) a t h))
          ∙ ap (λ x. sent_of (get x (update (reminded k a) t))) at_i
    ]

module _ {N : Type 0} (notify : Reminder → N → Bool × N) where
  remind-Told :
      (ks : List ℕ) (a : RtiApplication) (t : Applications) (n : Noted N) (c : ℕ)
      → get a.id t ≡ some a
      → Told t n.log
      → Told (remind (noting notify) ks a (t, n, c)).0 (remind (noting notify) ks a (t, n, c)).1.log
  unfolding remind
  remind-Told [] a t n c h g = g
  remind-Told (k ∷ ks) a t n c h g =
      remind-Told ks (reminded k a) (update (reminded k a) t) _ _
        (get-update_own (reminded k a) a t h)
        (record {
          distinct = Distinct-update (reminded k a) t g.distinct;
          agrees = Agrees-remind k a t n.log h g.agrees;
        })

  remind-others :
      (ks : List ℕ) (a : RtiApplication) (t : Applications) (m : Noted N) (c : ℕ) (i : String)
      → str_eq a.id i ≡ false
      → get i (remind (noting notify) ks a (t, m, c)).0 ≡ get i t
  unfolding remind
  remind-others [] a t m c i n = refl
  remind-others (k ∷ ks) a t m c i n =
      remind-others ks (reminded k a) (update (reminded k a) t) _ _ i n
      ∙ get-update (reminded k a) t i n

  remind_each-Told :
      (rules : RtiRules) (now : ℕ) (todo t : Applications) (n : Noted N) (c : ℕ)
      → Distinct todo
      → All (λ b. get b.id t ≡ some b) todo
      → Told t n.log
      → Told
          (remind_each (noting notify) rules now todo (t, n, c)).0
          (remind_each (noting notify) rules now todo (t, n, c)).1.log
  unfolding remind_each Distinct
  remind_each-Told rules now [] t n c d rows g = g
  remind_each-Told rules now (a ∷ todo) t n c d rows g =
      let ks = due_reminders rules a now in
      let s = remind (noting notify) ks a (t, n, c) in
      remind_each-Told rules now todo s.0 s.1 s.2 d.1
        (All-both {P = λ b. str_eq a.id b.id ≡ false} {Q = λ b. get b.id t ≡ some b}
          (λ b m h. remind-others ks a t n c b.id m ∙ h) todo d.0 rows.1)
        (remind-Told ks a t n c rows.0 g)

  pub run-Told :
      (rules : RtiRules) (now : ℕ) (t : Applications) (n : Noted N)
      → Told t n.log
      → Told (run (noting notify) rules now (t, n)).0 (run (noting notify) rules now (t, n)).1.log
  unfolding run
  run-Told rules now t n g =
      remind_each-Told rules now (filter (λ a. is_filed a.status) t) t n 0
        (Distinct-filter (λ a. is_filed a.status) t g.distinct)
        (All-filter (λ b. get b.id t ≡ some b) (λ a. is_filed a.status) t
          (Distinct-rows t g.distinct))
        g
