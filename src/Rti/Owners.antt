-- ===== src/Rti/Owners.antt =====
-- Who changes an application of app/services/rti_service.py.
use civiclens.Access.{AuthContext}
use civiclens.Rti.{
  RtiRules, RtiDraft, RtiApplication, Applications, validate_draft, get, update, has_id,
  already_filed, integrity_error, not_filed, not_generated, receipt_in_future,
}
use civiclens.Rti.Service.{
  RtiCall, permitted, owned, redrafted, reference_of, written, submitted, answered, RtiRequest,
  do_create, do_update_draft, do_generate, do_mark_responded, do_mark_filed, handle, create,
  update_draft, generate, mark_filed, mark_responded, serve, new_application, is_open, is_filed,
  is_generated, in_future,
}
use civiclens.Rti.Sound.{owned-found}
use civiclens.Prelude.{
  is_some, String, ◌≡◌, refl, sym, ap, ◌∙◌, inl, inr, true, false, not, some, [], ◌∷◌, eq_iff,
  Bool-cases, or_else, find?, str_eq, ok, ◌>>◌, raise_if, Result-cases, find?-holds, >>=-ok,
  some_injective, ok_injective, >>-ok, find?-append,
}

pub get-update :
    (a : RtiApplication) (t : Applications) (i : String)
    → str_eq a.id i ≡ false
    → get i (update a t) ≡ get i t
unfolding get update
get-update a [] i n = refl
get-update a (row ∷ t) i n = elim (Bool-cases (has_id a.id row)) [
  | inl e ↦
      let same : row.id ≡ a.id = (eq_iff row.id a.id).0 e in
      let other : str_eq row.id i ≡ false = ap (λ x. str_eq x i) same ∙ n in rw (e, n, other) refl
  | inr e ↦ elim (Bool-cases (has_id i row)) [
    | inl f ↦ rw (e, f) refl
    | inr f ↦ rw (e, f) (get-update a t i n)
  ]
]

-- An application that `ctx` does not own, stored under `i`
module _ (ctx : AuthContext) (i : String) (t : Applications) (b : RtiApplication)
    (found : get i t ≡ some b) (foreign : str_eq b.owner_id ctx.user_id ≡ false) where
  not_own : (id : String) {a : RtiApplication} → owned ctx id t ≡ ok a → str_eq a.id i ≡ false
  unfolding get
  not_own id {a} h = elim (Bool-cases (str_eq a.id i)) [
    | inr e ↦ e
    | inl e ↦
        let f = owned-found ctx id t h in
        let at_id : a.id ≡ id = (eq_iff a.id id).0 (find?-holds (has_id id) t f.0) in
        let at_i : a.id ≡ i = (eq_iff a.id i).0 e in
        let same : id ≡ i = sym at_id ∙ at_i in
        let twice : some a ≡ some b = sym f.0 ∙ ap (λ x. get x t) same ∙ found in
        let one : a ≡ b = some_injective twice in
        let mine : str_eq b.owner_id ctx.user_id ≡ true =
          ap (λ x. str_eq x.owner_id ctx.user_id) (sym one) ∙ f.1 in
        absurd (cc (sym mine ∙ foreign))
  ]

  update-foreign :
      (id : String) (a' : RtiApplication) {a : RtiApplication}
      → owned ctx id t ≡ ok a
      → a'.id ≡ a.id
      → get i (update a' t) ≡ some b
  update-foreign id a' h e = get-update a' t i (ap (λ x. str_eq x i) e ∙ not_own id h) ∙ found

  create-foreign :
      (call : RtiCall) (d : RtiDraft) {t' : Applications}
      → create call ctx d t ≡ ok t'
      → get i t' ≡ some b
  unfolding create get
  create-foreign call d h =
      let m = >>=-ok (permitted ctx >> validate_draft d) _ h in
      let k = >>-ok (raise_if (is_some (get call.id t)) integrity_error) _ m.2 in
      rw (sym (ok_injective k)) (
        find?-append (has_id i) t _
        ∙ ap (λ o. or_else o (find? (has_id i) (new_application call ctx.user_id m.0 ∷ []))) found)

  handle-foreign :
      (wording : RtiDraft → String → String) (rules : RtiRules) (call : RtiCall) (r : RtiRequest)
      {t' : Applications}
      → handle wording rules call ctx r t ≡ ok t'
      → get i t' ≡ some b
  unfolding handle update_draft generate mark_filed mark_responded
  handle-foreign wording rules call (do_create d) h = create-foreign call d h
  handle-foreign wording rules call (do_update_draft id d) h =
      let o = >>=-ok (owned ctx id t) _ h in
      let m =
        >>=-ok (raise_if (not (is_open o.0.status)) already_filed >> validate_draft d) _ o.2 in
      rw (sym (ok_injective m.2)) (update-foreign id (redrafted m.0 o.0) o.1 refl)
  handle-foreign wording rules call (do_generate id) h =
      let o = >>=-ok (owned ctx id t) _ h in
      rw (sym (ok_injective (>>-ok (raise_if (not (is_open o.0.status)) already_filed) _ o.2)))
        (update-foreign id (written wording (reference_of call o.0.reference) o.0) o.1 refl)
  handle-foreign wording rules call (do_mark_responded id) h =
      let o = >>=-ok (owned ctx id t) _ h in
      rw (sym (ok_injective (>>-ok (raise_if (not (is_filed o.0.status)) not_filed) _ o.2)))
        (update-foreign id (answered o.0) o.1 refl)
  handle-foreign wording rules call (do_mark_filed id received) h =
      let o = >>=-ok (owned ctx id t) _ h in
      rw
        (sym (
          ok_injective (
            >>-ok
              (raise_if (not (is_generated o.0.status)) not_generated
                >> raise_if (in_future received call.now) receipt_in_future)
              _ o.2)))
        (update-foreign id (submitted rules call.now received o.0) o.1 refl)

-- Nobody changes the application of another: whatever is asked, it stays as it was.
pub foreign_applications_stay :
    (wording : RtiDraft → String → String) (rules : RtiRules) (call : RtiCall) (ctx : AuthContext)
    (r : RtiRequest) (i : String) (t : Applications) (b : RtiApplication)
    → get i t ≡ some b
    → str_eq b.owner_id ctx.user_id ≡ false
    → get i (serve wording rules call ctx r t) ≡ some b
unfolding serve
foreign_applications_stay wording rules call ctx r i t b found foreign =
    elim (Result-cases (handle wording rules call ctx r t)) [
      | inl e ↦ rw e.1 (handle-foreign ctx i t b found foreign wording rules call r e.1)
      | inr e ↦ rw e.1 found
    ]
