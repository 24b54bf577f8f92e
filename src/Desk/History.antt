-- ===== src/Desk/History.antt =====
-- The calls of app/services/officer_service.py keep what every step keeps, and are made by someone
-- who may write the complaint.
pub mod Calls
pub mod Moves
pub mod Sent
pub mod All
use civiclens.Desk.Automation.{aside, run_rules-Keeps}
use civiclens.Desk.Rules.{run_for_complaint}
use civiclens.Desk.Keeps.{IsStored, Keeps, Keeps-refl, Keeps-trans, Keeps-move, Keeps-along}
use civiclens.Access.{AuthContext, can_access_complaint}
use civiclens.Desk.Officer.{
  transition, enter_status, load, DeskError, audited_kind, moved_to, is_administrator, notice_kind,
  as_bad_transition,
}
use civiclens.Desk.{
  has_id, Work, Book, Complaint, add_event, get, save, audited, announce, notify, status_key,
  second,
}
use civiclens.Complaint.Status.{Status, can_transition, apply_transition, validate_transition}
use civiclens.Desk.Matching.{Office, status_changed}
use civiclens.Prelude.{
  ℕ, ◌/◌, String, ◌≡◌, refl, sym, ap, ◌∙◌, ◌⊎◌, inl, inr, true, false, Option, none, some, eq_iff,
  Bool-cases, Option-cases, str_eq, Result, ok, ◌>>=◌, ◌>>◌, ok_injective, >>=-ok, find?-holds,
  >>-ok,
}

-- A call on the complaint `id` that has succeeded.
pub record Handled (ctx : AuthContext) (id : String) (b : Book) (w' : Work) : Type 0 where
  pub complaint : Complaint
  pub found : get id b.complaints ≡ some complaint
  pub kept : Keeps (complaint, b) w'
  pub access :
      (can_access_complaint ctx complaint.citizen_id complaint.department_code true ≡ true)
      ⊎ ((complaint.department_code ≡ none) × (is_administrator ctx.role ≡ true))

pub Handled-own :
    (ctx : AuthContext) (id : String) (b : Book) (w' : Work) (d : Handled ctx id b w')
    → d.complaint.id ≡ id
unfolding get
Handled-own ctx id b w' d =
    (eq_iff d.complaint.id id).0 (find?-holds (has_id id) b.complaints d.found)

pub Handled-id :
    (ctx : AuthContext) (id : String) (b : Book) (w' : Work) → Handled ctx id b w' → w'.0.id ≡ id
Handled-id ctx id b w' d = d.kept.same_id ∙ Handled-own ctx id b w' d

-- The complaint comes from its row, so that its row is up to date at the end.
pub Handled-IsStored :
    (ctx : AuthContext) (id : String) (b : Book) (w' : Work) → Handled ctx id b w' → IsStored w'
Handled-IsStored ctx id b w' d = d.kept.stored (record {
  row = d.complaint;
  row_found = ap (λ x. get x b.complaints) (Handled-own ctx id b w' d) ∙ d.found;
  row_status = refl;
  row_level = refl;
})

load-ok :
    (ctx : AuthContext) (id : String) (b : Book) {c : Complaint}
    → load ctx id b ≡ ok c
    → (get id b.complaints ≡ some c)
      × (can_access_complaint ctx c.citizen_id c.department_code true ≡ true)
unfolding load
load-ok ctx id b {c} h = elim (Option-cases (get id b.complaints)) [
  | inl e ↦ absurd (cc (rw e at h))
  | inr (r, e) ↦ elim (Bool-cases (can_access_complaint ctx r.citizen_id r.department_code true)) [
    | inr a ↦ absurd (cc (rw a at (rw e at h)))
    | inl a ↦
        let same : r ≡ c = ok_injective (rw a at (rw e at h)) in
        (
          e ∙ ap some same,
          ap (λ x. can_access_complaint ctx x.citizen_id x.department_code true) (sym same) ∙ a,
        )
  ]
]

-- A call that loads its complaint, and keeps what it must once it has done so.
pub loaded :
    (ctx : AuthContext) (id : String) (b : Book) (m : Result DeskError (Unit {0}))
    (f : Complaint → Result DeskError Work) {w' : Work}
    → ((c : Complaint) → f c ≡ ok w' → Keeps (c, b) w')
    → (m >> load ctx id b >>= f) ≡ ok w'
    → Handled ctx id b w'
loaded ctx id b m f k h =
    let first = >>=-ok (m >> load ctx id b) f h in
    let read = load-ok ctx id b (>>-ok m (load ctx id b) first.1) in
    record { complaint = first.0; found = read.0; kept = k first.0 first.2; access = inl read.1 }

audited_kind-Keeps : (kind actor : String) (w : Work) → Keeps w (audited_kind kind actor w)
audited_kind-Keeps kind actor (c, b) = elim (Bool-cases (str_eq kind "status_change")) [
  | inl e ↦ rw e (Keeps-refl (c, b))
  | inr e ↦ rw e (aside c b _ refl refl refl)
]

enter_status-Keeps :
    (office : Office) (now : ℕ) (actor : String) (target : Status) (remarks : Option String)
    (kind : String) (c : Complaint) (b : Book)
    → can_transition c.status target ≡ true
    → Keeps (c, b) (enter_status office now actor c.status target remarks kind (c, b))
unfolding enter_status run_for_complaint
enter_status-Keeps office now actor target remarks kind c b h =
    let w1 = add_event kind (some actor) (some c.status) (some target) remarks false now (c, b) in
    let w2 = save (moved_to target now w1.0, w1.1) in
    let w3 = (run_for_complaint office now status_changed w2).0 in
    let w4 = audited "complaint.status_changed" (some actor) (
      announce "complaint.status_changed" (
        notify w3.0.citizen_id (notice_kind target) (status_key w3.0.id target (now / second))
          w3)) in
    Keeps-trans (c, b) w2 _
      (Keeps-move c (moved_to target now c) b w2.1 _ h refl refl refl refl refl refl refl refl refl)
      (Keeps-trans w2 w3 _ (run_rules-Keeps office now status_changed office.rules w2)
        (Keeps-trans w3 w4 _ (aside w3.0 w3.1 _ refl refl refl) (audited_kind-Keeps kind actor w4)))

pub transition-Keeps :
    (office : Office) (now : ℕ) (actor : String) (target : Status) (remarks : Option String)
    (kind : String) (c : Complaint) (b : Book) {w' : Work}
    → transition office now actor target remarks kind (c, b) ≡ ok w'
    → Keeps (c, b) w'
unfolding transition apply_transition validate_transition
transition-Keeps office now actor target remarks kind c b h =
    elim (Bool-cases (can_transition c.status target)) [
      | inr e ↦ absurd (cc (rw e at h))
      | inl e ↦
          let accepted =
            as_bad_transition
              (apply_transition c.id c.status target (some actor) none remarks now) in
          let first =
            >>=-ok accepted
              (λ x. ok (enter_status office now actor c.status target x.remarks kind (c, b))) h in
          Keeps-along (ok_injective first.2)
            (enter_status-Keeps office now actor target first.0.remarks kind c b e)
    ]
