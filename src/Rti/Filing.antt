-- ===== src/Rti/Filing.antt =====
-- The calls of app/services/rti_service.py keep every application sound.
use civiclens.Rti.Sound.{
  IsSound, Stage, NoRepeats, not_raised, owned-IsSound, filed_stage, open-IsUnfiled, update-All,
  generated_stage,
}
use civiclens.Access.{AuthContext}
use civiclens.Rti.{
  get, integrity_error, RtiRules, RtiDraft, RtiApplication, validate_draft, Applications,
  not_generated, already_filed, not_filed, receipt_in_future,
}
use civiclens.Rti.Service.{
  RtiCall, permitted, owned, is_open, is_generated, is_filed, new_application, create, mark_filed,
  mark_responded, handle, in_future, update_draft, serve, generate, RtiRequest, do_create,
  redrafted, do_update_draft, reference_of, answered, submitted, written, do_generate,
  do_mark_responded, do_mark_filed,
}
use civiclens.Prelude.{
  is_some, ℕ, ◌≤◌, String, ◌≡◌, refl, sym, inl, inr, false, not, Option, none, some, arith,
  value_or, All, ok, ◌>>◌, raise_if, All-append, Result-cases, >>=-ok, >>-ok, >>-first,
  raise_if-false, ok_injective,
}

module _ (rules : RtiRules) where
  create-IsSound :
      (call : RtiCall) (ctx : AuthContext) (d : RtiDraft) (t : Applications) {t' : Applications}
      → All (IsSound rules) t
      → create call ctx d t ≡ ok t'
      → All (IsSound rules) t'
  unfolding create Stage
  create-IsSound call ctx d t s h =
      let m = >>=-ok (permitted ctx >> validate_draft d) _ h in
      let new : IsSound rules (new_application call ctx.user_id m.0) = record {
        drafted = (d, >>-ok (permitted ctx) (validate_draft d) m.1);
        stage = record {
          filed_none = refl;
          received_none = refl;
          due_none = refl;
          none_sent = refl;
        };
      } in
      let k = >>-ok (raise_if (is_some (get call.id t)) integrity_error) _ m.2 in
      rw (sym (ok_injective k)) (All-append (IsSound rules) t _ s (new, tt))

  update_draft-IsSound :
      (ctx : AuthContext) (id : String) (d : RtiDraft) (t : Applications) {t' : Applications}
      → All (IsSound rules) t
      → update_draft ctx id d t ≡ ok t'
      → All (IsSound rules) t'
  unfolding update_draft Stage
  update_draft-IsSound ctx id d t s h =
      let o = >>=-ok (owned ctx id t) _ h in
      let a : RtiApplication = o.0 in
      let m = >>=-ok (raise_if (not (is_open a.status)) already_filed >> validate_draft d) _ o.2 in
      let still =
        not_raised _ _
          (>>-first (raise_if (not (is_open a.status)) already_filed) (validate_draft d) m.1) in
      let sound = owned-IsSound rules ctx id t s o.1 in
      let u = open-IsUnfiled rules a.status a still sound.stage in
      let new : IsSound rules (redrafted m.0 a) = record {
        drafted =
            (d, >>-ok (raise_if (not (is_open a.status)) already_filed) (validate_draft d) m.1);
        stage = record {
          filed_none = u.filed_none;
          received_none = u.received_none;
          due_none = u.due_none;
          none_sent = u.none_sent;
        };
      } in
      rw (sym (ok_injective m.2)) (update-All (IsSound rules) (redrafted m.0 a) t s new)

  generate-IsSound :
      (wording : RtiDraft → String → String) (call : RtiCall) (ctx : AuthContext) (id : String)
      (t : Applications) {t' : Applications}
      → All (IsSound rules) t
      → generate wording call ctx id t ≡ ok t'
      → All (IsSound rules) t'
  unfolding generate Stage
  generate-IsSound wording call ctx id t s h =
      let o = >>=-ok (owned ctx id t) _ h in
      let a : RtiApplication = o.0 in
      let guard = raise_if (not (is_open a.status)) already_filed in
      let still = not_raised _ _ (>>-first guard _ o.2) in
      let sound = owned-IsSound rules ctx id t s o.1 in
      let u = open-IsUnfiled rules a.status a still sound.stage in
      let r : String = reference_of call a.reference in
      let new : IsSound rules (written wording r a) = record {
        drafted = sound.drafted;
        stage = (
          record {
            filed_none = u.filed_none;
            received_none = u.received_none;
            due_none = u.due_none;
            none_sent = u.none_sent;
          },
          (r, wording a.content r, refl, refl),
        );
      } in
      rw (sym (ok_injective (>>-ok guard _ o.2)))
        (update-All (IsSound rules) (written wording r a) t s new)

  not_future :
      (received : Option ℕ) (now : ℕ) → in_future received now ≡ false → value_or now received ≤ now
  not_future none now h = omega arith
  not_future (some r) now h = ground arith

  mark_filed-IsSound :
      (call : RtiCall) (ctx : AuthContext) (id : String) (received : Option ℕ) (t : Applications)
      {t' : Applications}
      → All (IsSound rules) t
      → mark_filed rules call ctx id received t ≡ ok t'
      → All (IsSound rules) t'
  unfolding mark_filed Stage NoRepeats
  mark_filed-IsSound call ctx id received t s h =
      let o = >>=-ok (owned ctx id t) _ h in
      let a : RtiApplication = o.0 in
      let guard = raise_if (not (is_generated a.status)) not_generated in
      let guard' = raise_if (in_future received call.now) receipt_in_future in
      let both = >>-first (guard >> guard') _ o.2 in
      let made = not_raised _ _ (>>-first guard guard' both) in
      let past = raise_if-false (in_future received call.now) _ (>>-ok guard guard' both) in
      let sound = owned-IsSound rules ctx id t s o.1 in
      let g = generated_stage rules a.status a made sound.stage in
      let new : IsSound rules (submitted rules call.now received a) = record {
        drafted = sound.drafted;
        stage = (
          record {
            filing = call.now;
            receipt = value_or call.now received;
            filed_then = refl;
            received_then = refl;
            received_first = not_future received call.now past;
            due_then = refl;
            once_each = rw g.0.none_sent tt;
          },
          g.1,
        );
      } in
      rw (sym (ok_injective (>>-ok (guard >> guard') _ o.2)))
        (update-All (IsSound rules) (submitted rules call.now received a) t s new)

  mark_responded-IsSound :
      (ctx : AuthContext) (id : String) (t : Applications) {t' : Applications}
      → All (IsSound rules) t
      → mark_responded ctx id t ≡ ok t'
      → All (IsSound rules) t'
  unfolding mark_responded Stage
  mark_responded-IsSound ctx id t s h =
      let o = >>=-ok (owned ctx id t) _ h in
      let a : RtiApplication = o.0 in
      let guard = raise_if (not (is_filed a.status)) not_filed in
      let sound = owned-IsSound rules ctx id t s o.1 in
      let f = filed_stage rules a.status a (not_raised _ _ (>>-first guard _ o.2)) sound.stage in
      let x = f.0 in
      let new : IsSound rules (answered a) = record {
        drafted = sound.drafted;
        stage = (
          record {
            filing = x.filing;
            receipt = x.receipt;
            filed_then = x.filed_then;
            received_then = x.received_then;
            received_first = x.received_first;
            due_then = x.due_then;
            once_each = x.once_each;
          },
          f.1,
        );
      } in
      rw (sym (ok_injective (>>-ok guard _ o.2))) (update-All (IsSound rules) (answered a) t s new)

  handle-IsSound :
      (wording : RtiDraft → String → String) (call : RtiCall) (ctx : AuthContext) (r : RtiRequest)
      (t : Applications) {t' : Applications}
      → All (IsSound rules) t
      → handle wording rules call ctx r t ≡ ok t'
      → All (IsSound rules) t'
  unfolding handle
  handle-IsSound wording call ctx (do_create d) t s h = create-IsSound call ctx d t s h
  handle-IsSound wording call ctx (do_update_draft id d) t s h = update_draft-IsSound ctx id d t s h
  handle-IsSound wording call ctx (do_generate id) t s h =
      generate-IsSound wording call ctx id t s h
  handle-IsSound wording call ctx (do_mark_responded id) t s h = mark_responded-IsSound ctx id t s h
  handle-IsSound wording call ctx (do_mark_filed id received) t s h =
      mark_filed-IsSound call ctx id received t s h

  pub serve-IsSound :
      (wording : RtiDraft → String → String) (call : RtiCall) (ctx : AuthContext) (r : RtiRequest)
      (t : Applications)
      → All (IsSound rules) t
      → All (IsSound rules) (serve wording rules call ctx r t)
  unfolding serve
  serve-IsSound wording call ctx r t s = elim (Result-cases (handle wording rules call ctx r t)) [
    | inl e ↦ rw (e.1) (handle-IsSound wording call ctx r t s e.1)
    | inr e ↦ rw (e.1) s
  ]
