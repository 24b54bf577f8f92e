-- ===== src/Rti/Always.antt =====
-- Sequences of calls of app/services/rti_service.py and of runs of app/services/rti_workflow.py.
use civiclens.Access.{AuthContext}
use civiclens.Rti.{
  Applications, RtiApplication, RtiDraft, RtiRules, RtiStatus, closed, draft, filed, generated,
  responded,
}
use civiclens.Rti.Service.{is_filed, RtiCall, RtiRequest, serve}
use civiclens.Rti.Sound.{NoRepeats, IsSent, HasText, Stage, IsSound, filed_stage, update-All}
use civiclens.Rti.Due.{due_reminders-IsReached, due_reminders-cases}
use civiclens.Rti.Filing.{serve-IsSound}
use civiclens.Rti.Reminders.{was_sent, due_reminders, Reminder, reminded, remind, remind_each, run}
use civiclens.Rti.Told.{Noted, noting, told, sent_of, Distinct}
use civiclens.Rti.Sending.{Told, serve-SameSent, run-Told}
use civiclens.Rti.{get, has_id}
use civiclens.Prelude.{
  ℕ, String, ◌≡◌, refl, sym, ◌∙◌, inl, inr, Bool, true, false, Option, none, some, List, [], ◌∷◌,
  ◌++◌, arith, ◌==◌, Bool-cases, filter, All, All-find, All-filter, any-append,
}

NoRepeats-add :
    (k : ℕ) (xs : List ℕ) → NoRepeats xs → was_sent k xs ≡ false → NoRepeats (xs ++ k ∷ [])
unfolding NoRepeats
NoRepeats-add k [] n s = (refl, tt)
NoRepeats-add k (x ∷ xs) n s = elim (Bool-cases (x == k)) [
  | inl e ↦ absurd (cc (rw e at s))
  | inr e ↦
      let other : k == x ≡ false = ground arith in
      (
        rw (any-append (λ y. y == x) xs (k ∷ []), n.0, other) refl,
        NoRepeats-add k xs n.1 (rw e at s),
      )
]

module _ (rules : RtiRules) where
  filed_again :
      (x : RtiStatus) (a : RtiApplication)
      → is_filed x ≡ true
      → IsSent rules a × HasText a
      → Stage rules x a
  unfolding Stage
  filed_again filed a h s = s
  filed_again draft a h s = absurd (cc h)
  filed_again generated a h s = absurd (cc h)
  filed_again responded a h s = absurd (cc h)
  filed_again closed a h s = absurd (cc h)

  reminded-IsSound :
      (now k : ℕ) (a : RtiApplication)
      → IsSound rules a
      → due_reminders rules a now ≡ k ∷ []
      → IsSound rules (reminded k a)
  reminded-IsSound now k a s h =
      let r = due_reminders-IsReached rules a now h in
      let f = filed_stage rules a.status a r.still_filed s.stage in
      let x = f.0 in
      record {
        drafted = s.drafted;
        stage = filed_again a.status (reminded k a) r.still_filed (
          record {
            filing = x.filing;
            receipt = x.receipt;
            filed_then = x.filed_then;
            received_then = x.received_then;
            received_first = x.received_first;
            due_then = x.due_then;
            once_each = NoRepeats-add k a.reminders_sent x.once_each r.not_sent;
          },
          f.1,
        );
      }

  module _ {N : Type 0} (notify : Reminder → N → Bool × N) where
    remind-IsSound :
        (now : ℕ) (a : RtiApplication) (ks : List ℕ) (s : Applications × N × ℕ)
        → due_reminders rules a now ≡ ks
        → IsSound rules a
        → All (IsSound rules) s.0
        → All (IsSound rules) (remind notify ks a s).0
    unfolding remind
    remind-IsSound now a [] s e d all_sound = all_sound
    remind-IsSound now a (k ∷ []) s e d all_sound =
        update-All (IsSound rules) (reminded k a) s.0 all_sound (reminded-IsSound now k a d e)
    remind-IsSound now a (k ∷ j ∷ ks) s e d all_sound = elim (due_reminders-cases rules a now) [
      | inl n ↦ absurd (cc (sym e ∙ n))
      | inr n ↦ absurd (cc (sym e ∙ n.1))
    ]

    remind_each-IsSound :
        (now : ℕ) (todo : Applications) (s : Applications × N × ℕ)
        → All (IsSound rules) todo
        → All (IsSound rules) s.0
        → All (IsSound rules) (remind_each notify rules now todo s).0
    unfolding remind_each
    remind_each-IsSound now [] s d all_sound = all_sound
    remind_each-IsSound now (a ∷ todo) s d all_sound =
        remind_each-IsSound now todo (remind notify (due_reminders rules a now) a s) d.1
          (remind-IsSound now a (due_reminders rules a now) s refl d.0 all_sound)

    run-IsSound :
        (now : ℕ) (t : Applications) (n : N)
        → All (IsSound rules) t
        → All (IsSound rules) (run notify rules now (t, n)).0
    unfolding run
    run-IsSound now t n s =
        remind_each-IsSound now (filter (λ a. is_filed a.status) t) (t, n, 0)
          (All-filter (IsSound rules) (λ a. is_filed a.status) t s) s

pub data RtiStep : Type 0 where
  by_request : RtiCall → AuthContext → RtiRequest → RtiStep
  by_reminders : ℕ → RtiStep

module _ {N : Type 0} (notify : Reminder → N → Bool × N) (wording : RtiDraft → String → String)
    (rules : RtiRules) where
  unfoldable pub after : List RtiStep → Applications × N → Applications × N
  unfolding serve run
  after [] s = s
  after (by_request call ctx r ∷ steps) (t, n) = after steps (serve wording rules call ctx r t, n)
  after (by_reminders now ∷ steps) (t, n) =
      let (t', n', sent) = run notify rules now (t, n) in after steps (t', n')

  after-IsSound :
      (steps : List RtiStep) (t : Applications) (n : N)
      → All (IsSound rules) t
      → All (IsSound rules) (after steps (t, n)).0
  unfolding after
  after-IsSound [] t n s = s
  after-IsSound (by_request call ctx r ∷ steps) t n s =
      after-IsSound steps (serve wording rules call ctx r t) n
        (serve-IsSound rules wording call ctx r t s)
  after-IsSound (by_reminders now ∷ steps) t n s =
      after-IsSound steps (run notify rules now (t, n)).0 (run notify rules now (t, n)).1
        (run-IsSound rules notify now t n s)

pub stage_NoRepeats :
    (rules : RtiRules) (x : RtiStatus) (a : RtiApplication)
    → Stage rules x a
    → NoRepeats a.reminders_sent
unfolding Stage NoRepeats
stage_NoRepeats rules draft a s = rw s.none_sent tt
stage_NoRepeats rules generated a s = rw s.0.none_sent tt
stage_NoRepeats rules filed a s = s.0.once_each
stage_NoRepeats rules responded a s = s.0.once_each
stage_NoRepeats rules closed a s = s.0.once_each

row_NoRepeats :
    (rules : RtiRules) (o : Option RtiApplication)
    → ((a : RtiApplication) → o ≡ some a → IsSound rules a)
    → NoRepeats (sent_of o)
unfolding NoRepeats
row_NoRepeats rules none s = tt
row_NoRepeats rules (some a) s = stage_NoRepeats rules a.status a (s a refl).stage

module _ {N : Type 0} (notify : Reminder → N → Bool × N) (wording : RtiDraft → String → String)
    (rules : RtiRules) where
  after-Told :
      (steps : List RtiStep) (t : Applications) (n : Noted N)
      → Told t n.log
      → Told
          (after (noting notify) wording rules steps (t, n)).0
          (after (noting notify) wording rules steps (t, n)).1.log
  unfolding after
  after-Told [] t n g = g
  after-Told (by_request call ctx r ∷ steps) t n g =
      let k = serve-SameSent wording rules call ctx r t in
      after-Told steps (serve wording rules call ctx r t) n
        (record { distinct = k.distinct g.distinct; agrees = λ i. g.agrees i ∙ sym (k.same i) })
  after-Told (by_reminders now ∷ steps) t n g =
      after-Told steps (run (noting notify) rules now (t, n)).0
        (run (noting notify) rules now (t, n)).1 (run-Told notify rules now t n g)

  -- Whatever calls and runs of the reminders follow each other, from no applications: every
  -- application has a draft that was validated, and one that is filed or answered has its text and
  -- its number, was received no later than it was filed, and is due as the rules say of its receipt;
  -- one that is not filed has no dates and no reminders. The reminders that were sent for an
  -- application are exactly those that its row records, in this order, and none was sent twice.
  pub applications_in_order :
      (steps : List RtiStep) (w : N)
      → All
          (IsSound rules)
          (after (noting notify) wording rules steps ([], record { log = []; world = w })).0
        × ((i : String)
            → (told i
                  (after
                    (noting notify)
                    wording
                    rules
                    steps
                    ([], record { log = []; world = w })).1.log
                ≡ sent_of (
                    get i
                      (after
                        (noting notify)
                        wording
                        rules
                        steps
                        ([], record { log = []; world = w })).0))
              × NoRepeats (
                  told i
                    (after
                      (noting notify)
                      wording
                      rules
                      steps
                      ([], record { log = []; world = w })).1.log))
  unfolding get told Distinct
  applications_in_order steps w =
      let start : Noted N = record { log = []; world = w } in
      let sound = after-IsSound (noting notify) wording rules steps [] start tt in
      let t = (after (noting notify) wording rules steps ([], start)).0 in
      let g = after-Told steps [] start (record { distinct = tt; agrees = λ i. refl }) in
      (
        sound,
        λ i. (
          g.agrees i,
          rw (g.agrees i) (
              row_NoRepeats rules (get i t) (λ a h. All-find (IsSound rules) (has_id i) t sound h)),
        ),
      )
