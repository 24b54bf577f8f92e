-- ===== src/Notifications/Email.antt =====
-- The status of an e-mail tells the truth, and a delivered one is not sent again.
use civiclens.Notifications.{
  NotificationRecord, Table, email, delivered, EmailSender, attempt, finish_email, deliver_email,
  begin_send, is_delivered, NotifyError, SendError, smtp_exception, raised_other, no_sender,
  no_address, smtp_error, not_configured, failed, update, get, overwrite, may_send, as_sending,
  Channel, Status, same_channel, true,
}
use civiclens.Prelude.{
  Result, err, ok_injective, Result-cases, ℕ, String, ◌≡◌, refl, sym, ◌↔◌, inl, inr, false, Option,
  none, some, [], ◌∷◌, arith, eq_iff, Bool-cases, Option-cases, str_eq, is_empty, ok, ◌∙◌, ap, true,
}

abbrev pub IsDelivered : Result NotifyError NotificationRecord → Type 0
IsDelivered (ok n) = n.status ≡ delivered
IsDelivered (err e) = ⊥

module _ {W : Type 0} where
  -- There is a sender, an address that is not empty, and the sender does not raise.
  abbrev pub IsAccepted : Option (EmailSender W) → NotificationRecord → Option String → W → Type 0
  IsAccepted none n address w = ⊥
  IsAccepted (some send) n none w = ⊥
  IsAccepted (some send) n (some address) w =
      (is_empty address ≡ false) × ((send address n.title n.body w).0 ≡ none)

  -- An attempt to send an e-mail leaves it delivered exactly when there is a sender and an address
  -- that is not empty, and the sender does not raise.
  pub attempt-IsDelivered_iff :
      (sender : Option (EmailSender W)) (n : NotificationRecord) (address : Option String) (now : ℕ)
      (w : W)
      → IsDelivered (attempt sender n address now w).0 ↔ IsAccepted sender n address w
  unfolding attempt
  attempt-IsDelivered_iff none n address now w = ((λ h. absurd (cc h)), λ h. absurd h)
  attempt-IsDelivered_iff (some send) n none now w = ((λ h. absurd (cc h)), λ h. absurd h)
  attempt-IsDelivered_iff (some send) n (some address) now w =
      elim (Bool-cases (is_empty address)) [
        | inl e ↦ rw e ((λ h. absurd (cc h)), λ h. absurd (let k = h.0 in cc k))
        | inr e ↦ rw e (elim (Option-cases (send address n.title n.body w).0) [
          | inl k ↦ rw k ((λ _. (refl, refl)), λ _. refl)
          | inr (smtp_exception x, k) ↦
              rw k ((λ h. absurd (cc h)), λ h. absurd (let m = h.1 in cc m))
          | inr (raised_other x, k) ↦ rw k ((λ h. absurd h), λ h. absurd (let m = h.1 in cc m))
        ])
      ]

get-update_same :
    (n : NotificationRecord) (t : Table) (row : NotificationRecord)
    → get n.id t ≡ some row
    → get n.id (update n t) ≡ some (overwrite n row)
unfolding get update
get-update_same n [] row h = absurd (cc h)
get-update_same n (r ∷ t) row h = elim (Bool-cases (str_eq r.id n.id)) [
  | inl e ↦
      let k : some r ≡ some row = rw e at h in let same : r ≡ row = cc k in rw e (rw e (rw same))
  | inr e ↦ rw e (rw e (get-update_same n t row (rw e at h)))
]

get_id : (id : String) (t : Table) (row : NotificationRecord) → get id t ≡ some row → row.id ≡ id
unfolding get
get_id id [] row h = absurd (cc h)
get_id id (r ∷ t) row h = elim (Bool-cases (str_eq r.id id)) [
  | inl e ↦
      let k : some r ≡ some row = rw e at h in
      let same : r ≡ row = cc k in rw (sym same) (ground (arith, eq_iff r.id id))
  | inr e ↦ get_id id t row (rw e at h)
]

delivered-eq : (s : Status) → s ≡ delivered → is_delivered s ≡ true
delivered-eq s e = rw e

delivered-may_send : (s : Status) → s ≡ delivered → may_send s ≡ false
delivered-may_send s e = rw e

same_channel-eq : (c : Channel) → c ≡ email → same_channel c email ≡ true
same_channel-eq c e = rw e

begin_send-delivered :
    (id : String) (t : Table) (n : NotificationRecord)
    → get id t ≡ some n
    → n.channel ≡ email
    → n.status ≡ delivered
    → ((begin_send id email t).0 ≡ ok n) × ((begin_send id email t).1 ≡ t)
unfolding begin_send
begin_send-delivered id t n h c d =
    let k = same_channel-eq n.channel c in
    let m = delivered-may_send n.status d in
    (rw (h, begin_send) (rw k (rw m)), rw (h, begin_send) (rw k (rw m)))

-- A row of the table that is an e-mail.
abbrev IsEmail : String → NotificationRecord → Table → Type 0
IsEmail id n t = (get id t ≡ some n) × (n.channel ≡ email)

begin_send-IsEmail :
    (id : String) (t : Table) (n : NotificationRecord)
    → IsEmail id n t
    → (n' : NotificationRecord) × ((begin_send id email t).0 ≡ ok n')
      × IsEmail id n' (begin_send id email t).1
unfolding begin_send
begin_send-IsEmail id t n (h, c) =
    let k = same_channel-eq n.channel c in
    let i = get_id id t n h in
    elim (Bool-cases (may_send n.status)) [
      | inl e ↦ (
        as_sending n,
        (rw (h, begin_send) (rw k (rw e))),
        (
          rw (h, begin_send)
              (rw k (
                rw e (
                  ap (λ x. get x (update (as_sending n) t)) (sym i)
                  ∙ get-update_same (as_sending n) t n (ap (λ x. get x t) i ∙ h)))),
          c,
        ),
      )
      | inr e ↦ (n, (rw (h, begin_send) (rw k (rw e))), (rw (h, begin_send) (rw k (rw e h)), c))
    ]

-- What an attempt leaves of a notification.
record HasAttempted (n n' : NotificationRecord) : Type 0 where
  same_id : n'.id ≡ n.id
  same_channel : n'.channel ≡ n.channel
  same_row : overwrite n' n ≡ n'

-- The fields that an attempt writes.
written :
    (n n' : NotificationRecord) (s : Status) (d : Option ℕ) (e : Option SendError)
    → record n { status = s; delivered_at = d; error = e } ≡ n'
    → HasAttempted n n'
written n n' s d e h = rw (sym h) (record { same_id = refl; same_channel = refl; same_row = refl })

module _ {W : Type 0} where
  attempt-HasAttempted :
      (sender : Option (EmailSender W)) (n n' : NotificationRecord) (address : Option String)
      (now : ℕ) (w : W)
      → (attempt sender n address now w).0 ≡ ok n'
      → HasAttempted n n'
  unfolding attempt
  attempt-HasAttempted none n n' address now w h =
      written n n' not_configured n.delivered_at (some no_sender) (ok_injective h)
  attempt-HasAttempted (some send) n n' none now w h =
      written n n' failed n.delivered_at (some no_address) (ok_injective h)
  attempt-HasAttempted (some send) n n' (some address) now w h =
      elim (Bool-cases (is_empty address)) [
        | inl e ↦ written n n' failed n.delivered_at (some no_address) (ok_injective (rw e at h))
        | inr e ↦ elim (Option-cases (send address n.title n.body w).0) [
          | inl k ↦ written n n' delivered (some now) none (ok_injective (rw k at (rw e at h)))
          | inr (smtp_exception x, k) ↦
              written n n' failed n.delivered_at (some (smtp_error x))
                (ok_injective (rw k at (rw e at h)))
          | inr (raised_other x, k) ↦ absurd (cc (rw k at (rw e at h)))
        ]
      ]

  deliver_delivered :
      (sender : Option (EmailSender W)) (id : String) (address : Option String) (now : ℕ)
      (t : Table) (w : W) (n : NotificationRecord)
      → IsEmail id n t
      → n.status ≡ delivered
      → deliver_email sender id address now (t, w) ≡ (ok n, t, w)
  unfolding deliver_email finish_email
  deliver_delivered sender id address now t w n (h, c) d =
      let (b0, b1) = begin_send-delivered id t n h c d in
      let e = delivered-eq n.status d in rw (b0, deliver_email) (rw b1 (rw (e, finish_email)))

  finish_email-IsEmail :
      (sender : Option (EmailSender W)) (id : String) (address : Option String) (now : ℕ)
      (t : Table) (w : W) (n n' : NotificationRecord)
      → IsEmail id n t
      → (finish_email sender n address now (t, w)).0 ≡ ok n'
      → IsEmail id n' (finish_email sender n address now (t, w)).1
  unfolding finish_email
  finish_email-IsEmail sender id address now t w n n' (h, c) r =
      elim (Bool-cases (is_delivered n.status)) [
        | inl e ↦
            let same : n ≡ n' = ok_injective (rw e at r) in
            rw e (h ∙ ap some same, ap (λ x. x.channel) (sym same) ∙ c)
        | inr e ↦ elim (Result-cases (attempt sender n address now w).0) [
          | inr (x, k) ↦ absurd (cc (rw k at (rw e at r)))
          | inl (m, k) ↦
              let same : m ≡ n' = ok_injective (rw k at (rw e at r)) in
              let a = attempt-HasAttempted sender n m address now w k in
              let i : m.id ≡ id = a.same_id ∙ get_id id t n h in
              rw e (
                rw k (
                  ap (λ x. get x (update m t)) (sym i)
                      ∙ get-update_same m t n (ap (λ x. get x t) i ∙ h)
                      ∙ ap some (a.same_row ∙ same),
                  ap (λ x. x.channel) (sym same) ∙ a.same_channel ∙ c,
                ))
        ]
      ]

  deliver-IsEmail :
      (sender : Option (EmailSender W)) (id : String) (address : Option String) (now : ℕ)
      (t : Table) (w : W) (n n' : NotificationRecord)
      → IsEmail id n t
      → (deliver_email sender id address now (t, w)).0 ≡ ok n'
      → IsEmail id n' (deliver_email sender id address now (t, w)).1
  unfolding deliver_email
  deliver-IsEmail sender id address now t w n n' h r =
      let (n1, e, row) = begin_send-IsEmail id t n h in
      let t1 = (begin_send id email t).1 in
      let r' : (finish_email sender n1 address now (t1, w)).0 ≡ ok n' =
        rw (e, deliver_email) at r in
      rw (e, deliver_email) (finish_email-IsEmail sender id address now t1 w n1 n' row r')

  -- Once an e-mail was delivered, delivering it again, at any later time, with any sender and
  -- address, sends nothing: the table and the world stay as they are, and the row is returned.
  pub deliver_once :
      (sender sender' : Option (EmailSender W)) (id : String) (address address' : Option String)
      (now later : ℕ) (t : Table) (w : W) (n n' : NotificationRecord)
      → get id t ≡ some n
      → n.channel ≡ email
      → (deliver_email sender id address now (t, w)).0 ≡ ok n'
      → n'.status ≡ delivered
      → deliver_email sender' id address' later (
        (deliver_email sender id address now (t, w)).1,
        (deliver_email sender id address now (t, w)).2,
      )
        ≡ (
          ok n',
          (deliver_email sender id address now (t, w)).1,
          (deliver_email sender id address now (t, w)).2,
        )
  deliver_once sender sender' id address address' now later t w n n' h c r d =
      let row = deliver-IsEmail sender id address now t w n n' (h, c) r in
      deliver_delivered sender' id address' later (deliver_email sender id address now (t, w)).1
        (deliver_email sender id address now (t, w)).2 n' row d
