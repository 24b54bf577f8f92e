-- ===== src/Notifications.antt =====
-- `NotificationService` of app/services/notification_service.py over SqlNotificationRepository of
-- app/db/repositories/ops.py. The table is the list of its rows; the sender of e-mails is a
-- parameter that acts on the world `W`. JSON values are texts; times are in microseconds. The
-- identifiers that `uuid4` gives and the readings of the clock are arguments. What
-- `notify` is given is the record that it builds first; the event that it returns has no more in
-- it than that record. Sending push messages, devices, reading and preferences are left out.
pub mod Dedupe
pub mod Email
mod Tests
use Prim.Native.String.{◌++◌ as append}
use civiclens.Prelude.{
  ℕ, String, Bool, true, false, not, ◌&&◌, ◌||◌, Option, none, some, List, [], ◌∷◌, ◌++◌,
  if◌then◌else◌, any, find?, str_eq, opt_eq, is_empty, Result, ok, err, ltb,
}

pub data Channel : Type 0 where
  in_app email push : Channel

pub data Status : Type 0 where
  queued sending delivered failed not_configured : Status

pub data SendError : Type 0 where
  no_sender no_address : SendError
  smtp_error : String → SendError

pub record NotificationRecord : Type 0 where
  pub id : String
  pub user_id : String
  pub kind : String
  pub title : String
  pub body : String
  pub payload : String
  pub channel : Channel
  pub status : Status
  pub created_at : ℕ
  pub delivered_at : Option ℕ
  pub read_at : Option ℕ
  pub error : Option SendError
  pub dedupe_key : Option String

pub record NotificationPreference : Type 0 where
  pub in_app : Bool
  pub email : Bool
  pub muted_kinds : List String

abbrev pub default_preference : NotificationPreference
default_preference = record { in_app = true; email = false; muted_kinds = [] }

abbrev pub Table : Type 0
Table = List NotificationRecord

-- A conflict with the constraint on the user and the key: a missing key conflicts with nothing.
abbrev same_key : Option String → Option String → Bool
same_key none k = false
same_key (some j) k = opt_eq (some j) k

abbrev pub conflicts : NotificationRecord → NotificationRecord → Bool
conflicts n row = str_eq row.user_id n.user_id && same_key n.dedupe_key row.dedupe_key

unfoldable pub add : NotificationRecord → Table → Bool × Table
add n t = if any (conflicts n) t then (false, t) else (true, t ++ n ∷ [])

unfoldable pub get : String → Table → Option NotificationRecord
get id t = find? (λ n. str_eq n.id id) t

-- The columns that `update` writes.
abbrev pub overwrite : NotificationRecord → NotificationRecord → NotificationRecord
overwrite n row = record row {
  status = n.status;
  delivered_at = n.delivered_at;
  read_at = n.read_at;
  error = n.error;
}

unfoldable pub update : NotificationRecord → Table → Table
update n [] = []
update n (row ∷ t) = (if str_eq row.id n.id then overwrite n row else row) ∷ update n t

-- `f"{dedupe_key}:email" if dedupe_key else None`, and likewise with `push`.
abbrev pub channel_key : String → Option String → Option String
channel_key suffix none = none
channel_key suffix (some key) = if is_empty key then none else some (append key suffix)

abbrev pub in_app_record :
    String → String → String → String → String → String → Option String → ℕ → NotificationRecord
in_app_record id user_id kind title body payload dedupe_key now = record {
  id = id;
  user_id = user_id;
  kind = kind;
  title = title;
  body = body;
  payload = payload;
  channel = in_app;
  status = delivered;
  created_at = now;
  delivered_at = some now;
  read_at = none;
  error = none;
  dedupe_key = dedupe_key;
}

-- A further record, for the job that sends an e-mail or a push message.
abbrev pub queued_record : Channel → String → String → NotificationRecord → NotificationRecord
queued_record channel suffix id rec = record rec {
  id = id;
  channel = channel;
  status = queued;
  delivered_at = none;
  dedupe_key = channel_key suffix rec.dedupe_key;
}

-- What `notify` returns: the record, if it was stored, and the identifiers that it appends to
-- `want_email_job` and to `want_push_job`.
pub record Notified : Type 0 where
  pub stored : Option NotificationRecord
  pub email_jobs : List String
  pub push_jobs : List String

abbrev pub nothing : Notified
nothing = record { stored = none; email_jobs = []; push_jobs = [] }

-- `if wanted: ... if repo.add(n): jobs.append(n.id)`
unfoldable pub add_queued : Bool → NotificationRecord → Table → List String × Table
unfolding add
add_queued wanted n t =
    let (added, t') = add n t in if wanted then (if added then n.id ∷ [] else [], t') else ([], t)

unfoldable pub add_others :
    NotificationPreference → ℕ → NotificationRecord → String → String → Table → Notified × Table
unfolding add_queued
add_others pref devices rec email_id push_id t =
    let (emails, t') = add_queued pref.email (queued_record email ":email" email_id rec) t in
    let (pushes, t'') = add_queued (ltb 0 devices) (queued_record push ":push" push_id rec) t' in
    (record { stored = some rec; email_jobs = emails; push_jobs = pushes }, t'')

-- `notify`, with `rec` the record that it builds, the number of the user's devices, and the
-- identifiers of the two further records.
unfoldable pub notify :
    NotificationPreference → ℕ → NotificationRecord → String → String → Table → Notified × Table
unfolding add add_others
notify pref devices rec email_id push_id t =
    let (added, t') = add rec t in
    if any (λ k. str_eq k rec.kind) pref.muted_kinds || not pref.in_app
    then (nothing, t)
    else (if added then add_others pref devices rec email_id push_id t' else (nothing, t'))

pub data NotifyError : Type 0 where
  not_found : NotifyError
  other_exception : String → NotifyError

abbrev same_channel : Channel → Channel → Bool
same_channel in_app in_app = true
same_channel email email = true
same_channel push push = true
same_channel _ _ = false

-- `n.status in ("queued", "sending", "failed")`
abbrev pub may_send : Status → Bool
may_send queued = true
may_send sending = true
may_send failed = true
may_send _ = false

abbrev pub as_sending : NotificationRecord → NotificationRecord
as_sending n = record n { status = sending; error = none }

unfoldable pub begin_send : String → Channel → Table → Result NotifyError NotificationRecord × Table
unfolding update get
begin_send id channel t = elim (get id t) [
  | none ↦ (err not_found, t)
  | some n ↦
      if not (same_channel n.channel channel)
      then (err not_found, t)
      else (if may_send n.status then (ok (as_sending n), update (as_sending n) t) else (ok n, t))
]

-- What `EmailSender.send` may raise, by the name of its class: an `OSError` or an `SMTPException`, or
-- any other exception.
pub data SenderException : Type 0 where
  smtp_exception raised_other : String → SenderException

-- `EmailSender.send`: the exception that it raises, if it does.
abbrev pub EmailSender : Type 0 → Type 0
EmailSender W = String → String → String → W → Option SenderException × W

abbrev pub is_delivered : Status → Bool
is_delivered delivered = true
is_delivered _ = false

module _ {W : Type 0} where
  -- The notification after an attempt to send, unless an exception passes through, and the world.
  unfoldable pub attempt :
      Option (EmailSender W)
      → NotificationRecord
      → Option String
      → ℕ
      → W
      → Result NotifyError NotificationRecord × W
  attempt none n address now w =
      (ok (record n { status = not_configured; error = some no_sender }), w)
  attempt (some send) n none now w = (ok (record n { status = failed; error = some no_address }), w)
  attempt (some send) n (some address) now w =
      let (raised, w') = send address n.title n.body w in
      if is_empty address
      then (ok (record n { status = failed; error = some no_address }), w)
      else elim raised [
        | none ↦ (ok (record n { status = delivered; delivered_at = some now; error = none }), w')
        | some e ↦ elim e [
          | smtp_exception name ↦
              (ok (record n { status = failed; error = some (smtp_error name) }), w')
          | raised_other name ↦ (err (other_exception name), w')
        ]
      ]

  unfoldable pub finish_email :
      Option (EmailSender W)
      → NotificationRecord
      → Option String
      → ℕ
      → Table × W
      → Result NotifyError NotificationRecord × Table × W
  unfolding attempt update
  finish_email sender n address now (t, w) =
      let (r, w') = attempt sender n address now w in
      if is_delivered n.status
      then (ok n, t, w)
      else elim r [ err e ↦ (err e, t, w') | ok n' ↦ (ok n', update n' t, w') ]

  unfoldable pub deliver_email :
      Option (EmailSender W)
      → String
      → Option String
      → ℕ
      → Table × W
      → Result NotifyError NotificationRecord × Table × W
  unfolding begin_send finish_email
  deliver_email sender id address now (t, w) =
      let (r, t') = begin_send id email t in
      elim r [ err e ↦ (err e, t', w) | ok n ↦ finish_email sender n address now (t', w) ]
