-- ===== src/Notifications/Tests.antt =====
-- One user, one complaint, and a sender that counts what it sends.
use civiclens.Notifications.{
  NotificationRecord, NotificationPreference, in_app_record, notify, nothing, EmailSender, attempt,
  deliver_email, begin_send, get, update, queued, email, finish_email, delivered,
}
use civiclens.Notifications.Dedupe.{HasKey, notify_again}
use civiclens.Notifications.Email.{deliver_once}
use civiclens.Prelude.{ℕ, ◌+◌, String, ◌≡◌, refl, true, none, some, [], ◌∷◌, ok}

abbrev wants_email : NotificationPreference
wants_email = record { in_app = true; email = true; muted_kinds = "system" ∷ [] }

abbrev note : String → String → NotificationRecord
note id text =
    in_app_record id "asha" "complaint.created" "Received" text "{}" (some "created:c1") 5

note-HasKey : (id text : String) → HasKey (note id text) "asha" "created:c1"
note-HasKey id text = record { user_eq = refl; key_eq = refl }

notify_again_example :
    notify wants_email 2
      (note "n3" "again")
      "n4"
      "p4"
      (notify wants_email 1 (note "n1" "first") "n2" "p2" []).1
    ≡ (nothing, (notify wants_email 1 (note "n1" "first") "n2" "p2" []).1)
notify_again_example =
    notify_again wants_email 1 2 (note "n1" "first") (note "n3" "again") "asha" "created:c1" "n2"
      "n4" "p2" "p4" [] (note-HasKey "n1" "first") (note-HasKey "n3" "again") refl

abbrev mail : NotificationRecord
mail = record (note "n2" "first") { channel = email; status = queued; delivered_at = none }

-- The world is the number of e-mails that were sent.
abbrev counting : EmailSender ℕ
counting address title body sent = (none, sent + 1)

abbrev sent : NotificationRecord
sent = record mail { status = delivered; delivered_at = some 9 }

first_delivery : (deliver_email (some counting) "n2" (some "a@x.in") 9 (mail ∷ [], 0)).0 ≡ ok sent
unfolding deliver_email begin_send get update finish_email attempt
first_delivery = refl

get-mail : get "n2" (mail ∷ []) ≡ some mail
unfolding get
get-mail = refl

deliver_once_example :
    deliver_email (some counting) "n2" (some "b@x.in") 20 (
      (deliver_email (some counting) "n2" (some "a@x.in") 9 (mail ∷ [], 0)).1,
      (deliver_email (some counting) "n2" (some "a@x.in") 9 (mail ∷ [], 0)).2,
    )
    ≡ (
      ok sent,
      (deliver_email (some counting) "n2" (some "a@x.in") 9 (mail ∷ [], 0)).1,
      (deliver_email (some counting) "n2" (some "a@x.in") 9 (mail ∷ [], 0)).2,
    )
deliver_once_example =
    deliver_once (some counting) (some counting) "n2" (some "a@x.in") (some "b@x.in") 9 20
      (mail ∷ []) 0 mail sent get-mail refl first_delivery refl
