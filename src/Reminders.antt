-- ===== src/Reminders.antt =====
-- src/lib/services/reminders.ts: the reminder of a quote, three days after it was sent.
pub mod Once
use devispropre.Base.{
  ℕ, Bool, true, false, not, ◌&&◌, ◌||◌, Option, none, some, List, [], ◌∷◌, ◌++◌, keep, leb, ◌==◌,
  if◌then◌else◌, is_none, is_some, holds_on,
}
use devispropre.Text.{Text, codes, text_eq, truthy}
use devispropre.Table.{find_first, count, update_many}
use devispropre.Platform.{Platform}
use devispropre.Accounts.{User, is_user, has_starter, Error}
use devispropre.Audit
use devispropre.Audit.{AuditContext, AuditParams, Meta}
use devispropre.World.{DevisStatus, Devis, Client, World}
use devispropre.World.Action.{Action, gets, or_raise, pure, ◌>>=◌, ◌>>◌, modify}
use devispropre.World.Immutability.{devis_status_eq}
use devispropre.Services.{find_user, find_relation, set_devis, wait_for, log}

-- `{ sent, reason }` of src/lib/email.ts
pub record Sent : Type 0 where
  pub sent : Bool
  pub reason : Option Text

-- a row of the results
pub record Reminder : Type 0 where
  pub devis_id : Text
  pub client : Sent
  pub artisan : Sent

-- What a run takes from outside: the clock, the date three days before, the address that is shown
-- of a quote, the results of the two mails, and what happens while they are sent.
pub record ReminderInput (D : Type 0) : Type 0 where
  pub now : ℕ
  pub cutoff : ℕ
  pub share_url : Devis D → Text
  pub mail_client : Devis D → Client → Text → Sent
  pub mail_artisan : Devis D → User → Sent
  pub others : World D → World D

-- A quote as the query returns it, with its client and its user.
pub record Due (D : Type 0) : Type 0 where
  pub devis : Devis D
  pub client : Client
  pub user : User

abbrev pub sent_any : Reminder → Bool
sent_any r = r.artisan.sent || r.client.sent

module _ {D : Type 0} (p : Platform D) where
  -- a sent quote with no reminder, of a user with a paid plan
  abbrev is_due : ℕ → World D → Devis D → Bool
  is_due cutoff w d =
      devis_status_eq d.status DevisStatus.envoye
      && (is_none d.deleted_at
          && (holds_on (λ t. leb t cutoff) d.sent_at
              && (is_none d.reminder_sent_at
                  && holds_on (λ u. has_starter u.plan) (find_user d.user_id w))))

  -- the condition of the claim
  abbrev pub is_claimable : Text → Devis D → Bool
  is_claimable id d =
      text_eq d.id id
      && (devis_status_eq d.status DevisStatus.envoye
          && (is_none d.reminder_sent_at && is_none d.deleted_at))

  abbrev pub set_reminder : Option ℕ → Devis D → Devis D
  set_reminder at d = record d { reminder_sent_at = at }

  abbrev mail_to : ReminderInput D → Devis D → Client → Option Text → Sent
  mail_to input d c none = record { sent = false; reason = some (codes "Client sans email") }
  mail_to input d c (some email) = input.mail_client d c email

  abbrev reason_text : Option Text → List (Text × Meta D) → Text → List (Text × Meta D)
  reason_text none rest key = rest
  reason_text (some s) rest key = (key, Audit.text s) ∷ rest

  -- the metadata; a reason that is not there is no field of it
  abbrev metadata : ReminderInput D → Devis D → Client → Reminder → List (Text × Meta D)
  metadata input d c r =
      (codes "type", Audit.text (codes "reminder_j3_auto"))
      ∷ (codes "client", Audit.text c.nom)
      ∷ (codes "shareUrl", Audit.text (input.share_url d))
      ∷ (codes "clientEmailSent", Audit.boolean r.client.sent)
      ∷ reason_text r.client.reason
          ((codes "artisanEmailSent", Audit.boolean r.artisan.sent)
            ∷ reason_text r.artisan.reason [] (codes "artisanEmailReason"))
          (codes "clientEmailReason")

  abbrev cron_context : AuditContext → Text → AuditContext
  cron_context system user_id = record {
    user_id = user_id;
    actor_user_id = none;
    ip_address = system.ip_address;
    user_agent = some (codes "cron-reminders");
  }

  abbrev scheduled : ReminderInput D → Devis D → Client → Reminder → AuditParams D
  scheduled input d c r = record {
    action = Audit.reminder_scheduled;
    entity_type = codes "devis";
    entity_id = d.id;
    devis_id = some d.id;
    facture_id = none;
    metadata = metadata input d c r;
    content_hash = none;
  }

  -- the mails, once the quote is claimed, and what is written of them
  abbrev pub reminder_of : ReminderInput D → Due D → Reminder
  reminder_of input due = record {
    devis_id = due.devis.id;
    client = mail_to input due.devis due.client (truthy due.client.email);
    artisan = input.mail_artisan due.devis due.user;
  }

  abbrev pub send_reminder : AuditContext → ReminderInput D → Due D → ℕ → Action D (Option Reminder)
  send_reminder system input due n = if n == 0 then pure none else (do
    wait_for input.others
    let r = reminder_of input due
    modify (
        set_devis (λ x. text_eq x.id due.devis.id)
          (set_reminder (if sent_any r then some input.now else none)))
    log p (cron_context system due.devis.user_id) (scheduled input due.devis due.client r) input.now
    pure (some r))

  -- one turn of the loop; `none` where another run has claimed the quote
  unfoldable pub remind : AuditContext → ReminderInput D → Due D → Action D (Option Reminder)
  remind system input due = do
    n ← gets (λ w. count (is_claimable due.devis.id) w.devis)
    modify (set_devis (is_claimable due.devis.id) (set_reminder (some input.now)))
    send_reminder system input due n

  abbrev cons_some : Option Reminder → List Reminder → List Reminder
  cons_some none rs = rs
  cons_some (some r) rs = r ∷ rs

  unfoldable pub remind_each :
      AuditContext → ReminderInput D → List (Due D) → Action D (List Reminder)
  remind_each system input [] = pure []
  remind_each system input (d ∷ ds) = do
    r ← remind system input d
    rs ← remind_each system input ds
    pure (cons_some r rs)

  -- the relations, which are there by the foreign keys
  abbrev include_relations : Devis D → Option Client → Option User → List (Due D) → List (Due D)
  include_relations d (some client) (some user) rest =
      record { devis = d; client = client; user = user } ∷ rest
  include_relations d _ _ rest = rest

  unfoldable pub due_rows : ℕ → World D → List (Devis D) → List (Due D)
  due_rows cutoff w [] = []
  due_rows cutoff w (d ∷ ds) =
      let rest = due_rows cutoff w ds in
      if is_due cutoff w d
      then include_relations d (find_relation d.client_id w) (find_user d.user_id w) rest
      else rest

  unfoldable pub process_reminders : AuditContext → ReminderInput D → Action D (List Reminder)
  process_reminders system input = do
    due ← gets (λ w. due_rows input.cutoff w w.devis)
    remind_each system input due
