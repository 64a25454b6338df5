-- ===== src/Reminders/Once.antt =====
-- A quote of which a reminder was sent is not reminded again.
use devispropre.Base.{
  ℕ, ◌==◌, ◌≡◌, refl, ◌∙◌, ap, Bool, true, Option, none, some, List, arith, if◌then◌else◌,
  Bool-cases, inl, inr,
}
use devispropre.Text.{Text, text_eq}
use devispropre.Table.{count, update_many, update_many_none}
use devispropre.Platform.{Platform}
use devispropre.Audit.{AuditContext}
use devispropre.World.{Devis, World}
use devispropre.World.Action.{ok, ◌>>=◌}
use devispropre.World.Action.Inversion.{of_ok}
use devispropre.Services.{log}
use devispropre.SignIn.Once.{count-update_many_zero}
use devispropre.Reminders.{
  Reminder, ReminderInput, sent_any, is_claimable, set_reminder, send_reminder, remind, Due,
  reminder_of,
}

module _ {D : Type 0} (p : Platform D) where
  refused :
      (system : AuditContext) (input : ReminderInput D) (due : Due D) (w : World D)
      → count (is_claimable p due.devis.id) w.devis ≡ 0
      → remind p system input due w ≡ (ok none, w)
  unfolding remind ◌>>=◌
  refused system input due w h =
      rw
        (
          h,
          update_many_none (is_claimable p due.devis.id) (set_reminder p (some input.now)) w.devis
              h,
        )
        refl

  marked :
      (id : Text) (at : ℕ) (table : List (Devis D))
      → count
          (is_claimable p id)
          (update_many (λ x. text_eq x.id id) (set_reminder p (some at)) table)
        ≡ 0
  marked id at table =
      count-update_many_zero (is_claimable p id) (λ x. text_eq x.id id) (set_reminder p (some at))
        table (λ x e. ground arith) (λ x e. ground (arith, e))

  marked_if :
      (id : Text) (b : Bool) (at : ℕ) (table : List (Devis D))
      → b ≡ true
      → count
          (is_claimable p id)
          (update_many (λ x. text_eq x.id id) (set_reminder p (if b then some at else none)) table)
        ≡ 0
  marked_if id b at table h = rw h (marked id at table)

  no_reminder : (r : Reminder) → ◌≡◌ {A = Option Reminder} none (some r) → ⊥
  no_reminder r h = cc

  some_is : (a b : Reminder) → some a ≡ some b → a ≡ b
  some_is a b h = cc

  sent_marked :
      (system : AuditContext) (input : ReminderInput D) (due : Due D) (n : ℕ) (w : World D)
      (r : Reminder)
      → (send_reminder p system input due n w).0 ≡ ok (some r)
      → sent_any r ≡ true
      → count (is_claimable p due.devis.id) (send_reminder p system input due n w).1.devis ≡ 0
  unfolding log ◌>>=◌
  sent_marked system input due n w r done sent = elim (Bool-cases (n == 0)) [
    | inl zero_rows ↦ absurd (no_reminder r (of_ok none (some r) (rw zero_rows at done)))
    | inr claimed ↦
        let same = some_is (reminder_of p input due) r (of_ok _ (some r) (rw claimed at done)) in
        rw claimed (
          marked_if due.devis.id (sent_any (reminder_of p input due)) input.now
            (input.others w).devis (ap sent_any same ∙ sent))
  ]

  reminded :
      (system : AuditContext) (input : ReminderInput D) (due : Due D) (w : World D) (r : Reminder)
      → (remind p system input due w).0 ≡ ok (some r)
      → sent_any r ≡ true
      → count (is_claimable p due.devis.id) (remind p system input due w).1.devis ≡ 0
  unfolding remind ◌>>=◌
  reminded system input due w r done sent = sent_marked system input due _ _ r done sent

  -- Once a run of the reminders has sent a mail for a quote, the next attempt at that quote finds
  -- nothing to claim, sends nothing and changes nothing, whatever other requests did while the mail
  -- was sent.
  pub remind-once :
      (system : AuditContext) (input later : ReminderInput D) (due : Due D) (w : World D)
      (r : Reminder)
      → (remind p system input due w).0 ≡ ok (some r)
      → sent_any r ≡ true
      → let w' = (remind p system input due w).1 in remind p system later due w' ≡ (ok none, w')
  remind-once system input later due w r done sent =
      refused system later due _ (reminded system input due w r done sent)
