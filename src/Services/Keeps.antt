-- ===== src/Services/Keeps.antt =====
-- The shared services keep every property that reads neither the journal nor the archive.
use devispropre.Base.{ℕ, Bool, List}
use devispropre.Text.{Text}
use devispropre.Platform.{Platform}
use devispropre.Accounts.{Plan, free}
use devispropre.Audit.{AuditContext, AuditParams, AuditLog}
use devispropre.World.{World}
use devispropre.World.Action.Keeps.{
  Keeps, Keeps-modify, Keeps-if, Keeps-pure, Keeps-bind, Keeps-raise_if, keeps_rules,
}
use devispropre.Services.{
  assert_billing_not_past_due, assert_free_send_quota, enforce_free_devis_quota,
  assert_facturation_allowed, archive_pdf, delete_archived_pdf, log,
}

pub record Ignores {D : Type 0} (P : World D → Type 0) : Type 0 where
  pub audit_free : (w : World D) (rows : List AuditLog) → P w → P (record w { audit = rows })
  pub archive_free :
      (w : World D) (files : List (Text × Text)) → P w → P (record w { archive = files })

module _ {D : Type 0} {P : World D → Type 0} (p : Platform D) (h : Ignores P) where
  pub Keeps-log :
      (ctx : AuditContext) (params : AuditParams D) (now : ℕ) → Keeps P (log p ctx params now)
  unfolding log
  Keeps-log ctx params now = Keeps-modify _ (λ w. h.audit_free w _)

  pub Keeps-archive_pdf : (key pdf : Text) (stored : Bool) → Keeps P (archive_pdf key pdf stored)
  unfolding archive_pdf
  Keeps-archive_pdf key pdf stored =
      Keeps-bind _ _ (Keeps-raise_if _ _) (λ _. Keeps-modify _ (λ w. h.archive_free w _))

  pub Keeps-delete_archived_pdf : (key : Text) → Keeps P (delete_archived_pdf p key)
  unfolding delete_archived_pdf
  Keeps-delete_archived_pdf key =
      Keeps-if (p.deletes key) _ _ (Keeps-modify _ (λ w. h.archive_free w _)) (Keeps-pure tt)

  pub Keeps-assert_billing : (u : Text) → Keeps P (assert_billing_not_past_due u)
  unfolding assert_billing_not_past_due
  Keeps-assert_billing u = search keeps_rules

  pub Keeps-send_quota :
      (u : Text) (plan : Plan) (m : ℕ) → Keeps P (assert_free_send_quota u plan m)
  unfolding assert_free_send_quota
  Keeps-send_quota u free m = search keeps_rules
  Keeps-send_quota u _ m = Keeps-pure tt

  pub Keeps-quota : (u : Text) (plan : Plan) (m : ℕ) → Keeps P (enforce_free_devis_quota u plan m)
  unfolding enforce_free_devis_quota
  Keeps-quota u free m = search keeps_rules
  Keeps-quota u _ m = Keeps-pure tt

  pub Keeps-facturation : (u : Text) → Keeps P (assert_facturation_allowed u)
  unfolding assert_facturation_allowed
  Keeps-facturation u = search keeps_rules
