-- ===== src/Services.antt =====
-- What the services of quotes and invoices share: the rows that they look for, the checks of
-- src/lib/billing-status.ts, plan-limits.ts and plan-features.ts, and the archive of
-- src/lib/object-storage.ts.
pub mod Keeps
use devispropre.Base.{
  if◌then◌else◌, ℕ, Bool, not, ◌&&◌, ◌||◌, Option, ◌∷◌, ◌++◌, leb, is_none, holds_on,
}
use devispropre.Text.{Text, codes, text_eq, is_empty}
use devispropre.Table.{find_first, count, update_many, delete_many}
use devispropre.Platform.{Platform}
use devispropre.Accounts.{Plan, free, User, is_user, has_starter, Error}
use devispropre.Audit.{AuditContext, AuditParams, log_audit}
use devispropre.World.{DevisStatus, Company, Client, Devis, Facture, World}
use devispropre.World.Action.{Action, pure, gets, or_raise, ◌>>=◌, ◌>>◌, raise_if, modify}
use devispropre.World.Immutability.{devis_status_eq}

abbrev pub free_devis_per_month : ℕ
free_devis_per_month = 3

-- `{ id, userId, deletedAt: null }`
abbrev pub is_client : Text → Text → Client → Bool
is_client id user_id c = text_eq c.id id && (text_eq c.user_id user_id && is_none c.deleted_at)

module _ {D : Type 0} where
  abbrev pub is_devis : Text → Text → Devis D → Bool
  is_devis id user_id d = text_eq d.id id && (text_eq d.user_id user_id && is_none d.deleted_at)

  abbrev pub is_facture : Text → Text → Facture D → Bool
  is_facture id user_id f = text_eq f.id id && (text_eq f.user_id user_id && is_none f.deleted_at)

  abbrev pub find_user : Text → World D → Option User
  find_user user_id w = find_first (is_user user_id) w.users

  abbrev pub find_company : Text → World D → Option Company
  find_company user_id w = find_first (λ c. text_eq c.user_id user_id) w.companies

  abbrev pub find_devis : Text → Text → World D → Option (Devis D)
  find_devis id user_id w = find_first (is_devis id user_id) w.devis

  abbrev pub find_facture : Text → Text → World D → Option (Facture D)
  find_facture id user_id w = find_first (is_facture id user_id) w.factures

  -- The client of a document, with no test of its owner: `include: { client: true }`.
  abbrev pub find_relation : Text → World D → Option Client
  find_relation id w = find_first (λ c. text_eq c.id id) w.clients

  unfoldable pub assert_billing_not_past_due : Text → Action D (Unit {0})
  assert_billing_not_past_due user_id = do
    user ← gets (find_user user_id)
    raise_if (holds_on (λ u. u.subscription_past_due) user) Error.billing_past_due

  -- The quotes that count for the free plan this month.
  abbrev pub is_recent : Text → ℕ → Devis D → Bool
  is_recent user_id month_start d =
      text_eq d.user_id user_id && (is_none d.deleted_at && leb month_start d.created_at)

  -- `assertCanCreateDevis`, and in a transaction `enforceFreeDevisQuotaInTransaction`
  unfoldable pub enforce_free_devis_quota : Text → Plan → ℕ → Action D (Unit {0})
  enforce_free_devis_quota user_id free month_start = do
    n ← gets (λ w. count (is_recent user_id month_start) w.devis)
    raise_if (leb free_devis_per_month n) Error.plan_limit
  enforce_free_devis_quota user_id _ month_start = pure tt

  -- The quotes that were sent this month.
  abbrev pub is_sent_since : Text → ℕ → Devis D → Bool
  is_sent_since user_id month_start d =
      text_eq d.user_id user_id
      && (is_none d.deleted_at
          && (holds_on (leb month_start) d.sent_at
              && not (devis_status_eq d.status DevisStatus.brouillon)))

  unfoldable pub assert_free_send_quota : Text → Plan → ℕ → Action D (Unit {0})
  assert_free_send_quota user_id free month_start = do
    n ← gets (λ w. count (is_sent_since user_id month_start) w.devis)
    raise_if (leb free_devis_per_month n) Error.plan_limit
  assert_free_send_quota user_id _ month_start = pure tt

  -- `assertFacturationAllowed` of src/lib/services/facture.ts
  unfoldable pub assert_facturation_allowed : Text → Action D (Unit {0})
  assert_facturation_allowed user_id = do
    owner ← or_raise (← gets (find_user user_id)) Error.error
    raise_if (not (has_starter owner.plan)) Error.plan_feature

  -- `archivePdf`: an empty file is refused; `stored` says whether the file could be written.
  unfoldable pub archive_pdf : Text → Text → Bool → Action D (Unit {0})
  archive_pdf key pdf stored = do
    raise_if (is_empty pdf || not stored) Error.object_storage
    modify (λ w. record w { archive = (key, pdf) ∷ delete_many (λ f. text_eq f.0 key) w.archive })

  -- `deleteArchivedPdf`: a failure of the object store is swallowed, and the file stays.
  unfoldable pub delete_archived_pdf : Platform D → Text → Action D (Unit {0})
  delete_archived_pdf p key =
      if p.deletes key
      then modify (λ w. record w { archive = delete_many (λ f. text_eq f.0 key) w.archive })
      else pure tt

  abbrev pub set_devis : (Devis D → Bool) → (Devis D → Devis D) → World D → World D
  set_devis test change w = record w { devis = update_many test change w.devis }

  abbrev pub set_factures : (Facture D → Bool) → (Facture D → Facture D) → World D → World D
  set_factures test change w = record w { factures = update_many test change w.factures }

  -- What other requests do to the database while this one waits.
  abbrev pub wait_for : (World D → World D) → Action D (Unit {0})
  wait_for others = modify others

  module _ (p : Platform D) where
    unfoldable pub log : AuditContext → AuditParams D → ℕ → Action D (Unit {0})
    log ctx params now = modify (λ w. record w { audit = log_audit p ctx params now w.audit })

-- `devis/${userId}/${devisId}.pdf`
abbrev pub devis_pdf_key : Text → Text → Text
devis_pdf_key user_id id = codes "devis/" ++ (user_id ++ (b'/' ∷ (id ++ codes ".pdf")))

-- `devis/${userId}/${devisId}-signe.pdf`
abbrev pub signed_devis_pdf_key : Text → Text → Text
signed_devis_pdf_key user_id id = codes "devis/" ++ (user_id ++ (b'/' ∷ (id ++ codes "-signe.pdf")))

abbrev pub facture_pdf_key : Text → Text → Text
facture_pdf_key user_id id = codes "factures/" ++ (user_id ++ (b'/' ∷ (id ++ codes ".pdf")))

abbrev pub attestation_pdf_key : Text → Text → Text
attestation_pdf_key user_id id = codes "attestations/" ++ (user_id ++ (b'/' ∷ (id ++ codes ".pdf")))
