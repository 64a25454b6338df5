-- ===== src/Facture.antt =====
-- src/lib/services/facture.ts: the payment, the check, the deletion and the cancellation of an
-- invoice.
pub mod Create
pub mod Issue
pub mod Locked
pub mod Immutable
pub mod Interleaved
pub mod Chain
use devispropre.Base.{
  ℕ, Bool, false, not, ◌&&◌, ◌||◌, if◌then◌else◌, is_some, holds_on, Option, none, some, List, [],
  ◌∷◌, ◌==◌,
}
use devispropre.Text.{Text, codes, text_eq, is_empty, truthy}
use devispropre.Table.{count, find_first}
use devispropre.Platform.{Platform}
use devispropre.Accounts.{Error}
use devispropre.Audit
use devispropre.Audit.{AuditContext, AuditParams, Meta, option_text_eq}
use devispropre.World.{FactureStatus, Facture, World}
use devispropre.Document.{build_facture_payload, compute_chain_hash, verify_document_integrity}
use devispropre.World.Action.{Action, gets, or_raise, pure, ◌>>=◌, ◌>>◌, raise_if, modify}
use devispropre.World.Immutability.{facture_status_eq, is_facture_locked}
use devispropre.Services.{
  find_company, find_relation, find_facture, is_facture, assert_facturation_allowed, wait_for, log,
  set_factures,
}

module _ {D : Type 0} (p : Platform D) where
  abbrev params : Audit.AuditAction → Text → Option Text → List (Text × Meta D) → AuditParams D
  params action id content_hash metadata = record {
    action = action;
    entity_type = codes "facture";
    entity_id = id;
    devis_id = none;
    facture_id = some id;
    metadata = metadata;
    content_hash = content_hash;
  }

  abbrev pub is_issued : Text → Text → Facture D → Bool
  is_issued id user_id f = is_facture id user_id f && facture_status_eq f.status FactureStatus.emise

  -- `markFacturePaid`; `others` happens between the check and the update, which checks again.
  unfoldable pub mark_facture_paid :
      AuditContext → Text → ℕ → (World D → World D) → Action D (Unit {0})
  mark_facture_paid ctx id now others = do
    assert_facturation_allowed ctx.user_id
    facture ← or_raise (← gets (find_facture id ctx.user_id)) Error.error
    raise_if (not (facture_status_eq facture.status FactureStatus.emise)) Error.error
    wait_for others
    n ← gets (λ w. count (is_issued id ctx.user_id) w.factures)
    modify (
        set_factures (is_issued id ctx.user_id)
          (λ f. record f { status = FactureStatus.payee; paid_at = some now }))
    raise_if (n == 0) Error.error
    log p ctx (params Audit.pay id facture.content_hash []) now

  -- The update is `where: { id }` alone; `others` happens before it.
  unfoldable pub soft_delete_facture :
      AuditContext → Text → ℕ → (World D → World D) → Action D (Unit {0})
  soft_delete_facture ctx id now others = do
    facture ← or_raise (← gets (find_facture id ctx.user_id)) Error.error
    raise_if (is_facture_locked facture.status facture.locked_at) Error.immutability
    wait_for others
    modify (set_factures (λ f. text_eq f.id id) (λ f. record f { deleted_at = some now }))
    log p ctx (params Audit.soft_delete id none []) now

  -- The update is `where: { id }` alone; `others` happens before it.
  unfoldable pub cancel_facture :
      AuditContext → Text → ℕ → (World D → World D) → Action D (Unit {0})
  cancel_facture ctx id now others = do
    facture ← or_raise (← gets (find_facture id ctx.user_id)) Error.error
    raise_if (not (facture_status_eq facture.status FactureStatus.brouillon)) Error.immutability
    wait_for others
    modify (set_factures (λ f. text_eq f.id id) (λ f. record f { status = FactureStatus.annulee }))
    log p ctx (params Audit.cancel id facture.content_hash []) now

  -- A hash that is set and not empty.
  -- an issued invoice of the user with that hash
  abbrev pub is_predecessor : Text → Text → Facture D → Bool
  is_predecessor user_id hash f =
      text_eq f.user_id user_id
      && (holds_on (λ h. text_eq h hash) f.content_hash
          && (facture_status_eq f.status FactureStatus.emise
              || facture_status_eq f.status FactureStatus.payee))

  -- `chainValid`
  unfoldable pub chain_valid : Text → Facture D → Text → Option Text → World D → Bool
  chain_valid user_id f content_hash none w =
      option_text_eq f.chain_hash (some (compute_chain_hash p content_hash none))
  chain_valid user_id f content_hash (some previous) w =
      option_text_eq f.chain_hash (some (compute_chain_hash p content_hash (some previous)))
      && is_some (find_first (is_predecessor user_id previous) w.factures)

  unfoldable pub verify_locked_facture :
      AuditContext → Text → Facture D → Option Text → ℕ → Action D Bool
  verify_locked_facture ctx id f none now = pure false
  verify_locked_facture ctx id f (some content_hash) now = do
    client ← or_raise (← gets (find_relation f.client_id)) Error.error
    company ← gets (find_company ctx.user_id)
    let valid =
        verify_document_integrity p (some content_hash) (build_facture_payload p f client company)
    linked ← gets (chain_valid ctx.user_id f content_hash (truthy f.previous_hash))
    log p ctx
        (params Audit.verify_hash id (some content_hash)
          ((codes "valid", Audit.boolean valid) ∷ (codes "chainValid", Audit.boolean linked) ∷ []))
        now
    pure (valid && linked)

  abbrev verify_found : AuditContext → Text → Option (Facture D) → ℕ → Action D Bool
  verify_found ctx id none now = pure false
  verify_found ctx id (some f) now = verify_locked_facture ctx id f (truthy f.content_hash) now

  -- `verifyFactureIntegrity`; a deleted invoice can be checked too
  unfoldable pub verify_facture_integrity : AuditContext → Text → ℕ → Action D Bool
  verify_facture_integrity ctx id now = do
    row ← gets (λ w. find_first (λ f. text_eq f.id id && text_eq f.user_id ctx.user_id) w.factures)
    verify_found ctx id row now
