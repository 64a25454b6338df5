-- ===== src/Devis/Status.antt =====
-- `transitionDevisStatus`, `verifyDevisIntegrity` and `softDeleteDevis`.
use devispropre.Base.{
  ℕ, Bool, false, ◌&&◌, ◌||◌, Option, none, some, List, [], ◌∷◌, ◌==◌, is_some, is_none, holds_on,
}
use devispropre.Text.{Text, codes, text_eq}
use devispropre.Table.{count, find_first}
use devispropre.Platform.{Platform}
use devispropre.Accounts.{Error}
use devispropre.Audit
use devispropre.Audit.{AuditContext, AuditParams, Meta}
use devispropre.Document.{build_devis_payload, verify_document_integrity}
use devispropre.World.{DevisStatus, Devis, Facture, World}
use devispropre.World.Action.{Action, pure, gets, or_raise, ◌>>=◌, ◌>>◌, raise_if, modify}
use devispropre.World.Immutability.{devis_status_eq}
use devispropre.Services.{
  find_company, find_devis, find_relation, is_devis, wait_for, log, set_devis,
}
use devispropre.Devis.Sign.{Choice, accepte, refuse}

module _ {D : Type 0} (p : Platform D) where
  abbrev pub is_sent : Text → Text → Devis D → Bool
  is_sent id user_id d = is_devis id user_id d && devis_status_eq d.status DevisStatus.envoye

  abbrev pub decide : Choice → ℕ → Devis D → Devis D
  decide accepte now d = record d { status = DevisStatus.accepte; accepted_at = some now }
  decide refuse now d = record d { status = DevisStatus.refuse; refused_at = some now }

  abbrev action_of : Choice → Audit.AuditAction
  action_of accepte = Audit.accept
  action_of refuse = Audit.refuse

  abbrev params : Audit.AuditAction → Text → Option Text → List (Text × Meta D) → AuditParams D
  params action id content_hash metadata = record {
    action = action;
    entity_type = codes "devis";
    entity_id = id;
    devis_id = some id;
    facture_id = none;
    metadata = metadata;
    content_hash = content_hash;
  }

  unfoldable pub transition_devis_status :
      AuditContext → Text → Choice → ℕ → (World D → World D) → Action D (Unit {0})
  transition_devis_status ctx id choice now others = do
    devis ← or_raise (← gets (find_devis id ctx.user_id)) Error.error
    wait_for others
    n ← gets (λ w. count (is_sent id ctx.user_id) w.devis)
    modify (set_devis (is_sent id ctx.user_id) (decide choice now))
    raise_if (n == 0) Error.error
    log p ctx (params (action_of choice) id devis.content_hash []) now

  -- `{ id, userId }`: a deleted quote can be checked too
  abbrev pub is_own_devis : Text → Text → Devis D → Bool
  is_own_devis id user_id d = text_eq d.id id && text_eq d.user_id user_id

  -- the check of a locked row
  unfoldable pub verify_locked_devis : AuditContext → Text → Devis D → ℕ → Action D Bool
  verify_locked_devis ctx id devis now = do
    client ← or_raise (← gets (find_relation devis.client_id)) Error.error
    company ← gets (find_company ctx.user_id)
    let valid =
        verify_document_integrity p devis.content_hash (build_devis_payload p devis client company)
    log p ctx
        (params Audit.verify_hash id devis.content_hash ((codes "valid", Audit.boolean valid) ∷ []))
        now
    pure valid

  -- Whether there is a row, and it has a hash that is not empty.
  abbrev locked_row : Option (Devis D) → Option (Devis D)
  locked_row none = none
  locked_row (some d) = elim d.content_hash [
    | none ↦ none
    | some h ↦ elim h [ [] ↦ none | ◌∷◌ _ _ ↦ some d ]
  ]

  abbrev verify_or_false : AuditContext → Text → Option (Devis D) → ℕ → Action D Bool
  verify_or_false ctx id none now = pure false
  verify_or_false ctx id (some d) now = verify_locked_devis ctx id d now

  unfoldable pub verify_devis_integrity : AuditContext → Text → ℕ → Action D Bool
  verify_devis_integrity ctx id now = do
    row ← gets (λ w. locked_row (find_first (is_own_devis id ctx.user_id) w.devis))
    verify_or_false ctx id row now

  abbrev pub is_linked_facture : Text → Text → Facture D → Bool
  is_linked_facture id user_id f =
      holds_on (λ d. text_eq d id) f.devis_id && (text_eq f.user_id user_id && is_none f.deleted_at)

  -- The update is `where: { id }` alone; `others` happens before it.
  unfoldable pub soft_delete_devis :
      AuditContext → Text → ℕ → (World D → World D) → Action D (Unit {0})
  soft_delete_devis ctx id now others = do
    devis ← or_raise (← gets (find_devis id ctx.user_id)) Error.error
    linked ← gets (λ w. find_first (is_linked_facture id ctx.user_id) w.factures)
    raise_if (devis_status_eq devis.status DevisStatus.facture || is_some linked) Error.immutability
    wait_for others
    modify (set_devis (λ d. text_eq d.id id) (λ d. record d { deleted_at = some now }))
    log p ctx (params Audit.soft_delete id devis.content_hash []) now
