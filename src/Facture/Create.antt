-- ===== src/Facture/Create.antt =====
-- `createFactureFromDevis`: the invoice of an accepted quote.
use devispropre.Base.{ℕ, Bool, not, ◌&&◌, none, some, [], ◌∷◌, ◌++◌, is_some, holds_on}
use devispropre.Text.{Text, codes, text_eq}
use devispropre.Table.{find_first}
use devispropre.Platform.{Platform}
use devispropre.Accounts.{Error}
use devispropre.Numbers
use devispropre.Numbers.{next_numero}
use devispropre.Audit
use devispropre.Audit.{AuditContext, AuditParams, Meta}
use devispropre.World.{DevisStatus, FactureStatus, Devis, Facture, World}
use devispropre.World.Action.{
  Action, ok, gets, or_raise, pure, ◌>>=◌, ◌>>◌, raise_if, modify, transaction,
}
use devispropre.World.Immutability.{devis_status_eq}
use devispropre.Services.{
  find_devis, is_client, is_devis, assert_billing_not_past_due, assert_facturation_allowed,
  wait_for, log, set_devis,
}

-- `devis.facture`: the invoice of a quote, deleted or not; `devisId` is unique.
abbrev pub is_of_devis : {D : Type 0} → Text → Facture D → Bool
is_of_devis devis_id f = holds_on (λ d. text_eq d devis_id) f.devis_id

module _ {D : Type 0} (p : Platform D) where
  -- The draft that the quote's fields and lines are copied to.
  unfoldable pub facture_of : Text → Text → Text → Devis D → Facture D
  facture_of id user_id numero d = record {
    id = id;
    user_id = user_id;
    client_id = d.client_id;
    devis_id = some d.id;
    numero = numero;
    status = FactureStatus.brouillon;
    total_ht = d.total_ht;
    total_tva = d.total_tva;
    total_ttc = d.total_ttc;
    taux_tva = d.taux_tva;
    notes = d.notes;
    date_echeance = none;
    lignes = d.lignes;
    issuer_snapshot = none;
    locked_at = none;
    content_hash = none;
    chain_hash = none;
    previous_hash = none;
    share_token_hash = none;
    share_token_enc = none;
    share_slug = none;
    issued_at = none;
    paid_at = none;
    pdf_url = none;
    pdf_archived_at = none;
    deleted_at = none;
  }

  -- `nextFactureNumeroInTransaction`
  unfoldable pub take_facture_numero : Text → ℕ → Action D Text
  take_facture_numero user_id year w =
      let (numero, counters) = next_numero Numbers.DocType.facture user_id year w.counters in
      (ok numero, record w { counters = counters })

  abbrev pub is_accepted : Text → Text → Devis D → Bool
  is_accepted id user_id d = is_devis id user_id d && devis_status_eq d.status DevisStatus.accepte

  abbrev pub invoiced : Devis D → Devis D
  invoiced d = record d { status = DevisStatus.facture }

  -- the transaction; an invoice of the same quote breaks the unique key, and nothing is written
  unfoldable pub insert_facture : AuditContext → Text → ℕ → Text → Devis D → Action D (Facture D)
  insert_facture ctx devis_id year id d = transaction do
    numero ← take_facture_numero ctx.user_id year
    let facture = facture_of id ctx.user_id numero d
    linked ← gets (λ w. find_first (is_of_devis d.id) w.factures)
    raise_if (is_some linked) Error.error
    modify (λ w. record w { factures = w.factures ++ facture ∷ [] })
    modify (set_devis (is_accepted devis_id ctx.user_id) invoiced)
    pure facture

  abbrev convert_params : Text → Facture D → AuditParams D
  convert_params devis_id f = record {
    action = Audit.convert_to_facture;
    entity_type = codes "devis";
    entity_id = devis_id;
    devis_id = some devis_id;
    facture_id = some f.id;
    metadata = (codes "factureNumero", Audit.text f.numero) ∷ [];
    content_hash = none;
  }

  abbrev create_params : Text → Facture D → AuditParams D
  create_params devis_id f = record {
    action = Audit.create;
    entity_type = codes "facture";
    entity_id = f.id;
    devis_id = none;
    facture_id = some f.id;
    metadata =
        (codes "numero", Audit.text f.numero) ∷ (codes "fromDevis", Audit.text devis_id) ∷ [];
    content_hash = none;
  }

  -- `others` happens between the checks and the transaction.
  unfoldable pub create_facture_from_devis :
      AuditContext → Text → ℕ → ℕ → Text → (World D → World D) → Action D (Facture D)
  create_facture_from_devis ctx devis_id now year id others = do
    assert_billing_not_past_due ctx.user_id
    assert_facturation_allowed ctx.user_id
    devis ← or_raise (← gets (find_devis devis_id ctx.user_id)) Error.forbidden
    linked ← gets (λ w. find_first (is_of_devis devis.id) w.factures)
    client ←
        or_raise (← gets (λ w. find_first (is_client devis.client_id ctx.user_id) w.clients))
          Error.forbidden
    raise_if (not (devis_status_eq devis.status DevisStatus.accepte)) Error.error
    raise_if (is_some linked) Error.error
    wait_for others
    facture ← insert_facture ctx devis_id year id devis
    log p ctx (convert_params devis_id facture) now
    log p ctx (create_params devis_id facture) now
    pure facture
