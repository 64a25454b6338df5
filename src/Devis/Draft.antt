-- ===== src/Devis/Draft.antt =====
-- `createDevis`, `claimGuestDraftAsDevis` and `updateDevis`.
use devispropre.Base.{
  ℕ, Bool, true, false, Option, none, some, List, [], ◌∷◌, ◌++◌, if◌then◌else◌, or_else,
}
use devispropre.Text.{Text, codes, text_eq, trim, is_empty}
use devispropre.Table.{update_many}
use devispropre.Platform.{Platform}
use devispropre.Accounts.{Plan, Error}
use devispropre.Tva.{LigneInput, Totals, ensure_franchise_notes}
use devispropre.Numbers
use devispropre.Numbers.{Ligne, Counter, next_numero, compute_totals, build_lignes}
use devispropre.Audit
use devispropre.Audit.{AuditContext, AuditParams, Meta}
use devispropre.World.{DevisStatus, Company, Client, Devis, World}
use devispropre.World.Action.{Action, ok, pure, gets, or_raise, transaction, ◌>>=◌, ◌>>◌, modify}
use devispropre.World.Immutability.{assert_devis_editable}
use devispropre.Services.{
  find_user, find_company, find_devis, is_client, assert_billing_not_past_due,
  enforce_free_devis_quota, wait_for, log, set_devis,
}
use devispropre.Table.{find_first}

-- What a call reads from the clock.
pub record Clock : Type 0 where
  pub now : ℕ
  pub year : ℕ
  -- `startOfCurrentMonth()`
  pub month_start : ℕ
  -- `defaultValidUntilDate()`
  pub default_valid_until : ℕ

pub record DevisInput (D : Type 0) : Type 0 where
  pub client_id : Text
  pub lignes : List (LigneInput D)
  pub notes : Option Text
  pub valid_until : Option ℕ

-- `undefined` leaves a field alone; `validUntil` may also be set to null.
pub record DevisPatch (D : Type 0) : Type 0 where
  pub lignes : Option (List (LigneInput D))
  pub notes : Option Text
  pub valid_until : Option (Option ℕ)

pub record GuestDraft (D : Type 0) : Type 0 where
  pub client_nom : Text
  pub client_telephone : Option Text
  pub client_email : Option Text
  pub client_adresse : Option Text
  pub lignes : List (LigneInput D)
  pub tva_applicable : Option Bool
  pub valid_until : Option ℕ
  pub notes : Option Text

-- `company?.tvaApplicable ?? true`
abbrev pub is_tva_applicable : Option Company → Bool
is_tva_applicable none = true
is_tva_applicable (some c) = c.tva_applicable

-- `s?.trim() || null`
abbrev pub trimmed_or_null : Option Text → Option Text
trimmed_or_null none = none
trimmed_or_null (some s) = if is_empty (trim s) then none else some (trim s)

module _ {D : Type 0} (p : Platform D) where
  open p.number use {nat}

  abbrev audit_params : Audit.AuditAction → Text → List (Text × Meta D) → AuditParams D
  audit_params action id metadata = record {
    action = action;
    entity_type = codes "devis";
    entity_id = id;
    devis_id = some id;
    facture_id = none;
    metadata = metadata;
    content_hash = none;
  }

  -- A new row of "Devis", with the defaults of the schema.
  unfoldable pub new_devis :
      Text → Text → Text → Text → List (Ligne D) → Totals D → Option Text → ℕ → ℕ → Devis D
  new_devis id user_id client_id numero lignes totals notes valid_until now = record {
    id = id;
    user_id = user_id;
    client_id = client_id;
    numero = numero;
    status = DevisStatus.brouillon;
    total_ht = totals.total_ht;
    total_tva = totals.total_tva;
    total_ttc = totals.total_ttc;
    taux_tva = nat 20;
    notes = notes;
    valid_until = some valid_until;
    lignes = lignes;
    issuer_snapshot = none;
    locked_at = none;
    content_hash = none;
    chain_hash = none;
    share_token_hash = none;
    share_token_enc = none;
    share_slug = none;
    sent_at = none;
    accepted_at = none;
    refused_at = none;
    client_acceptance_text = none;
    client_signature_data = none;
    signer_name = none;
    signer_email = none;
    signature_evidence_hash = none;
    signed_pdf_hash = none;
    signed_pdf_archived_at = none;
    pdf_url = none;
    pdf_archived_at = none;
    reminder_sent_at = none;
    created_at = now;
    deleted_at = none;
  }

  -- `nextDevisNumeroInTransaction`
  unfoldable pub take_numero : Text → ℕ → Action D Text
  take_numero user_id year w =
      let (numero, counters) = next_numero Numbers.DocType.devis user_id year w.counters in
      (ok numero, record w { counters = counters })

  -- the body of the transaction of `createDevis`
  unfoldable pub insert_devis :
      AuditContext → DevisInput D → Bool → Plan → Bool → Clock → Text → Action D (Devis D)
  insert_devis ctx input skip plan tva_applicable clock id = do
    (if skip then pure tt else enforce_free_devis_quota ctx.user_id plan clock.month_start)
    client ←
        or_raise (← gets (λ w. find_first (is_client input.client_id ctx.user_id) w.clients))
          Error.forbidden
    numero ← take_numero ctx.user_id clock.year
    let lignes = build_lignes p.number input.lignes tva_applicable
    let devis =
        new_devis id ctx.user_id input.client_id numero lignes
          (compute_totals p.number lignes tva_applicable)
          (ensure_franchise_notes input.notes tva_applicable)
          (or_else input.valid_until clock.default_valid_until) clock.now
    modify (λ w. record w { devis = w.devis ++ devis ∷ [] })
    pure devis

  -- `createDevis`; `others` is what happens between the first look at the quota and the
  -- transaction.
  unfoldable pub create_devis :
      AuditContext → DevisInput D → Bool → Clock → Text → (World D → World D) → Action D (Devis D)
  create_devis ctx input skip clock id others = do
    user ← or_raise (← gets (find_user ctx.user_id)) Error.error
    assert_billing_not_past_due ctx.user_id
    (if skip then pure tt else enforce_free_devis_quota ctx.user_id user.plan clock.month_start)
    company ← gets (find_company ctx.user_id)
    wait_for others
    devis ← transaction (insert_devis ctx input skip user.plan (is_tva_applicable company) clock id)
    log p ctx (audit_params Audit.create devis.id ((codes "numero", Audit.text devis.numero) ∷ []))
        clock.now
    pure devis

  -- `company.updateMany({ where: { userId }, data: { tvaApplicable: false } })`
  unfoldable pub leave_vat : Text → Action D (Unit {0})
  leave_vat user_id = modify λ w. record w {
    companies =
        update_many (λ c. text_eq c.user_id user_id) (λ c. record c { tva_applicable = false })
          w.companies;
  }

  -- `claimGuestDraftAsDevis`
  unfoldable pub claim_guest_draft_as_devis :
      AuditContext → GuestDraft D → Clock → Text → Text → (World D → World D) → Action D (Devis D)
  claim_guest_draft_as_devis ctx draft clock client_id id others = do
    let client : Client = record {
      id = client_id;
      user_id = ctx.user_id;
      nom = trim draft.client_nom;
      email = trimmed_or_null draft.client_email;
      telephone = trimmed_or_null draft.client_telephone;
      adresse = trimmed_or_null draft.client_adresse;
      deleted_at = none;
    }
    modify (λ w. record w { clients = w.clients ++ client ∷ [] })
    (if or_else draft.tva_applicable true then pure tt else leave_vat ctx.user_id)
    let input : DevisInput D = record {
      client_id = client_id;
      lignes = draft.lignes;
      notes = trimmed_or_null draft.notes;
      valid_until = draft.valid_until;
    }
    create_devis ctx input true clock id others

  -- The change that `updateDevis` makes to the row.
  unfoldable pub patch_devis : DevisPatch D → Bool → Devis D → Devis D
  patch_devis patch tva_applicable d =
      let d' : Devis D = record d {
        notes = elim patch.notes [ none ↦ d.notes | some t ↦ some t ];
        valid_until = or_else patch.valid_until d.valid_until;
      } in
      elim patch.lignes [
        | none ↦ d'
        | some inputs ↦
            let lignes = build_lignes p.number inputs tva_applicable in
            let totals = compute_totals p.number lignes tva_applicable in
            record d' {
              lignes = lignes;
              total_ht = totals.total_ht;
              total_tva = totals.total_tva;
              total_ttc = totals.total_ttc;
            }
      ]

  -- `updateDevis`; the update is `where: { id }` alone. `others` happens between the check that
  -- the quote is editable and the transaction.
  unfoldable pub update_devis :
      AuditContext → Text → DevisPatch D → ℕ → (World D → World D) → Action D (Unit {0})
  update_devis ctx id patch now others = do
    existing ← or_raise (← gets (find_devis id ctx.user_id)) Error.error
    assert_devis_editable existing.status existing.locked_at
    company ← gets (find_company ctx.user_id)
    wait_for others
    modify (set_devis (λ d. text_eq d.id id) (patch_devis patch (is_tva_applicable company)))
    log p ctx (audit_params Audit.update id []) now
