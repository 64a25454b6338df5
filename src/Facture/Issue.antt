-- ===== src/Facture/Issue.antt =====
-- `issueFacture`: the PDF files are archived, then one transaction links the invoice to the last
-- issued one and locks it.
use devispropre.Base.{
  ℕ, Bool, not, ◌&&◌, ◌||◌, Option, none, some, List, [], ◌∷◌, ◌++◌, ◌==◌, is_some, or_else,
}
use devispropre.Text.{Text, codes, text_eq, slice_to}
use devispropre.Table.{find_first, find_last_by, count}
use devispropre.Decimal.{decimal}
use devispropre.Platform.{Platform}
use devispropre.Accounts.{Error}
use devispropre.Audit
use devispropre.Audit.{AuditContext, AuditParams, Meta}
use devispropre.Document.{
  snapshot_from_company, resolve_issuer_company, build_facture_payload, compute_content_hash,
  compute_chain_hash,
}
use devispropre.World.{FactureStatus, IssuerSnapshot, Company, Facture, Attestation, World}
use devispropre.World.Action.{
  Action, gets, or_raise, pure, ◌>>=◌, ◌>>◌, raise_if, modify, transaction, on_error,
}
use devispropre.World.Immutability.{facture_status_eq}
use devispropre.Services.{
  find_company, find_relation, find_facture, is_facture, assert_billing_not_past_due,
  assert_facturation_allowed, archive_pdf, delete_archived_pdf, wait_for, log, set_factures,
  facture_pdf_key, attestation_pdf_key,
}
use devispropre.Devis.Send.{ShareToken}

-- What a call takes from outside: the clock, the texts of the two PDF files (`none` where the
-- rendering throws), whether files can be stored, and what happens before the transaction.
pub record IssueInput (D : Type 0) : Type 0 where
  pub now : ℕ
  pub token : ShareToken
  pub share_slug : Text
  pub to_upper : Text → Text
  pub render : Facture D → Option Company → Option Text
  pub render_attestation : Text → Facture D → Option Company → Option Text
  pub stored : Bool
  pub others : World D → World D

-- `ROUTES.apiArchiveFacture(id)`
abbrev pub api_archive_facture : Text → Text
api_archive_facture id = codes "/api/archives/factures/" ++ id

-- `ROUTES.apiArchiveAttestation(id)`
abbrev pub api_archive_attestation : Text → Text
api_archive_attestation id = api_archive_facture id ++ codes "/attestation"

module _ {D : Type 0} (p : Platform D) where
  -- `generateAttestationNumero`
  unfoldable pub generate_attestation_numero : (Text → Text) → Text → Text → ℕ → Text
  generate_attestation_numero to_upper user_id numero now =
      codes "ATT-"
      ++ to_upper (slice_to 12 (p.sha256 (user_id ++ (b':' ∷ (numero ++ (b':' ∷ decimal now))))))

  -- The user's invoices that are linked: issued or paid, with a hash.
  unfoldable pub is_linked : Text → Facture D → Bool
  is_linked user_id f =
      text_eq f.user_id user_id
      && ((facture_status_eq f.status FactureStatus.emise
            || facture_status_eq f.status FactureStatus.payee)
          && is_some f.content_hash)

  -- `orderBy: { issuedAt: "desc" }`; a linked invoice has a date
  abbrev pub issued_time : Facture D → ℕ
  issued_time f = or_else f.issued_at 0

  abbrev pub hash_of : Option (Facture D) → Option Text
  hash_of none = none
  hash_of (some f) = f.content_hash

  -- `lastIssued?.contentHash ?? null`
  unfoldable pub last_issued_hash : Text → World D → Option Text
  last_issued_hash user_id w = hash_of (find_last_by issued_time (is_linked user_id) w.factures)

  -- The change of the update that locks the row.
  unfoldable pub lock_facture :
      IssueInput D → Text → Text → Option Text → Option IssuerSnapshot → Facture D → Facture D
  lock_facture input id content_hash previous_hash snapshot f = record f {
    status = FactureStatus.emise;
    locked_at = some input.now;
    issued_at = some input.now;
    content_hash = some content_hash;
    chain_hash = some (compute_chain_hash p content_hash previous_hash);
    previous_hash = previous_hash;
    share_token_hash = some input.token.hash;
    share_token_enc = some input.token.enc;
    share_slug = some input.share_slug;
    pdf_url = some (api_archive_facture id);
    pdf_archived_at = some input.now;
    issuer_snapshot = elim snapshot [ none ↦ f.issuer_snapshot | some s ↦ some s ];
  }

  -- The row as the PDF files show it.
  abbrev locked_for_pdf : IssueInput D → Text → Facture D → Facture D
  locked_for_pdf input content_hash f = record f {
    status = FactureStatus.emise;
    locked_at = some input.now;
    issued_at = some input.now;
    content_hash = some content_hash;
    chain_hash = none;
    previous_hash = none;
  }

  abbrev pub is_draft_facture : Text → Text → Facture D → Bool
  is_draft_facture id user_id f =
      is_facture id user_id f && facture_status_eq f.status FactureStatus.brouillon

  unfoldable pub delete_both : Text → Text → Action D (Unit {0})
  delete_both user_id id =
      delete_archived_pdf p (facture_pdf_key user_id id)
      >> delete_archived_pdf p (attestation_pdf_key user_id id)

  -- the first `try`
  unfoldable pub archive_both :
      Text → Text → IssueInput D → Text → Facture D → Option Company → Action D (Unit {0})
  archive_both user_id id input numero locked issuer =
      on_error
        (do
          pdf ← or_raise (input.render locked issuer) Error.object_storage
          archive_pdf (facture_pdf_key user_id id) pdf input.stored
          attestation ←
              or_raise (input.render_attestation numero locked issuer) Error.object_storage
          archive_pdf (attestation_pdf_key user_id id) attestation input.stored)
        (delete_both user_id id)

  abbrev pub attestation_of : Text → Text → IssueInput D → Text → Text → Attestation
  attestation_of user_id id input numero content_hash = record {
    user_id = user_id;
    facture_id = id;
    numero = numero;
    content_hash = content_hash;
    signed_at = input.now;
    pdf_url = some (api_archive_attestation id);
    pdf_archived_at = some input.now;
  }

  -- the transaction, under the lock of the user's chain: the hash of the invoice before it. A
  -- second attestation of an invoice breaks the unique key.
  unfoldable pub commit_issue :
      AuditContext
      → Text
      → IssueInput D
      → Text
      → Text
      → Option IssuerSnapshot
      → Action D (Option Text)
  commit_issue ctx id input numero content_hash snapshot = transaction do
    previous ← gets (last_issued_hash ctx.user_id)
    n ← gets (λ w. count (is_draft_facture id ctx.user_id) w.factures)
    modify (
        set_factures (is_draft_facture id ctx.user_id)
          (lock_facture input id content_hash previous snapshot))
    raise_if (n == 0) Error.immutability
    twice ← gets (λ w. find_first (λ a. text_eq a.facture_id id) w.attestations)
    raise_if (is_some twice) Error.error
    modify (λ w. record w {
      attestations = w.attestations ++ attestation_of ctx.user_id id input numero content_hash ∷ [];
    })
    pure previous

  abbrev issue_params : Audit.AuditAction → Text → Text → List (Text × Meta D) → AuditParams D
  issue_params action id content_hash metadata = record {
    action = action;
    entity_type = codes "facture";
    entity_id = id;
    devis_id = none;
    facture_id = some id;
    metadata = metadata;
    content_hash = some content_hash;
  }

  abbrev text_or_null : Option Text → Meta D
  text_or_null none = Audit.nothing
  text_or_null (some s) = Audit.text s

  unfoldable pub issue_facture : AuditContext → Text → IssueInput D → Action D (Unit {0})
  issue_facture ctx id input = do
    assert_billing_not_past_due ctx.user_id
    assert_facturation_allowed ctx.user_id
    facture ← or_raise (← gets (find_facture id ctx.user_id)) Error.error
    client ← or_raise (← gets (find_relation facture.client_id)) Error.error
    raise_if (not (facture_status_eq facture.status FactureStatus.brouillon)) Error.immutability
    company ← gets (find_company ctx.user_id)
    let snapshot = snapshot_from_company company
    let content_hash = compute_content_hash p (build_facture_payload p facture client company)
    let numero = generate_attestation_numero input.to_upper ctx.user_id facture.numero input.now
    archive_both ctx.user_id id input numero (locked_for_pdf input content_hash facture)
        (resolve_issuer_company snapshot company)
    wait_for input.others
    previous ←
        on_error (commit_issue ctx id input numero content_hash snapshot)
          (delete_both ctx.user_id id)
    log p ctx
        (issue_params Audit.lock id content_hash (
          (codes "chainHash", Audit.text (compute_chain_hash p content_hash previous))
          ∷ (codes "previousHash", text_or_null previous)
          ∷ []))
        input.now
    log p ctx (issue_params Audit.issue id content_hash []) input.now
