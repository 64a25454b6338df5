-- ===== src/Devis/Sign.antt =====
-- `transitionDevisStatusFromPublic`: the client accepts or refuses by the link that was sent.
use devispropre.Base.{ℕ, Bool, ◌&&◌, Option, none, some, List, [], ◌∷◌, if◌then◌else◌, ◌==◌}
use devispropre.Text.{truthy, Text, codes, slice_to}
use devispropre.Table.{count, find_first}
use devispropre.Platform.{Platform}
use devispropre.Accounts.{Error}
use devispropre.Audit
use devispropre.Audit.{AuditContext, AuditParams, Meta, nullable}
use devispropre.Json.{Value, bool, num, str, obj, end, field, canonicalize}
use devispropre.Document.{resolve_issuer_company}
use devispropre.ShareToken.{is_share_link_expired, token_matches}
use devispropre.World.{DevisStatus, Company, Devis, World}
use devispropre.World.Action.{Action, pure, raise, gets, or_raise, ◌>>=◌, ◌>>◌, raise_if, modify}
use devispropre.World.Immutability.{devis_status_eq}
use devispropre.Services.{
  find_company, is_devis, archive_pdf, delete_archived_pdf, wait_for, log, set_devis,
  signed_devis_pdf_key,
}

pub data EmailSource : Type 0 where
  client_record declared_by_signer : EmailSource

-- `PublicSignatureInput`
pub record Acceptance : Type 0 where
  pub acceptance_text : Text
  pub signature_data : Text
  pub signer_name : Text
  pub signer_email : Text
  pub signer_email_source : EmailSource
  pub otp_sent_at : ℕ
  pub otp_verified_at : ℕ
  pub retractation_info_acknowledged : Bool
  pub early_execution_requested : Bool

-- The status that a client may choose.
pub data Choice : Type 0 where
  accepte refuse : Choice

-- What a call takes from outside. `image_digest` is `signatureImageSha256`, `file_digest` is
-- `sha256Buffer`, `add_days` moves a date in local time.
pub record SignInput (D : Type 0) : Type 0 where
  pub now : ℕ
  pub add_days : ℕ → ℕ → ℕ
  pub image_digest : Text → Text
  pub file_digest : Text → Text
  pub render : Devis D → Option Company → Value D → Text → Option Text
  pub stored : Bool
  pub others : World D → World D

abbrev source_text : EmailSource → Text
source_text client_record = codes "client_record"
source_text declared_by_signer = codes "declared_by_signer"

-- `ctx.userAgent?.slice(0, 300) ?? null`
abbrev clipped : Option Text → Option Text
clipped none = none
clipped (some s) = some (slice_to 300 s)

module _ {D : Type 0} (p : Platform D) where
  open p.number use {nat}

  -- `SignatureEvidence`
  unfoldable pub evidence_of : AuditContext → Devis D → Text → Acceptance → SignInput D → Value D
  evidence_of ctx devis content_hash a input = obj (
      field (codes "version") (num (nat 1)) (
        field (codes "devisId") (str devis.id) (
          field (codes "devisNumero") (str devis.numero) (
            field (codes "contentHash") (str content_hash) (
              field (codes "signerName") (str a.signer_name) (
                field (codes "signerEmail") (str a.signer_email) (
                  field (codes "signerEmailSource") (str (source_text a.signer_email_source)) (
                    field (codes "acceptanceText") (str a.acceptance_text) (
                      field (codes "signatureImageSha256")
                        (str (input.image_digest a.signature_data))
                        (field (codes "signedAt") (str (p.iso_string input.now)) (
                          field (codes "otpSentAt") (str (p.iso_string a.otp_sent_at)) (
                            field (codes "otpVerifiedAt") (str (p.iso_string a.otp_verified_at)) (
                              field (codes "retractationInfoAcknowledged")
                                (bool a.retractation_info_acknowledged)
                                (field (codes "earlyExecutionRequested")
                                  (bool a.early_execution_requested)
                                  (field (codes "ipAddress") (nullable ctx.ip_address) (
                                    field (codes "userAgent") (nullable (clipped ctx.user_agent))
                                      end))))))))))))))))

  unfoldable pub compute_signature_evidence_hash : Value D → Text
  compute_signature_evidence_hash evidence = p.sha256 (canonicalize p.number evidence)

  -- A sent quote of the artisan that the token opens.
  abbrev pub is_signable : Text → Text → Text → Devis D → Bool
  is_signable id user_id raw d =
      is_devis id user_id d
      && (devis_status_eq d.status DevisStatus.envoye && token_matches p raw d.share_token_hash)

  abbrev pub refuse_devis : ℕ → Devis D → Devis D
  refuse_devis now d = record d { status = DevisStatus.refuse; refused_at = some now }

  -- `signedFields`
  abbrev signed_fields : ℕ → Acceptance → Devis D → Devis D
  signed_fields now a d = record d {
    status = DevisStatus.accepte;
    accepted_at = some now;
    client_acceptance_text = some a.acceptance_text;
    client_signature_data = some a.signature_data;
    signer_name = some a.signer_name;
    signer_email = some a.signer_email;
  }

  abbrev pub sign_devis : ℕ → Acceptance → Text → Text → Devis D → Devis D
  sign_devis now a evidence_hash signed_pdf_hash d =
      let s = signed_fields now a d in
      record s {
        signature_evidence_hash = some evidence_hash;
        signed_pdf_hash = some signed_pdf_hash;
        signed_pdf_archived_at = some now;
      }

  abbrev params : Audit.AuditAction → Text → Option Text → List (Text × Meta D) → AuditParams D
  params action id content_hash metadata = record {
    action = action;
    entity_type = codes "devis";
    entity_id = id;
    devis_id = some id;
    facture_id = none;
    metadata = metadata;
    content_hash = content_hash;
  }

  -- the branch of a refusal
  unfoldable pub refuse_from_public :
      AuditContext → Text → Text → Devis D → SignInput D → Action D (Unit {0})
  refuse_from_public ctx id raw devis input = do
    wait_for input.others
    n ← gets (λ w. count (is_signable id ctx.user_id raw) w.devis)
    modify (set_devis (is_signable id ctx.user_id raw) (refuse_devis input.now))
    raise_if (n == 0) Error.error
    log p ctx
        (params Audit.refuse id devis.content_hash
          ((codes "via", Audit.text (codes "public_share_token")) ∷ []))
        input.now

  -- the branch of an acceptance, once there is a signature and a hash
  unfoldable pub accept_from_public :
      AuditContext → Text → Text → Devis D → Acceptance → Text → SignInput D → Action D (Unit {0})
  accept_from_public ctx id raw devis a content_hash input = do
    let evidence = evidence_of ctx devis content_hash a input
    let evidence_hash = compute_signature_evidence_hash evidence
    issuer ← gets (λ w. resolve_issuer_company devis.issuer_snapshot (find_company ctx.user_id w))
    let key = signed_devis_pdf_key ctx.user_id id
    pdf ←
        or_raise (input.render (signed_fields input.now a devis) issuer evidence evidence_hash)
          Error.object_storage
    archive_pdf key pdf input.stored
    wait_for input.others
    let hash = input.file_digest pdf
    n ← gets (λ w. count (is_signable id ctx.user_id raw) w.devis)
    modify (set_devis (is_signable id ctx.user_id raw) (sign_devis input.now a evidence_hash hash))
    (if n == 0 then delete_archived_pdf p key >> raise Error.error else pure tt)
    log p ctx
        (params Audit.accept id (some content_hash) (
          (codes "via", Audit.text (codes "public_share_token"))
          ∷ (codes "method", Audit.text (codes "otp_email"))
          ∷ (codes "acceptanceText", Audit.text a.acceptance_text)
          ∷ (codes "signerName", Audit.text a.signer_name)
          ∷ (codes "signerEmail", Audit.text a.signer_email)
          ∷ (codes "signerEmailSource", Audit.text (source_text a.signer_email_source))
          ∷ (codes "signatureEvidenceHash", Audit.text evidence_hash)
          ∷ (codes "signedPdfHash", Audit.text hash)
          ∷ (codes "earlyExecutionRequested", Audit.boolean a.early_execution_requested)
          ∷ []))
        input.now

  -- `devis.contentHash`, where an empty one is none
  abbrev choose :
      AuditContext
      → Text
      → Text
      → Devis D
      → Choice
      → Option Acceptance
      → SignInput D
      → Action D (Unit {0})
  choose ctx id raw devis refuse acceptance input = refuse_from_public ctx id raw devis input
  choose ctx id raw devis accepte acceptance input = do
    a ← or_raise acceptance Error.signature
    content_hash ← or_raise (truthy devis.content_hash) Error.signature
    accept_from_public ctx id raw devis a content_hash input

  unfoldable pub transition_devis_status_from_public :
      AuditContext → Text → Text → Choice → Option Acceptance → SignInput D → Action D (Unit {0})
  transition_devis_status_from_public ctx id raw choice acceptance input = do
    devis ← or_raise (← gets (λ w. find_first (is_signable id ctx.user_id raw) w.devis)) Error.error
    raise_if (is_share_link_expired input.add_days devis.sent_at devis.valid_until input.now)
        Error.error
    choose ctx id raw devis choice acceptance input
