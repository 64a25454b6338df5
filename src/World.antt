-- ===== src/World.antt =====
-- The state that the services share: the tables of prisma/schema.prisma that they use, and the
-- archive of PDF files.
pub mod Action
pub mod Frozen
pub mod Immutability
use devispropre.Base.{ℕ, Bool, Option, List, ◌&&◌, ◌||◌, true, false, is_some, is_none}
use devispropre.Text.{Text}
use devispropre.Accounts.{
  User, UserSession, MagicLinkToken, Team, TeamMember, StripeWebhookEvent, IdempotencyRecord,
}
use devispropre.Otp.{Otp}
use devispropre.RateLimit.{Bucket}
use devispropre.Numbers.{Counter, Ligne}
use devispropre.Audit.{AuditLog}

pub data DevisStatus : Type 0 where
  brouillon envoye accepte refuse facture : DevisStatus

pub data FactureStatus : Type 0 where
  brouillon emise payee annulee : FactureStatus

-- `IssuerSnapshot` of src/lib/issuer-snapshot.ts: the fields of a company that a document shows.
pub record IssuerSnapshot : Type 0 where
  pub raison_sociale : Text
  pub siret : Text
  pub adresse : Text
  pub code_postal : Text
  pub ville : Text
  pub tva_intracom : Option Text
  pub tva_applicable : Bool
  pub rcs : Option Text
  pub capital_social : Option Text
  pub assurances : Option Text
  pub assurance_decennale_assureur : Option Text
  pub assurance_decennale_contrat : Option Text
  pub assurance_decennale_couverture : Option Text
  pub activite_btp : Bool

pub record Company : Type 0 where
  pub id : Text
  pub user_id : Text
  pub raison_sociale : Text
  pub siret : Text
  pub adresse : Text
  pub code_postal : Text
  pub ville : Text
  pub tva_intracom : Option Text
  pub tva_applicable : Bool
  pub rcs : Option Text
  pub capital_social : Option Text
  pub assurances : Option Text
  pub assurance_decennale_assureur : Option Text
  pub assurance_decennale_contrat : Option Text
  pub assurance_decennale_couverture : Option Text
  pub activite_btp : Bool
  pub logo_url : Option Text

pub record Client : Type 0 where
  pub id : Text
  pub user_id : Text
  pub nom : Text
  pub email : Option Text
  pub telephone : Option Text
  pub adresse : Option Text
  pub deleted_at : Option ℕ

-- The proof of an electronic signature: its hash and the identity of who signed.
pub record Devis (D : Type 0) : Type 0 where
  pub id : Text
  pub user_id : Text
  pub client_id : Text
  pub numero : Text
  pub status : DevisStatus
  pub total_ht : D
  pub total_tva : D
  pub total_ttc : D
  pub taux_tva : D
  pub notes : Option Text
  pub valid_until : Option ℕ
  pub lignes : List (Ligne D)
  pub issuer_snapshot : Option IssuerSnapshot
  pub locked_at : Option ℕ
  pub content_hash : Option Text
  pub chain_hash : Option Text
  pub share_token_hash : Option Text
  pub share_token_enc : Option Text
  pub share_slug : Option Text
  pub sent_at : Option ℕ
  pub accepted_at : Option ℕ
  pub refused_at : Option ℕ
  pub client_acceptance_text : Option Text
  pub client_signature_data : Option Text
  pub signer_name : Option Text
  pub signer_email : Option Text
  pub signature_evidence_hash : Option Text
  pub signed_pdf_hash : Option Text
  pub signed_pdf_archived_at : Option ℕ
  pub pdf_url : Option Text
  pub pdf_archived_at : Option ℕ
  pub reminder_sent_at : Option ℕ
  pub created_at : ℕ
  pub deleted_at : Option ℕ

pub record Facture (D : Type 0) : Type 0 where
  pub id : Text
  pub user_id : Text
  pub client_id : Text
  pub devis_id : Option Text
  pub numero : Text
  pub status : FactureStatus
  pub total_ht : D
  pub total_tva : D
  pub total_ttc : D
  pub taux_tva : D
  pub notes : Option Text
  pub date_echeance : Option ℕ
  pub lignes : List (Ligne D)
  pub issuer_snapshot : Option IssuerSnapshot
  pub locked_at : Option ℕ
  pub content_hash : Option Text
  pub chain_hash : Option Text
  pub previous_hash : Option Text
  pub share_token_hash : Option Text
  pub share_token_enc : Option Text
  pub share_slug : Option Text
  pub issued_at : Option ℕ
  pub paid_at : Option ℕ
  pub pdf_url : Option Text
  pub pdf_archived_at : Option ℕ
  pub deleted_at : Option ℕ

pub record Attestation : Type 0 where
  pub user_id : Text
  pub facture_id : Text
  pub numero : Text
  pub content_hash : Text
  pub signed_at : ℕ
  pub pdf_url : Option Text
  pub pdf_archived_at : Option ℕ

pub record World (D : Type 0) : Type 0 where
  pub users : List User
  pub companies : List Company
  pub clients : List Client
  pub devis : List (Devis D)
  pub factures : List (Facture D)
  pub attestations : List Attestation
  pub counters : List Counter
  pub audit : List AuditLog
  pub sessions : List UserSession
  pub tokens : List MagicLinkToken
  pub teams : List Team
  pub members : List TeamMember
  pub stripe_events : List StripeWebhookEvent
  pub idempotency : List IdempotencyRecord
  pub otps : List Otp
  pub buckets : List Bucket
  -- the keys of the archived PDF files, with their contents
  pub archive : List (Text × Text)
