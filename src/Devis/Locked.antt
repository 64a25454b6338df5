-- ===== src/Devis/Locked.antt =====
-- What stays of a quote once it is sent, and once it is decided.
use devispropre.Base.{ℕ, ◌≡◌, ap, Bool, true, Option, none, some, List, if◌then◌else◌, not, ◌&&◌}
use devispropre.Text.{Text}
use devispropre.Numbers.{Ligne}
use devispropre.World.{DevisStatus, IssuerSnapshot, Devis, World}
use devispropre.World.Frozen.{Persists, Frozen}
use devispropre.World.Immutability.{devis_status_eq, envoye-no_draft}

-- The seal of a sent quote, and what of the row itself its hash covers: the client's own row, which
-- the hash covers too, is another table's.
pub record Content (D : Type 0) : Type 0 where
  pub numero : Text
  pub client_id : Text
  pub total_ht : D
  pub total_tva : D
  pub total_ttc : D
  pub taux_tva : D
  pub notes : Option Text
  pub valid_until : Option ℕ
  pub lignes : List (Ligne D)
  pub issuer_snapshot : Option IssuerSnapshot
  pub content_hash : Option Text
  pub chain_hash : Option Text
  pub locked_at : Option ℕ
  pub sent_at : Option ℕ
  pub share_token_hash : Option Text

-- What a decision writes.
pub record Decision : Type 0 where
  pub status : DevisStatus
  pub accepted_at : Option ℕ
  pub refused_at : Option ℕ
  pub client_acceptance_text : Option Text
  pub client_signature_data : Option Text
  pub signer_name : Option Text
  pub signer_email : Option Text
  pub signature_evidence_hash : Option Text
  pub signed_pdf_hash : Option Text

abbrev pub is_sent : DevisStatus → Bool
is_sent s = not (devis_status_eq s DevisStatus.brouillon)

abbrev pub is_decided : DevisStatus → Bool
is_decided s = is_sent s && not (devis_status_eq s DevisStatus.envoye)

module _ {D : Type 0} where
  abbrev pub content : Devis D → Content D
  content d = record {
    numero = d.numero;
    client_id = d.client_id;
    total_ht = d.total_ht;
    total_tva = d.total_tva;
    total_ttc = d.total_ttc;
    taux_tva = d.taux_tva;
    notes = d.notes;
    valid_until = d.valid_until;
    lignes = d.lignes;
    issuer_snapshot = d.issuer_snapshot;
    content_hash = d.content_hash;
    chain_hash = d.chain_hash;
    locked_at = d.locked_at;
    sent_at = d.sent_at;
    share_token_hash = d.share_token_hash;
  }

  abbrev pub decision : Devis D → Decision
  decision d = record {
    status = d.status;
    accepted_at = d.accepted_at;
    refused_at = d.refused_at;
    client_acceptance_text = d.client_acceptance_text;
    client_signature_data = d.client_signature_data;
    signer_name = d.signer_name;
    signer_email = d.signer_email;
    signature_evidence_hash = d.signature_evidence_hash;
    signed_pdf_hash = d.signed_pdf_hash;
  }

  -- The content of a row that is no draft.
  unfoldable pub frozen : Devis D → Option (Content D)
  frozen d = if is_sent d.status then some (content d) else none

  -- The decision of a row that is neither a draft nor waits for its client.
  unfoldable pub decided : Devis D → Option Decision
  decided d = if is_decided d.status then some (decision d) else none

  -- A change of a row that keeps what stays of it.
  abbrev pub Stays : Devis D → Devis D → Type 0
  Stays d d' = Persists (frozen d) (frozen d') × Persists (decided d) (decided d')

  -- A draft may become anything.
  pub draft-Stays :
      (d d' : Devis D) → devis_status_eq d.status DevisStatus.brouillon ≡ true → Stays d d'
  unfolding frozen decided
  draft-Stays d d' h = rw h (tt, tt)

  -- A quote that waits for its client may be decided, with its content as it is.
  pub sent-Stays :
      (d d' : Devis D)
      → devis_status_eq d.status DevisStatus.envoye ≡ true
      → is_sent d'.status ≡ true
      → content d' ≡ content d
      → Stays d d'
  unfolding frozen decided
  sent-Stays d d' h sent same = rw (sent, h, envoye-no_draft d.status h) (ap some same, tt)

-- The rows that were sent in `xs` bear the same content, and those that were decided the same decision.
abbrev pub Kept : {D : Type 0} → List (Devis D) → World D → Type 0
Kept xs w = Frozen frozen xs w.devis × Frozen decided xs w.devis
