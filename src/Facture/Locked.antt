-- ===== src/Facture/Locked.antt =====
-- What stays of an invoice once it is issued, and once it is paid or cancelled.
use devispropre.Base.{
  ℕ, ◌≡◌, refl, ap, Bool, true, false, Option, none, some, List, if◌then◌else◌, not, ◌||◌,
}
use devispropre.Text.{Text}
use devispropre.Numbers.{Ligne}
use devispropre.World.{FactureStatus, IssuerSnapshot, Facture, World}
use devispropre.World.Frozen.{Persists, Frozen}
use devispropre.World.Immutability.{facture_status_eq}
use devispropre.Services.Keeps.{Ignores}

-- The seal of an issued invoice, and what of the row itself its hash covers: the client's own row,
-- which the hash covers too, is another table's.
pub record Content (D : Type 0) : Type 0 where
  pub numero : Text
  pub client_id : Text
  pub total_ht : D
  pub total_tva : D
  pub total_ttc : D
  pub taux_tva : D
  pub notes : Option Text
  pub date_echeance : Option ℕ
  pub lignes : List (Ligne D)
  pub issuer_snapshot : Option IssuerSnapshot
  pub content_hash : Option Text
  pub chain_hash : Option Text
  pub previous_hash : Option Text
  pub issued_at : Option ℕ
  pub locked_at : Option ℕ
  pub share_token_hash : Option Text

abbrev pub has_left_draft : FactureStatus → Bool
has_left_draft s = not (facture_status_eq s FactureStatus.brouillon)

abbrev pub is_settled : FactureStatus → Bool
is_settled s = facture_status_eq s FactureStatus.payee || facture_status_eq s FactureStatus.annulee

unsettled :
    (s : FactureStatus)
    → facture_status_eq s FactureStatus.emise ≡ true
    → (has_left_draft s ≡ true) × (is_settled s ≡ false)
unsettled FactureStatus.brouillon h = absurd cc
unsettled FactureStatus.emise h = (refl, refl)
unsettled FactureStatus.payee h = absurd cc
unsettled FactureStatus.annulee h = absurd cc

draft_unsettled :
    (s : FactureStatus)
    → facture_status_eq s FactureStatus.brouillon ≡ true
    → (has_left_draft s ≡ false) × (is_settled s ≡ false)
draft_unsettled FactureStatus.brouillon h = (refl, refl)
draft_unsettled FactureStatus.emise h = absurd cc
draft_unsettled FactureStatus.payee h = absurd cc
draft_unsettled FactureStatus.annulee h = absurd cc

Persists-some : {C : Type 0} (b : Bool) (c : C) → Persists (if b then some c else none) (some c)
Persists-some true c = refl
Persists-some false c = tt

module _ {D : Type 0} where
  abbrev pub content : Facture D → Content D
  content f = record {
    numero = f.numero;
    client_id = f.client_id;
    total_ht = f.total_ht;
    total_tva = f.total_tva;
    total_ttc = f.total_ttc;
    taux_tva = f.taux_tva;
    notes = f.notes;
    date_echeance = f.date_echeance;
    lignes = f.lignes;
    issuer_snapshot = f.issuer_snapshot;
    content_hash = f.content_hash;
    chain_hash = f.chain_hash;
    previous_hash = f.previous_hash;
    issued_at = f.issued_at;
    locked_at = f.locked_at;
    share_token_hash = f.share_token_hash;
  }

  -- The content of a row that is no draft.
  unfoldable pub frozen : Facture D → Option (Content D)
  frozen f = if has_left_draft f.status then some (content f) else none

  -- The date of payment of a row that is paid or cancelled.
  unfoldable pub settled : Facture D → Option (Option ℕ)
  settled f = if is_settled f.status then some f.paid_at else none

  -- A change of a row that keeps what stays of it.
  abbrev pub Stays : Facture D → Facture D → Type 0
  Stays f f' = Persists (frozen f) (frozen f') × Persists (settled f) (settled f')

  -- A draft may become anything.
  pub draft-Stays :
      (f f' : Facture D) → facture_status_eq f.status FactureStatus.brouillon ≡ true → Stays f f'
  unfolding frozen settled
  draft-Stays f f' h = rw ((draft_unsettled f.status h).0, (draft_unsettled f.status h).1) (tt, tt)

  -- An issued invoice may be paid, with its content as it is.
  pub issued-Stays :
      (f f' : Facture D)
      → facture_status_eq f.status FactureStatus.emise ≡ true
      → has_left_draft f'.status ≡ true
      → content f' ≡ content f
      → Stays f f'
  unfolding frozen settled
  issued-Stays f f' h left same =
      rw (left, (unsettled f.status h).0, (unsettled f.status h).1) (ap some same, tt)

  -- Any invoice may be cancelled, with its content and its date of payment as they are.
  pub annulee-Stays : (f : Facture D) → Stays f (record f { status = FactureStatus.annulee })
  unfolding frozen settled
  annulee-Stays f = (
    Persists-some (has_left_draft f.status) (content f),
    Persists-some (is_settled f.status) f.paid_at,
  )

  -- The rows that were issued in `xs` bear the same content, and those that were paid or cancelled
  -- the same date of payment.
  abbrev pub Kept : List (Facture D) → World D → Type 0
  Kept xs w = Frozen frozen xs w.factures × Frozen settled xs w.factures

  pub Kept-Ignores : (xs : List (Facture D)) → Ignores (Kept xs)
  Kept-Ignores xs = record { audit_free = λ w rows k. k; archive_free = λ w files k. k }
