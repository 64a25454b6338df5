-- ===== src/Document/Issuer.antt =====
-- What a snapshot of the issuer gives back, and what its hash is worth.
use devispropre.Base.{◌≡◌, refl, ap, ◌∙◌, true, false, ◌||◌, Option, none, some}
use devispropre.Text.{Text, codes, text_eq_refl, is_empty}
use devispropre.Platform.{Platform}
use devispropre.Json.{Value, canonicalize}
use devispropre.World.{Company}
use devispropre.Document.{
  snapshot_from_company, company_from_snapshot, resolve_issuer_company, company_payload,
  compute_content_hash, verify_document_integrity,
}

module _ {D : Type 0} (p : Platform D) where
  -- The company that the snapshot of `k` gives back.
  abbrev restored : Company → Company
  restored k = record k { id = codes "snapshot"; user_id = codes "snapshot"; logo_url = none }

  restores :
      (k : Company)
      → (is_empty k.raison_sociale || is_empty k.siret) ≡ false
      → company_from_snapshot (snapshot_from_company (some k)) ≡ some (restored k)
  unfolding company_from_snapshot snapshot_from_company
  restores k h = rw h refl

  resolves :
      (k : Company) (live : Option Company)
      → (is_empty k.raison_sociale || is_empty k.siret) ≡ false
      → resolve_issuer_company (snapshot_from_company (some k)) live ≡ some (restored k)
  unfolding resolve_issuer_company
  resolves k live h = ap (λ o. elim o [ none ↦ live | some c ↦ some c ]) (restores k h)

  -- The company as the snapshot gives it back hashes like the company it was taken of.
  pub snapshot_payload :
      (k : Company) (live : Option Company)
      → (is_empty k.raison_sociale || is_empty k.siret) ≡ false
      → company_payload p (resolve_issuer_company (snapshot_from_company (some k)) live)
        ≡ company_payload p (some k)
  unfolding company_payload
  snapshot_payload k live h =
      let e : company_payload p (some (restored k)) ≡ company_payload p (some k) = refl in
      ap (company_payload p) (resolves k live h) ∙ e

  pub unlocked_payload : (live : Option Company) → resolve_issuer_company none live ≡ live
  unfolding resolve_issuer_company
  unlocked_payload none = refl
  unlocked_payload (some c) = refl

  -- A hash that is not empty verifies the payload that it is taken of.
  pub own_hash :
      (v w : Value D)
      → ((s : Text) → is_empty (p.sha256 s) ≡ false)
      → v ≡ w
      → verify_document_integrity p (some (compute_content_hash p w)) v ≡ true
  unfolding verify_document_integrity compute_content_hash
  own_hash v w digest same = rw (same, digest (canonicalize p.number w), text_eq_refl) refl
