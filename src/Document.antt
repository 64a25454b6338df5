-- ===== src/Document.antt =====
-- src/lib/issuer-snapshot.ts and src/lib/document-hash.ts: the issuer that a document shows, and
-- the hash of its content.
pub mod Issuer
use devispropre.Base.{
  Bool, false, not, ◌&&◌, ◌||◌, Option, none, some, List, [], ◌∷◌, ◌++◌, if◌then◌else◌, or_else,
}
use mathlib.Core.Option
use devispropre.Text.{Text, codes, text_eq, is_empty}
use devispropre.Table.{order_by}
use devispropre.Platform.{Platform}
use devispropre.Json.{
  Value, null, bool, num, str, arr, obj, Items, nil, cons, end, field, canonicalize,
}
use devispropre.Numbers.{Ligne}
use devispropre.Audit.{nullable}
use devispropre.World.{IssuerSnapshot, Company, Client, Devis, Facture}

unfoldable pub snapshot_from_company : Option Company → Option IssuerSnapshot
snapshot_from_company none = none
snapshot_from_company (some c) = some (record {
  raison_sociale = c.raison_sociale;
  siret = c.siret;
  adresse = c.adresse;
  code_postal = c.code_postal;
  ville = c.ville;
  tva_intracom = c.tva_intracom;
  tva_applicable = c.tva_applicable;
  rcs = c.rcs;
  capital_social = c.capital_social;
  assurances = c.assurances;
  assurance_decennale_assureur = c.assurance_decennale_assureur;
  assurance_decennale_contrat = c.assurance_decennale_contrat;
  assurance_decennale_couverture = c.assurance_decennale_couverture;
  activite_btp = c.activite_btp;
})

-- A snapshot with no name or no SIRET gives no company.
unfoldable pub company_from_snapshot : Option IssuerSnapshot → Option Company
company_from_snapshot none = none
company_from_snapshot (some s) =
    if is_empty s.raison_sociale || is_empty s.siret
    then none
    else some (record {
      id = codes "snapshot";
      user_id = codes "snapshot";
      raison_sociale = s.raison_sociale;
      siret = s.siret;
      adresse = s.adresse;
      code_postal = s.code_postal;
      ville = s.ville;
      tva_intracom = s.tva_intracom;
      tva_applicable = s.tva_applicable;
      rcs = s.rcs;
      capital_social = s.capital_social;
      assurances = s.assurances;
      assurance_decennale_assureur = s.assurance_decennale_assureur;
      assurance_decennale_contrat = s.assurance_decennale_contrat;
      assurance_decennale_couverture = s.assurance_decennale_couverture;
      activite_btp = s.activite_btp;
      logo_url = none;
    })

-- `companyFromSnapshot(issuerSnapshot) ?? liveCompany`
unfoldable pub resolve_issuer_company : Option IssuerSnapshot → Option Company → Option Company
unfolding company_from_snapshot
resolve_issuer_company snapshot live = elim (company_from_snapshot snapshot) [
  | none ↦ live
  | some c ↦ some c
]

module _ {D : Type 0} (p : Platform D) where
  -- `buildCompanyPayload`
  unfoldable pub company_payload : Option Company → Value D
  company_payload none = null
  company_payload (some c) = obj (
      field (codes "raisonSociale") (str c.raison_sociale) (
        field (codes "siret") (str c.siret) (
          field (codes "adresse") (str c.adresse) (
            field (codes "codePostal") (str c.code_postal) (
              field (codes "ville") (str c.ville) (
                field (codes "tvaIntracom") (nullable c.tva_intracom)
                  (field (codes "tvaApplicable") (bool c.tva_applicable) end)))))))

  unfoldable pub client_payload : Client → Value D
  client_payload c = obj (
      field (codes "nom") (str c.nom) (
        field (codes "email") (nullable c.email) (
          field (codes "telephone") (nullable c.telephone)
            (field (codes "adresse") (nullable c.adresse) end))))

  ligne_payload : Ligne D → Value D
  ligne_payload l = obj (
      field (codes "ordre") (num (p.number.nat l.ordre)) (
        field (codes "description") (str l.description) (
          field (codes "quantite") (num l.quantite) (
            field (codes "prixUnitaireHT") (num l.prix_unitaire_ht)
              (field (codes "tva") (num l.tva) (field (codes "totalHT") (num l.total_ht) end))))))

  lignes_payload : List (Ligne D) → Items D
  lignes_payload [] = nil
  lignes_payload (l ∷ lignes) = cons (ligne_payload l) (lignes_payload lignes)

  abbrev sorted : List (Ligne D) → List (Ligne D)
  sorted = order_by (λ l. l.ordre)

  unfoldable pub build_devis_payload : Devis D → Client → Option Company → Value D
  unfolding client_payload ligne_payload lignes_payload
  build_devis_payload devis client company = obj (
      field (codes "type") (str (codes "devis")) (
        field (codes "numero") (str devis.numero) (
          field (codes "totalHT") (num devis.total_ht) (
            field (codes "totalTVA") (num devis.total_tva) (
              field (codes "totalTTC") (num devis.total_ttc) (
                field (codes "tauxTVA") (num devis.taux_tva) (
                  field (codes "notes") (nullable devis.notes) (
                    field (codes "validUntil")
                      (nullable (Option.map p.iso_string devis.valid_until))
                      (field (codes "client") (client_payload client) (
                        field (codes "company")
                          (company_payload (resolve_issuer_company devis.issuer_snapshot company))
                          (field (codes "lignes") (arr (lignes_payload (sorted devis.lignes)))
                            end)))))))))))

  unfoldable pub build_facture_payload : Facture D → Client → Option Company → Value D
  unfolding client_payload ligne_payload lignes_payload
  build_facture_payload facture client company = obj (
      field (codes "type") (str (codes "facture")) (
        field (codes "numero") (str facture.numero) (
          field (codes "totalHT") (num facture.total_ht) (
            field (codes "totalTVA") (num facture.total_tva) (
              field (codes "totalTTC") (num facture.total_ttc) (
                field (codes "tauxTVA") (num facture.taux_tva) (
                  field (codes "notes") (nullable facture.notes) (
                    field (codes "dateEcheance")
                      (nullable (Option.map p.iso_string facture.date_echeance))
                      (field (codes "client") (client_payload client) (
                        field (codes "company")
                          (company_payload (resolve_issuer_company facture.issuer_snapshot company))
                          (field (codes "lignes") (arr (lignes_payload (sorted facture.lignes)))
                            end)))))))))))

  unfoldable pub compute_content_hash : Value D → Text
  compute_content_hash payload = p.sha256 (canonicalize p.number payload)

  unfoldable pub compute_chain_hash : Text → Option Text → Text
  compute_chain_hash content_hash previous_hash =
      p.sha256 (or_else previous_hash (codes "GENESIS") ++ (b':' ∷ content_hash))

  -- An empty stored hash is no hash.
  unfoldable pub verify_document_integrity : Option Text → Value D → Bool
  verify_document_integrity none payload = false
  verify_document_integrity (some stored) payload =
      not (is_empty stored) && text_eq (compute_content_hash payload) stored
