-- ===== src/Devis/Issuer.antt =====
-- The hash of a sent quote does not depend on what becomes of the company.
use devispropre.Base.{◌≡◌, refl, true, false, ◌||◌, Option, none, some}
use devispropre.Text.{Text, is_empty}
use devispropre.Platform.{Platform}
use devispropre.World.{Company, Client, Devis}
use devispropre.Document.{
  snapshot_from_company, client_payload, build_devis_payload, verify_document_integrity,
}
use devispropre.Document.Issuer.{snapshot_payload, unlocked_payload, own_hash}
use devispropre.Devis.Send.{SendInput, content_hash_of, lock_devis}

-- the client with other identifiers and another mark of deletion
abbrev pub IsSameClient : Client → Client → Type 0
IsSameClient c c' =
    (c'.nom ≡ c.nom)
    × (c'.email ≡ c.email)
    × (c'.telephone ≡ c.telephone)
    × (c'.adresse ≡ c.adresse)

module _ {D : Type 0} (p : Platform D) where
  locked_payload :
      (input : SendInput D) (id hash : Text) (d : Devis D) (c c' : Client) (k : Company)
      (live : Option Company)
      → (is_empty k.raison_sociale || is_empty k.siret) ≡ false
      → d.issuer_snapshot ≡ none
      → IsSameClient c c'
      → build_devis_payload p
          (lock_devis p input id hash (snapshot_from_company (some k)) d)
          c'
          live
        ≡ build_devis_payload p d c (some k)
  unfolding build_devis_payload lock_devis snapshot_from_company client_payload
  locked_payload input id hash d c c' k live h e (nom, email, telephone, adresse) =
      rw (e, nom, email, telephone, adresse, unlocked_payload p, snapshot_payload p k live h) refl

  -- The row that the update of `sendDevis` makes of a draft, with the hash of the draft's content,
  -- verifies against any company that is stored by then (another name, address or VAT status, or
  -- none), and any row of the client that has the name, the mail, the telephone and the address of
  -- the row that was hashed: for a draft with no snapshot yet, a company with a name and a SIRET
  -- number, and a digest that is never empty. A client who is edited later is not covered.
  pub lock_devis-verify :
      (input : SendInput D) (id : Text) (d : Devis D) (c c' : Client) (k : Company)
      (live : Option Company)
      → ((s : Text) → is_empty (p.sha256 s) ≡ false)
      → (is_empty k.raison_sociale || is_empty k.siret) ≡ false
      → d.issuer_snapshot ≡ none
      → IsSameClient c c'
      → let locked =
          lock_devis p input id
            (content_hash_of p d c (some k))
            (snapshot_from_company (some k))
            d in
        verify_document_integrity p locked.content_hash (build_devis_payload p locked c' live)
        ≡ true
  unfolding lock_devis
  lock_devis-verify input id d c c' k live digest h e same =
      let hash = content_hash_of p d c (some k) in
      own_hash p _ (build_devis_payload p d c (some k)) digest
        (locked_payload input id hash d c c' k live h e same)
