-- ===== src/Facture/Chain.antt =====
-- An issued invoice passes the check of its hash and of its link to the invoice before it.
use devispropre.Base.{
  ℕ, ◌≡◌, refl, ◌∙◌, Bool, true, false, ◌&&◌, ◌||◌, Option, none, some, List, [], ◌∷◌, ◌++◌,
  is_some, arith,
}
use devispropre.Text.{truthy, Text, text_eq, text_eq_refl, is_empty}
use devispropre.Table.{
  find_first, find_last_by, update_many, find_first-count, find_first-update_many,
  find_last_by-find_first, find_last_by_passes,
}
use devispropre.Platform.{Platform}
use devispropre.Audit.{AuditContext}
use devispropre.Audit.Chain.{option_text_eq_iff}
use devispropre.World.{IssuerSnapshot, Company, Client, Facture, Attestation, World}
use devispropre.World.Action.{ok, ◌>>=◌}
use devispropre.Json.{Value, canonicalize}
use devispropre.Document.{
  snapshot_from_company, build_facture_payload, compute_content_hash, compute_chain_hash,
  verify_document_integrity,
}
use devispropre.Document.Issuer.{snapshot_payload, unlocked_payload, own_hash}
use devispropre.Services.{find_relation, find_company, set_factures, log}
use devispropre.Facture.{
  is_predecessor, chain_valid, verify_locked_facture, verify_facture_integrity,
}
use devispropre.Facture.Issue.{
  IssueInput, is_linked, issued_time, hash_of, last_issued_hash, lock_facture, is_draft_facture,
  commit_issue, attestation_of,
}

module _ {D : Type 0} (p : Platform D) where
  linked_is_predecessor :
      (u h : Text) (f : Facture D)
      → is_linked p u f ≡ true
      → f.content_hash ≡ some h
      → is_predecessor p u h f ≡ true
  unfolding is_linked
  linked_is_predecessor u h f l e = rw e (ground (arith, l, text_eq_refl h))

  linked_no_draft :
      (u u' id : Text) (f : Facture D) → is_linked p u f ≡ true → is_draft_facture p id u' f ≡ false
  unfolding is_linked
  linked_no_draft u u' id f l = ground (arith, l)

  -- The row that bears the last hash is still found after the update.
  predecessor_stays :
      (u id h : Text) (change : Facture D → Facture D) (xs : List (Facture D))
      (o : Option (Facture D))
      → find_last_by (issued_time p) (is_linked p u) xs ≡ o
      → hash_of p o ≡ some h
      → is_some
          (find_first (is_predecessor p u h) (update_many (is_draft_facture p id u) change xs))
        ≡ true
  predecessor_stays u id h change xs none e k = cc
  predecessor_stays u id h change xs (some f) e k =
      find_last_by-find_first (issued_time p) (is_linked p u) (is_predecessor p u h)
        (is_draft_facture p id u) change xs f e (λ x l. linked_no_draft u u id x l)
        (linked_is_predecessor u h f (find_last_by_passes (issued_time p) (is_linked p u) xs f e) k)

  locked_payload :
      (input : IssueInput D) (id hash : Text) (previous : Option Text) (f : Facture D) (c : Client)
      (k : Company) (live : Option Company)
      → (is_empty k.raison_sociale || is_empty k.siret) ≡ false
      → f.issuer_snapshot ≡ none
      → build_facture_payload p
          (lock_facture p input id hash previous (snapshot_from_company (some k)) f)
          c
          live
        ≡ build_facture_payload p f c (some k)
  unfolding build_facture_payload lock_facture snapshot_from_company
  locked_payload input id hash previous f c k live h e =
      rw (e, unlocked_payload p, snapshot_payload p k live h) refl

  -- The link to the invoice before it holds in the table that the update leaves.
  linked_after :
      (u id hash : Text) (f : Facture D) (change : Facture D → Facture D) (w : World D)
      (previous : Option Text)
      → f.chain_hash ≡ some (compute_chain_hash p hash previous)
      → last_issued_hash p u w ≡ previous
      → chain_valid p u f hash previous
          (record w { factures = update_many (is_draft_facture p id u) change w.factures })
        ≡ true
  unfolding chain_valid last_issued_hash
  linked_after u id hash f change w none e k =
      rw e ((option_text_eq_iff (some (compute_chain_hash p hash none)) _).1 refl)
  linked_after u id hash f change w (some h) e k =
      rw
        (
          e,
          (option_text_eq_iff (some (compute_chain_hash p hash (some h))) _).1 refl,
          predecessor_stays u id h change w.factures _ refl k,
        )
        refl

  -- a row by its identifier and owner, deleted or not
  abbrev pub is_own_facture : Text → Text → Facture D → Bool
  is_own_facture id u f = text_eq f.id id && text_eq f.user_id u

  -- The row of a draft after the update.
  locked_row :
      (id u : Text) (change : Facture D → Facture D) (xs : List (Facture D)) (f : Facture D)
      → find_first (is_own_facture id u) xs ≡ some f
      → is_draft_facture p id u f ≡ true
      → ((g : Facture D) → is_own_facture id u (change g) ≡ is_own_facture id u g)
      → find_first (is_own_facture id u) (update_many (is_draft_facture p id u) change xs)
        ≡ some (change f)
  locked_row id u change xs f found draft keeps =
      find_first-update_many (is_own_facture id u) (is_draft_facture p id u) change xs
        (λ g _. keeps g)
      ∙ rw (found, draft) refl

  abbrev pub issue_hash : Facture D → Client → Company → Text
  issue_hash f c k = compute_content_hash p (build_facture_payload p f c (some k))

  committed :
      (ctx : AuditContext) (id : Text) (input : IssueInput D) (numero hash : Text)
      (s : Option IssuerSnapshot) (w : World D) (f : Facture D)
      → find_first (is_own_facture id ctx.user_id) w.factures ≡ some f
      → is_draft_facture p id ctx.user_id f ≡ true
      → find_first (λ a. text_eq a.facture_id id) w.attestations ≡ none
      → let previous = last_issued_hash p ctx.user_id w in
        commit_issue p ctx id input numero hash s w ≡ (
          ok previous,
          record (set_factures
              (is_draft_facture p id ctx.user_id)
              (lock_facture p input id hash previous s)
              w) {
                attestations =
                    w.attestations ++ attestation_of p ctx.user_id id input numero hash ∷ [];
              },
        )
  unfolding commit_issue ◌>>=◌
  committed ctx id input numero hash s w f found draft first =
      rw
        (
          find_first-count (is_own_facture id ctx.user_id) (is_draft_facture p id ctx.user_id)
              w.factures f found draft,
          first,
        )
        refl

  -- The check of a row whose parts are known.
  verified :
      (ctx : AuditContext) (id : Text) (now : ℕ) (w : World D) (g : Facture D) (hash : Text)
      (c : Client)
      → find_first (is_own_facture id ctx.user_id) w.factures ≡ some g
      → truthy g.content_hash ≡ some hash
      → find_relation g.client_id w ≡ some c
      → verify_document_integrity p
          (some hash)
          (build_facture_payload p g c (find_company ctx.user_id w))
        ≡ true
      → chain_valid p ctx.user_id g hash (truthy g.previous_hash) w ≡ true
      → (verify_facture_integrity p ctx id now w).0 ≡ ok true
  unfolding verify_facture_integrity verify_locked_facture ◌>>=◌ log
  verified ctx id now w g hash c found hashed client valid linked =
      rw (found, hashed, client, valid, linked) refl

  hash_truthy :
      (v : Value D)
      → ((s : Text) → is_empty (p.sha256 s) ≡ false)
      → truthy (some (compute_content_hash p v)) ≡ some (compute_content_hash p v)
  unfolding compute_content_hash
  hash_truthy v digest = rw (digest (canonicalize p.number v)) refl

  -- Rows of other tables do not change the last hash.
  same_last :
      (u : Text) (w : World D) (rows : List Attestation) (later : List Company)
      → last_issued_hash p u (record w { attestations = rows; companies = later })
        ≡ last_issued_hash p u w
  unfolding last_issued_hash
  same_last u w rows later = refl

  -- The update that issues a draft with the hash of its content leaves a state in which the invoice
  -- passes the integrity check (its own hash, its chain hash, and the invoice before it, which is
  -- found), and passes it too if only the table of companies is replaced by any other: the row of
  -- the client and the other invoices are as the update left them. For a draft with no snapshot yet and no attestation, a company
  -- with a name and a SIRET number, a digest that is never empty, and a last issued invoice, if
  -- there is one, with a hash that is not empty.
  pub commit_issue-verify :
      (ctx : AuditContext) (id : Text) (input : IssueInput D) (numero : Text) (now : ℕ)
      (w : World D) (f : Facture D) (c : Client) (k : Company) (later : List Company)
      → find_first (is_own_facture id ctx.user_id) w.factures ≡ some f
      → is_draft_facture p id ctx.user_id f ≡ true
      → find_first (λ a. text_eq a.facture_id id) w.attestations ≡ none
      → find_relation f.client_id w ≡ some c
      → f.issuer_snapshot ≡ none
      → (is_empty k.raison_sociale || is_empty k.siret) ≡ false
      → ((s : Text) → is_empty (p.sha256 s) ≡ false)
      → truthy (last_issued_hash p ctx.user_id w) ≡ last_issued_hash p ctx.user_id w
      → let (result, w') =
          commit_issue p ctx id input numero
            (issue_hash f c k)
            (snapshot_from_company (some k))
            w in
        (result ≡ ok (last_issued_hash p ctx.user_id w))
        × ((verify_facture_integrity p ctx id now (record w' { companies = later })).0 ≡ ok true)
  unfolding lock_facture
  commit_issue-verify ctx id input numero now w f c k later found draft first client fresh named
        digest hashed =
      let hash = issue_hash f c k in
      let previous = last_issued_hash p ctx.user_id w in
      let s = snapshot_from_company (some k) in
      let locked = lock_facture p input id hash previous s f in
      let rows = w.attestations ++ attestation_of p ctx.user_id id input numero hash ∷ [] in
      let w' : World D =
        record (set_factures (is_draft_facture p id ctx.user_id)
          (lock_facture p input id hash previous s) w) { attestations = rows; companies = later } in
      let checked : (verify_facture_integrity p ctx id now w').0 ≡ ok true =
        verified ctx id now w' locked hash c
          (locked_row id ctx.user_id (lock_facture p input id hash previous s) w.factures f found
            draft (λ g. refl))
          (hash_truthy (build_facture_payload p f c (some k)) digest) client
          (own_hash p _ (build_facture_payload p f c (some k)) digest
            (locked_payload input id hash previous f c k (find_company ctx.user_id w') named fresh))
          (rw hashed (
            linked_after ctx.user_id id hash locked (lock_facture p input id hash previous s)
              (record w { attestations = rows; companies = later }) previous refl
              (same_last ctx.user_id w rows later))) in
      rw (committed ctx id input numero hash s w f found draft first) (refl, checked)
