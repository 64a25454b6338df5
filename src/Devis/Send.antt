-- ===== src/Devis/Send.antt =====
-- `sendDevis`: the quote is hashed, its PDF archived, and the row locked by one update that asks
-- again for a draft.
use devispropre.Base.{
  ℕ, Bool, not, ◌&&◌, Option, none, some, List, [], ◌∷◌, ◌++◌, if◌then◌else◌, ◌==◌,
}
use devispropre.Text.{Text, codes}
use devispropre.Table.{count}
use devispropre.Platform.{Platform}
use devispropre.Accounts.{Error}
use devispropre.Audit
use devispropre.Audit.{AuditContext, AuditParams, Meta}
use devispropre.Document.{
  snapshot_from_company, resolve_issuer_company, build_devis_payload, compute_content_hash,
  compute_chain_hash,
}
use devispropre.World.{DevisStatus, IssuerSnapshot, Company, Client, Devis, World}
use devispropre.World.Action.{
  Action, pure, raise, gets, or_raise, ◌>>=◌, ◌>>◌, raise_if, modify, on_error,
}
use devispropre.World.Immutability.{devis_status_eq}
use devispropre.Services.{
  find_user, find_company, find_devis, find_relation, is_devis, assert_billing_not_past_due,
  assert_free_send_quota, archive_pdf, delete_archived_pdf, wait_for, log, set_devis, devis_pdf_key,
}

-- `issueShareTokenPair()`
pub record ShareToken : Type 0 where
  pub raw : Text
  pub hash : Text
  pub enc : Text

-- What a call of `sendDevis` takes from outside: `render` is `generateDevisPdf` (`none` where it
-- throws), `share_slug` the answer of `ensureUniqueShareSlug`, and `others` what happens while
-- the file is made and stored.
pub record SendInput (D : Type 0) : Type 0 where
  pub now : ℕ
  pub month_start : ℕ
  pub token : ShareToken
  pub share_slug : Text
  pub render : Devis D → Option Company → Option Text
  pub stored : Bool
  pub others : World D → World D

-- `ROUTES.apiArchiveDevis(id)`
abbrev pub api_archive_devis : Text → Text
api_archive_devis id = codes "/api/archives/devis/" ++ id

module _ {D : Type 0} (p : Platform D) where
  abbrev pub content_hash_of : Devis D → Client → Option Company → Text
  content_hash_of devis client company =
      compute_content_hash p (build_devis_payload p devis client company)

  -- The change of the update that locks the row.
  unfoldable pub lock_devis : SendInput D → Text → Text → Option IssuerSnapshot → Devis D → Devis D
  lock_devis input id content_hash snapshot d = record d {
    status = DevisStatus.envoye;
    locked_at = some input.now;
    sent_at = some input.now;
    content_hash = some content_hash;
    chain_hash = some (compute_chain_hash p content_hash none);
    share_token_hash = some input.token.hash;
    share_token_enc = some input.token.enc;
    share_slug = some input.share_slug;
    pdf_url = some (api_archive_devis id);
    pdf_archived_at = some input.now;
    issuer_snapshot = elim snapshot [ none ↦ d.issuer_snapshot | some s ↦ some s ];
  }

  -- The row as the PDF shows it.
  abbrev locked_for_pdf : SendInput D → Text → Devis D → Devis D
  locked_for_pdf input content_hash d = record d {
    status = DevisStatus.envoye;
    locked_at = some input.now;
    sent_at = some input.now;
    content_hash = some content_hash;
    chain_hash = some (compute_chain_hash p content_hash none);
    share_token_hash = some input.token.hash;
    share_token_enc = some input.token.enc;
  }

  abbrev pub is_draft : Text → Text → Devis D → Bool
  is_draft id user_id d = is_devis id user_id d && devis_status_eq d.status DevisStatus.brouillon

  abbrev params : Audit.AuditAction → Text → Text → List (Text × Meta D) → AuditParams D
  params action id content_hash metadata = record {
    action = action;
    entity_type = codes "devis";
    entity_id = id;
    devis_id = some id;
    facture_id = none;
    metadata = metadata;
    content_hash = some content_hash;
  }

  -- the second `try` of `sendDevis`
  unfoldable pub commit_send :
      AuditContext → Text → SendInput D → Text → Option IssuerSnapshot → Action D (Unit {0})
  commit_send ctx id input content_hash snapshot =
      on_error
        (do
          n ← gets (λ w. count (is_draft id ctx.user_id) w.devis)
          modify (set_devis (is_draft id ctx.user_id) (lock_devis input id content_hash snapshot))
          (if n == 0
              then delete_archived_pdf p (devis_pdf_key ctx.user_id id) >> raise Error.immutability
              else pure tt)
          log p ctx
              (params Audit.lock id content_hash (
                (codes "chainHash", Audit.text (compute_chain_hash p content_hash none))
                ∷ (codes "pdfUrl", Audit.text (api_archive_devis id))
                ∷ []))
              input.now
          log p ctx
              (params Audit.send id content_hash (
                (codes "channel", Audit.text (codes "whatsapp"))
                ∷ (codes "pdfUrl", Audit.text (api_archive_devis id))
                ∷ []))
              input.now)
        (delete_archived_pdf p (devis_pdf_key ctx.user_id id))

  unfoldable pub send_devis : AuditContext → Text → SendInput D → Action D (Unit {0})
  send_devis ctx id input = do
    assert_billing_not_past_due ctx.user_id
    owner ← or_raise (← gets (find_user ctx.user_id)) Error.forbidden
    assert_free_send_quota ctx.user_id owner.plan input.month_start
    devis ← or_raise (← gets (find_devis id ctx.user_id)) Error.error
    client ← or_raise (← gets (find_relation devis.client_id)) Error.error
    raise_if (not (devis_status_eq devis.status DevisStatus.brouillon)) Error.immutability
    company ← gets (find_company ctx.user_id)
    let snapshot = snapshot_from_company company
    let content_hash = content_hash_of devis client company
    pdf ←
        or_raise
          (input.render (locked_for_pdf input content_hash devis)
            (resolve_issuer_company snapshot company))
          Error.object_storage
    archive_pdf (devis_pdf_key ctx.user_id id) pdf input.stored
    wait_for input.others
    commit_send ctx id input content_hash snapshot
