-- ===== src/Examples/Factures.antt =====
-- The theorems on invoices at concrete inputs.
use devispropre.Base.{ℕ, ◌≡◌, refl, true, none, some, [], ◌∷◌}
use devispropre.Text.{codes, text_eq}
use devispropre.Money.{thousandths}
use devispropre.Table.{find_first, find_last_by}
use devispropre.Numbers.{build_lignes}
use devispropre.World.{FactureStatus, Facture, World}
use devispropre.World.Action.{ok}
use devispropre.World.Frozen.{Frozen}
use devispropre.Document.{snapshot_from_company}
use devispropre.Facture.{verify_facture_integrity}
use devispropre.Facture.Issue.{IssueInput, commit_issue, last_issued_hash, is_linked}
use devispropre.Facture.Locked.{frozen, settled}
use devispropre.Facture.Interleaved
use devispropre.Facture.Interleaved.{FactureRequests, idle, next, handle_all, handle_all-Frozen}
use devispropre.Facture.Chain.{issue_hash, commit_issue-verify}
use devispropre.Examples.{platform, artisan, lignes}
use devispropre.Examples.Service.{client, company, world}

abbrev draft_facture : Facture ℕ
draft_facture = record {
  id = codes "f1";
  user_id = codes "u1";
  client_id = codes "c1";
  devis_id = none;
  numero = codes "FAC-2026-0007";
  status = FactureStatus.brouillon;
  total_ht = 100000;
  total_tva = 10000;
  total_ttc = 110000;
  taux_tva = 10000;
  notes = none;
  date_echeance = some 900;
  lignes = build_lignes thousandths lignes true;
  issuer_snapshot = none;
  locked_at = none;
  content_hash = none;
  chain_hash = none;
  previous_hash = none;
  share_token_hash = none;
  share_token_enc = none;
  share_slug = none;
  issued_at = none;
  paid_at = none;
  pdf_url = none;
  pdf_archived_at = none;
  deleted_at = none;
}

-- the invoice before it, issued
abbrev issued : Facture ℕ
issued = record draft_facture {
  id = codes "f0";
  numero = codes "FAC-2026-0006";
  status = FactureStatus.emise;
  locked_at = some 3;
  issued_at = some 3;
  content_hash = some (codes "#before");
  chain_hash = some (codes "#chain");
}

abbrev billed : World ℕ
billed = record world { factures = issued ∷ draft_facture ∷ [] }

abbrev issue_input : IssueInput ℕ
issue_input = record {
  now = 5;
  token = record { raw = codes "r"; hash = codes "h"; enc = codes "e" };
  share_slug = codes "facture-fac-2026-0007";
  to_upper = λ s. s;
  render = λ f c. some (codes "pdf");
  render_attestation = λ n f c. some (codes "pdf");
  stored = true;
  others = λ w. w;
}

-- the draft is issued while it is cancelled, and then the other is paid
abbrev requests : FactureRequests ℕ
requests =
    next
      (Interleaved.issue artisan (codes "f1") issue_input
        (next (Interleaved.cancel artisan (codes "f1") 5 idle) idle))
      (next (Interleaved.pay artisan (codes "f0") 7 idle) idle)

handle_all-Frozen_example :
    Frozen frozen billed.factures (handle_all platform requests billed).factures
    × Frozen settled billed.factures (handle_all platform requests billed).factures
handle_all-Frozen_example = handle_all-Frozen platform requests billed

commit_issue-verify_example :
    let (result, w') =
      commit_issue platform artisan
        (codes "f1")
        issue_input
        (codes "ATT-1")
        (issue_hash platform draft_facture client company)
        (snapshot_from_company (some company))
        billed in
    (result ≡ ok (last_issued_hash platform (codes "u1") billed))
    × ((verify_facture_integrity platform artisan (codes "f1") 9 (record w' { companies = [] })).0
        ≡ ok true)
unfolding find_first text_eq last_issued_hash find_last_by is_linked
commit_issue-verify_example =
    commit_issue-verify platform artisan (codes "f1") issue_input (codes "ATT-1") 9 billed
      draft_facture client company [] refl refl refl refl refl refl (λ s. refl) refl
