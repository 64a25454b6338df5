-- ===== src/Facture/Interleaved.antt =====
-- Requests on invoices that interleave: wherever a handler waits, other requests may run.
use devispropre.Base.{ℕ, List}
use devispropre.Text.{Text}
use devispropre.Platform.{Platform}
use devispropre.Audit.{AuditContext}
use devispropre.World.{Facture, World}
use devispropre.World.Frozen.{Frozen, Frozen-refl}
use devispropre.Facture.{mark_facture_paid, soft_delete_facture, cancel_facture}
use devispropre.Facture.Create.{create_facture_from_devis}
use devispropre.Facture.Issue.{IssueInput, issue_facture}
use devispropre.Facture.Locked.{frozen, settled, Kept}
use devispropre.Facture.Immutable.{Keeps-create, Keeps-issue, Keeps-pay, Keeps-delete, Keeps-cancel}

-- A request, with the requests that run while it waits.
mutual
  pub data FactureRequest (D : Type 0) : Type 0 where
    convert : AuditContext → Text → ℕ → ℕ → Text → FactureRequests D → FactureRequest D
    issue : AuditContext → Text → IssueInput D → FactureRequests D → FactureRequest D
    pay delete cancel : AuditContext → Text → ℕ → FactureRequests D → FactureRequest D

  pub data FactureRequests (D : Type 0) : Type 0 where
    idle : FactureRequests D
    next : FactureRequest D → FactureRequests D → FactureRequests D

module _ {D : Type 0} (p : Platform D) where
  unfoldable mutual
    pub handle : FactureRequest D → World D → World D
    handle (convert ctx devis_id now year id others) w =
        (create_facture_from_devis p ctx devis_id now year id (handle_all others) w).1
    handle (issue ctx id input others) w =
        (issue_facture p ctx id (record input { others = handle_all others }) w).1
    handle (pay ctx id now others) w = (mark_facture_paid p ctx id now (handle_all others) w).1
    handle (delete ctx id now others) w = (soft_delete_facture p ctx id now (handle_all others) w).1
    handle (cancel ctx id now others) w = (cancel_facture p ctx id now (handle_all others) w).1

    pub handle_all : FactureRequests D → World D → World D
    handle_all idle w = w
    handle_all (next r rs) w = handle_all rs (handle r w)

  module _ (xs : List (Facture D)) where
    mutual
      unfolding handle handle_all

      handle-Kept : (r : FactureRequest D) (w : World D) → Kept xs w → Kept xs (handle r w)
      handle-Kept (convert ctx devis_id now year id others) w k =
          (Keeps-create p xs ctx devis_id now year id (handle_all others)
              (handle_all-Kept others)).at
            w k
      handle-Kept (issue ctx id input others) w k =
          (Keeps-issue p xs ctx id (record input { others = handle_all others })
              (handle_all-Kept others)).at
            w k
      handle-Kept (pay ctx id now others) w k =
          (Keeps-pay p xs ctx id now (handle_all others) (handle_all-Kept others)).at w k
      handle-Kept (delete ctx id now others) w k =
          (Keeps-delete p xs ctx id now (handle_all others) (handle_all-Kept others)).at w k
      handle-Kept (cancel ctx id now others) w k =
          (Keeps-cancel p xs ctx id now (handle_all others) (handle_all-Kept others)).at w k

      handle_all-Kept :
          (rs : FactureRequests D) (w : World D) → Kept xs w → Kept xs (handle_all rs w)
      handle_all-Kept idle w k = k
      handle_all-Kept (next r rs) w k = handle_all-Kept rs (handle r w) (handle-Kept r w k)

  -- Whatever requests on invoices run, one after the other or while another waits (converting a
  -- quote, issuing, paying, deleting, cancelling), the row of every invoice that was no draft stays,
  -- at most marked as paid, cancelled or deleted, with its number, client identifier, totals, rate,
  -- notes, due date, lines, issuer snapshot, hashes, dates of issue and lock, and token as they were;
  -- and where it was paid or cancelled, it stays one of the two, with the same date of payment.
  pub handle_all-Frozen :
      (rs : FactureRequests D) (w : World D)
      → Frozen frozen w.factures (handle_all rs w).factures
        × Frozen settled w.factures (handle_all rs w).factures
  handle_all-Frozen rs w =
      handle_all-Kept w.factures rs w
        (Frozen-refl frozen w.factures, Frozen-refl settled w.factures)
