-- ===== src/Devis/Interleaved.antt =====
-- Requests on quotes that interleave: wherever a handler waits, other requests may run.
use devispropre.Base.{ℕ, Bool, Option, List}
use devispropre.Text.{Text}
use devispropre.Platform.{Platform}
use devispropre.Audit.{AuditContext}
use devispropre.World.{Devis, World}
use devispropre.Devis.Draft.{
  Clock, DevisInput, GuestDraft, create_devis, claim_guest_draft_as_devis,
}
use devispropre.Devis.Send.{SendInput, send_devis}
use devispropre.Devis.Sign.{Choice, Acceptance, SignInput, transition_devis_status_from_public}
use devispropre.Devis.Status.{transition_devis_status, soft_delete_devis}
use devispropre.World.Frozen.{Frozen, Frozen-refl}
use devispropre.Devis.Locked.{frozen, decided, Kept}
use devispropre.Devis.Immutable.{Keeps-send_devis}
use devispropre.Devis.Decided.{
  Keeps-create_devis, Keeps-claim, Keeps-transition_from_public, Keeps-transition,
  Keeps-soft_delete,
}

-- A request, with the requests that run while it waits.
mutual
  pub data Request (D : Type 0) : Type 0 where
    create : AuditContext → DevisInput D → Bool → Clock → Text → Requests D → Request D
    claim : AuditContext → GuestDraft D → Clock → Text → Text → Requests D → Request D
    send : AuditContext → Text → SendInput D → Requests D → Request D
    answer :
        AuditContext
        → Text
        → Text
        → Choice
        → Option Acceptance
        → SignInput D
        → Requests D
        → Request D
    decide : AuditContext → Text → Choice → ℕ → Requests D → Request D
    delete : AuditContext → Text → ℕ → Requests D → Request D

  pub data Requests (D : Type 0) : Type 0 where
    idle : Requests D
    next : Request D → Requests D → Requests D

module _ {D : Type 0} (p : Platform D) where
  unfoldable mutual
    pub run : Request D → World D → World D
    run (create ctx input skip clock id others) w =
        (create_devis p ctx input skip clock id (run_all others) w).1
    run (claim ctx draft clock client_id id others) w =
        (claim_guest_draft_as_devis p ctx draft clock client_id id (run_all others) w).1
    run (send ctx id input others) w =
        (send_devis p ctx id (record input { others = run_all others }) w).1
    run (answer ctx id raw choice acceptance input others) w =
        (transition_devis_status_from_public p ctx id raw choice acceptance
          (record input { others = run_all others }) w).1
    run (decide ctx id choice now others) w =
        (transition_devis_status p ctx id choice now (run_all others) w).1
    run (delete ctx id now others) w = (soft_delete_devis p ctx id now (run_all others) w).1

    pub run_all : Requests D → World D → World D
    run_all idle w = w
    run_all (next r rs) w = run_all rs (run r w)

  module _ (xs : List (Devis D)) where
    mutual
      unfolding run run_all

      run-Kept : (r : Request D) (w : World D) → Kept xs w → Kept xs (run r w)
      run-Kept (create ctx input skip clock id others) w k =
          (Keeps-create_devis p xs ctx input skip clock id (run_all others)
              (run_all-Kept others)).at
            w k
      run-Kept (claim ctx draft clock client_id id others) w k =
          (Keeps-claim p xs ctx draft clock client_id id (run_all others) (run_all-Kept others)).at
            w k
      run-Kept (send ctx id input others) w k =
          (Keeps-send_devis p xs ctx id (record input { others = run_all others })
              (run_all-Kept others)).at
            w k
      run-Kept (answer ctx id raw choice acceptance input others) w k =
          (Keeps-transition_from_public p xs ctx id raw choice acceptance
              (record input { others = run_all others }) (run_all-Kept others)).at
            w k
      run-Kept (decide ctx id choice now others) w k =
          (Keeps-transition p xs ctx id choice now (run_all others) (run_all-Kept others)).at w k
      run-Kept (delete ctx id now others) w k =
          (Keeps-soft_delete p xs ctx id now (run_all others) (run_all-Kept others)).at w k

      run_all-Kept : (rs : Requests D) (w : World D) → Kept xs w → Kept xs (run_all rs w)
      run_all-Kept idle w k = k
      run_all-Kept (next r rs) w k = run_all-Kept rs (run r w) (run-Kept r w k)

  -- Whatever requests run, one after the other or while another waits, among creating, claiming a
  -- guest's draft, sending, answering by the link, deciding in the dashboard and deleting (not
  -- editing), the row of every quote that was sent stays, at most marked as deleted, with its
  -- number, client identifier, totals, rate, notes, validity, lines, issuer snapshot, hashes, dates
  -- of lock and sending, and token as they were; and where it was accepted, refused or invoiced,
  -- its status, the date and the signature of that decision too.
  pub run_all-Frozen :
      (rs : Requests D) (w : World D)
      → Frozen frozen w.devis (run_all rs w).devis × Frozen decided w.devis (run_all rs w).devis
  run_all-Frozen rs w =
      run_all-Kept w.devis rs w (Frozen-refl frozen w.devis, Frozen-refl decided w.devis)
