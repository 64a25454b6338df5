-- ===== src/Devis/Immutable.antt =====
-- What the handlers of quotes are built of, and the sending of a quote, keep what stays of every quote.
use devispropre.Base.{◌≡◌, &&-true, Bool, true, Option, List}
use devispropre.Text.{Text}
use devispropre.Platform.{Platform}
use devispropre.Audit.{AuditContext}
use devispropre.World.{DevisStatus, IssuerSnapshot, Devis, World}
use devispropre.World.Frozen.{Frozen-trans, Frozen-update_many}
use devispropre.World.Immutability.{devis_status_eq}
use devispropre.World.Action.{modify}
use devispropre.World.Action.Keeps.{
  Keeps, Keeps-modify, Keeps-pure, Keeps-raise, Keeps-gets, Keeps-if, Keeps-bind, Keeps-on_error,
  Keeps-or_raise, Keeps-raise_if,
}
use devispropre.Services.{set_devis}
use devispropre.Services.Keeps.{
  Ignores, Keeps-log, Keeps-archive_pdf, Keeps-delete_archived_pdf, Keeps-assert_billing,
  Keeps-send_quota,
}
use devispropre.Devis.Send.{SendInput, lock_devis, is_draft, commit_send, send_devis}
use devispropre.Devis.Locked.{frozen, decided, Stays, draft-Stays, Kept}

pub Kept-Ignores : {D : Type 0} (xs : List (Devis D)) → Ignores (Kept xs)
Kept-Ignores xs = record { audit_free = λ w rows k. k; archive_free = λ w files k. k }

module _ {D : Type 0} (p : Platform D) (xs : List (Devis D)) where
  pub Keeps-set_devis :
      (test : Devis D → Bool) (change : Devis D → Devis D)
      → ((d : Devis D) → test d ≡ true → Stays d (change d))
      → Keeps (Kept xs) (modify (set_devis test change))
  Keeps-set_devis test change h = Keeps-modify (set_devis test change) (λ w k. (
    Frozen-trans frozen xs w.devis _ k.0
        (Frozen-update_many frozen test change w.devis (λ d e. (h d e).0)),
    Frozen-trans decided xs w.devis _ k.1
        (Frozen-update_many decided test change w.devis (λ d e. (h d e).1)),
  ))

  -- the draft that the update asks for
  draft_only :
      (id u : Text) (d : Devis D)
      → is_draft p id u d ≡ true
      → devis_status_eq d.status DevisStatus.brouillon ≡ true
  draft_only id u d e = (&&-true _ _ e).1

  Keeps-lock :
      (ctx : AuditContext) (id : Text) (input : SendInput D) (hash : Text)
      (s : Option IssuerSnapshot)
      → Keeps
          (Kept xs)
          (modify (set_devis (is_draft p id ctx.user_id) (lock_devis p input id hash s)))
  Keeps-lock ctx id input hash s =
      Keeps-set_devis (is_draft p id ctx.user_id) (lock_devis p input id hash s)
        (λ d e. draft-Stays d (lock_devis p input id hash s d) (draft_only id ctx.user_id d e))

  Keeps-commit_send :
      (ctx : AuditContext) (id : Text) (input : SendInput D) (hash : Text)
      (s : Option IssuerSnapshot)
      → Keeps (Kept xs) (commit_send p ctx id input hash s)
  unfolding commit_send
  Keeps-commit_send ctx id input hash s =
      Keeps-on_error _ _
        (Keeps-bind _ _ (Keeps-gets _) (λ n. Keeps-bind _ _ (Keeps-lock ctx id input hash s) (λ _.
          Keeps-bind _ _
            (Keeps-if _ _ _
              (Keeps-bind _ _ (Keeps-delete_archived_pdf p (Kept-Ignores xs) _)
                (λ _. Keeps-raise _))
              (Keeps-pure tt))
            (λ _.
              Keeps-bind _ _ (Keeps-log p (Kept-Ignores xs) ctx _ _)
                (λ _. Keeps-log p (Kept-Ignores xs) ctx _ _)))))
        (Keeps-delete_archived_pdf p (Kept-Ignores xs) _)

  pub Keeps-send_devis :
      (ctx : AuditContext) (id : Text) (input : SendInput D)
      → ((w : World D) → Kept xs w → Kept xs (input.others w))
      → Keeps (Kept xs) (send_devis p ctx id input)
  unfolding send_devis
  Keeps-send_devis ctx id input h =
      Keeps-bind _ _ (Keeps-assert_billing p (Kept-Ignores xs) _) (λ _.
        Keeps-bind _ _ (Keeps-gets _) (λ o. Keeps-bind _ _ (Keeps-or_raise o _) (λ owner.
          Keeps-bind _ _ (Keeps-send_quota p (Kept-Ignores xs) _ _ _) (λ _.
            Keeps-bind _ _ (Keeps-gets _) (λ found.
              Keeps-bind _ _ (Keeps-or_raise found _) (λ devis.
                Keeps-bind _ _ (Keeps-gets _) (λ of_devis.
                  Keeps-bind _ _ (Keeps-or_raise of_devis _) (λ client.
                    Keeps-bind _ _ (Keeps-raise_if _ _) (λ _.
                      Keeps-bind _ _ (Keeps-gets _) (λ company.
                        Keeps-bind _ _ (Keeps-or_raise _ _) (λ pdf.
                          Keeps-bind _ _ (Keeps-archive_pdf p (Kept-Ignores xs) _ _ _) (λ _.
                            Keeps-bind _ _ (Keeps-modify _ h)
                              (λ _. Keeps-commit_send ctx id input _ _)))))))))))))
