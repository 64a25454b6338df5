-- ===== src/Facture/Immutable.antt =====
-- The handlers of invoices keep the content of every issued invoice.
use devispropre.Base.{ℕ, ◌≡◌, refl, &&-true, Bool, true, Option, some, List, ◌∷◌, [], ◌++◌}
use devispropre.Text.{Text, text_eq}
use devispropre.Platform.{Platform}
use devispropre.Audit.{AuditContext}
use devispropre.World.{FactureStatus, IssuerSnapshot, Company, Devis, Facture, World}
use devispropre.World.Frozen.{Persists-refl, Frozen-trans, Frozen-append, Frozen-update_many}
use devispropre.World.Action.{modify}
use devispropre.World.Action.Keeps.{
  Keeps, Keeps-modify, Keeps-pure, Keeps-gets, Keeps-bind, Keeps-on_error, Keeps-or_raise,
  Keeps-raise_if, Keeps-transaction,
}
use devispropre.Services.{set_factures}
use devispropre.Services.Keeps.{
  Keeps-log, Keeps-archive_pdf, Keeps-delete_archived_pdf, Keeps-assert_billing, Keeps-facturation,
}
use devispropre.Facture.{is_issued, mark_facture_paid, soft_delete_facture, cancel_facture}
use devispropre.Facture.Create.{take_facture_numero, insert_facture, create_facture_from_devis}
use devispropre.Facture.Issue.{
  IssueInput, lock_facture, is_draft_facture, delete_both, archive_both, commit_issue,
  issue_facture,
}
use devispropre.Facture.Locked.{
  frozen, settled, Stays, draft-Stays, issued-Stays, annulee-Stays, Kept, Kept-Ignores,
}

module _ {D : Type 0} (p : Platform D) (xs : List (Facture D)) where
  Keeps-set_factures :
      (test : Facture D → Bool) (change : Facture D → Facture D)
      → ((f : Facture D) → test f ≡ true → Stays f (change f))
      → Keeps (Kept xs) (modify (set_factures test change))
  Keeps-set_factures test change h = Keeps-modify (set_factures test change) (λ w k. (
    Frozen-trans frozen xs w.factures _ k.0
        (Frozen-update_many frozen test change w.factures (λ f e. (h f e).0)),
    Frozen-trans settled xs w.factures _ k.1
        (Frozen-update_many settled test change w.factures (λ f e. (h f e).1)),
  ))

  Keeps-take_facture_numero : (u : Text) (y : ℕ) → Keeps (Kept xs) (take_facture_numero p u y)
  unfolding take_facture_numero
  Keeps-take_facture_numero u y = record { at = λ w k. k }

  Keeps-add_facture :
      (f : Facture D) → Keeps (Kept xs) (modify (λ w. record w { factures = w.factures ++ f ∷ [] }))
  Keeps-add_facture f = Keeps-modify _ (λ w k. (
    Frozen-trans frozen xs w.factures _ k.0 (Frozen-append frozen w.factures (f ∷ [])),
    Frozen-trans settled xs w.factures _ k.1 (Frozen-append settled w.factures (f ∷ [])),
  ))

  Keeps-insert_facture :
      (ctx : AuditContext) (devis_id : Text) (year : ℕ) (id : Text) (d : Devis D)
      → Keeps (Kept xs) (insert_facture p ctx devis_id year id d)
  unfolding insert_facture
  Keeps-insert_facture ctx devis_id year id d = Keeps-transaction _ (
      Keeps-bind _ _ (Keeps-take_facture_numero _ _) (λ numero.
        Keeps-bind _ _ (Keeps-gets _) (λ linked. Keeps-bind _ _ (Keeps-raise_if _ _) (λ _.
          Keeps-bind _ _ (Keeps-add_facture _)
            (λ _. Keeps-bind _ _ (Keeps-modify _ (λ w k. k)) (λ _. Keeps-pure _))))))

  pub Keeps-create :
      (ctx : AuditContext) (devis_id : Text) (now year : ℕ) (id : Text) (others : World D → World D)
      → ((w : World D) → Kept xs w → Kept xs (others w))
      → Keeps (Kept xs) (create_facture_from_devis p ctx devis_id now year id others)
  unfolding create_facture_from_devis
  Keeps-create ctx devis_id now year id others h =
      Keeps-bind _ _ (Keeps-assert_billing p (Kept-Ignores xs) _) (λ _.
        Keeps-bind _ _ (Keeps-facturation p (Kept-Ignores xs) _) (λ _.
          Keeps-bind _ _ (Keeps-gets _) (λ o. Keeps-bind _ _ (Keeps-or_raise o _) (λ d.
            Keeps-bind _ _ (Keeps-gets _) (λ linked. Keeps-bind _ _ (Keeps-gets _) (λ found.
              Keeps-bind _ _ (Keeps-or_raise found _) (λ client.
                Keeps-bind _ _ (Keeps-raise_if _ _) (λ _. Keeps-bind _ _ (Keeps-raise_if _ _) (λ _.
                  Keeps-bind _ _ (Keeps-modify _ h) (λ _.
                    Keeps-bind _ _ (Keeps-insert_facture ctx _ _ _ _) (λ f.
                      Keeps-bind _ _ (Keeps-log p (Kept-Ignores xs) ctx _ _) (λ _.
                        Keeps-bind _ _ (Keeps-log p (Kept-Ignores xs) ctx _ _)
                          (λ _. Keeps-pure _)))))))))))))

  Keeps-lock :
      (ctx : AuditContext) (id : Text) (input : IssueInput D) (hash : Text) (previous : Option Text)
      (s : Option IssuerSnapshot)
      → Keeps (Kept xs) (
          modify (
            set_factures
              (is_draft_facture p id ctx.user_id)
              (lock_facture p input id hash previous s)))
  Keeps-lock ctx id input hash previous s =
      Keeps-set_factures (is_draft_facture p id ctx.user_id)
        (lock_facture p input id hash previous s) (λ f e. draft-Stays f _ (&&-true _ _ e).1)

  Keeps-delete_both : (u id : Text) → Keeps (Kept xs) (delete_both p u id)
  unfolding delete_both
  Keeps-delete_both u id =
      Keeps-bind _ _ (Keeps-delete_archived_pdf p (Kept-Ignores xs) _)
        (λ _. Keeps-delete_archived_pdf p (Kept-Ignores xs) _)

  Keeps-archive_both :
      (u id : Text) (input : IssueInput D) (numero : Text) (f : Facture D) (c : Option Company)
      → Keeps (Kept xs) (archive_both p u id input numero f c)
  unfolding archive_both
  Keeps-archive_both u id input numero f c =
      Keeps-on_error _ _
        (Keeps-bind _ _ (Keeps-or_raise _ _) (λ pdf.
          Keeps-bind _ _ (Keeps-archive_pdf p (Kept-Ignores xs) _ _ _) (λ _.
            Keeps-bind _ _ (Keeps-or_raise _ _)
              (λ attestation. Keeps-archive_pdf p (Kept-Ignores xs) _ _ _))))
        (Keeps-delete_both u id)

  Keeps-commit_issue :
      (ctx : AuditContext) (id : Text) (input : IssueInput D) (numero hash : Text)
      (s : Option IssuerSnapshot)
      → Keeps (Kept xs) (commit_issue p ctx id input numero hash s)
  unfolding commit_issue
  Keeps-commit_issue ctx id input numero hash s = Keeps-transaction _ (
      Keeps-bind _ _ (Keeps-gets _) (λ previous. Keeps-bind _ _ (Keeps-gets _) (λ n.
        Keeps-bind _ _ (Keeps-lock ctx id input hash previous s) (λ _.
          Keeps-bind _ _ (Keeps-raise_if _ _) (λ _. Keeps-bind _ _ (Keeps-gets _) (λ twice.
            Keeps-bind _ _ (Keeps-raise_if _ _)
              (λ _. Keeps-bind _ _ (Keeps-modify _ (λ w k. k)) (λ _. Keeps-pure previous))))))))

  pub Keeps-issue :
      (ctx : AuditContext) (id : Text) (input : IssueInput D)
      → ((w : World D) → Kept xs w → Kept xs (input.others w))
      → Keeps (Kept xs) (issue_facture p ctx id input)
  unfolding issue_facture
  Keeps-issue ctx id input h = Keeps-bind _ _ (Keeps-assert_billing p (Kept-Ignores xs) _) (λ _.
      Keeps-bind _ _ (Keeps-facturation p (Kept-Ignores xs) _) (λ _.
        Keeps-bind _ _ (Keeps-gets _) (λ o. Keeps-bind _ _ (Keeps-or_raise o _) (λ f.
          Keeps-bind _ _ (Keeps-gets _) (λ found. Keeps-bind _ _ (Keeps-or_raise found _) (λ client.
            Keeps-bind _ _ (Keeps-raise_if _ _) (λ _. Keeps-bind _ _ (Keeps-gets _) (λ company.
              Keeps-bind _ _ (Keeps-archive_both _ _ _ _ _ _) (λ _.
                Keeps-bind _ _ (Keeps-modify _ h) (λ _.
                  Keeps-bind _ _
                    (Keeps-on_error _ _ (Keeps-commit_issue ctx id input _ _ _)
                      (Keeps-delete_both _ _))
                    (λ previous.
                      Keeps-bind _ _ (Keeps-log p (Kept-Ignores xs) ctx _ _)
                        (λ _. Keeps-log p (Kept-Ignores xs) ctx _ _))))))))))))

  pub Keeps-pay :
      (ctx : AuditContext) (id : Text) (now : ℕ) (others : World D → World D)
      → ((w : World D) → Kept xs w → Kept xs (others w))
      → Keeps (Kept xs) (mark_facture_paid p ctx id now others)
  unfolding mark_facture_paid
  Keeps-pay ctx id now others h = Keeps-bind _ _ (Keeps-facturation p (Kept-Ignores xs) _) (λ _.
      Keeps-bind _ _ (Keeps-gets _) (λ o. Keeps-bind _ _ (Keeps-or_raise o _) (λ f.
        Keeps-bind _ _ (Keeps-raise_if _ _) (λ _. Keeps-bind _ _ (Keeps-modify _ h) (λ _.
          Keeps-bind _ _ (Keeps-gets _) (λ n.
            Keeps-bind _ _
              (Keeps-set_factures (is_issued p id ctx.user_id)
                (λ f. record f { status = FactureStatus.payee; paid_at = some now })
                (λ f e. issued-Stays f _ (&&-true _ _ e).1 refl refl))
              (λ _.
                Keeps-bind _ _ (Keeps-raise_if _ _)
                  (λ _. Keeps-log p (Kept-Ignores xs) ctx _ _))))))))

  pub Keeps-delete :
      (ctx : AuditContext) (id : Text) (now : ℕ) (others : World D → World D)
      → ((w : World D) → Kept xs w → Kept xs (others w))
      → Keeps (Kept xs) (soft_delete_facture p ctx id now others)
  unfolding soft_delete_facture frozen settled
  Keeps-delete ctx id now others h = Keeps-bind _ _ (Keeps-gets _) (λ o.
      Keeps-bind _ _ (Keeps-or_raise o _) (λ f. Keeps-bind _ _ (Keeps-raise_if _ _) (λ _.
        Keeps-bind _ _ (Keeps-modify _ h) (λ _.
          Keeps-bind _ _
            (Keeps-set_factures (λ f. text_eq f.id id) (λ f. record f { deleted_at = some now })
              (λ f _. (Persists-refl (frozen f), Persists-refl (settled f))))
            (λ _. Keeps-log p (Kept-Ignores xs) ctx _ _)))))

  pub Keeps-cancel :
      (ctx : AuditContext) (id : Text) (now : ℕ) (others : World D → World D)
      → ((w : World D) → Kept xs w → Kept xs (others w))
      → Keeps (Kept xs) (cancel_facture p ctx id now others)
  unfolding cancel_facture
  Keeps-cancel ctx id now others h = Keeps-bind _ _ (Keeps-gets _) (λ o.
      Keeps-bind _ _ (Keeps-or_raise o _) (λ f. Keeps-bind _ _ (Keeps-raise_if _ _) (λ _.
        Keeps-bind _ _ (Keeps-modify _ h) (λ _.
          Keeps-bind _ _
            (Keeps-set_factures (λ f. text_eq f.id id)
              (λ f. record f { status = FactureStatus.annulee }) (λ f _. annulee-Stays f))
            (λ _. Keeps-log p (Kept-Ignores xs) ctx _ _)))))
