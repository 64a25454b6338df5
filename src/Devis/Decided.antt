-- ===== src/Devis/Decided.antt =====
-- The creation, the acceptance, the refusal, the check and the deletion of a quote keep
-- what stays of every quote.
use devispropre.Base.{ℕ, ◌≡◌, refl, &&-true, Bool, true, Option, some, List, ◌∷◌, ◌++◌, []}
use devispropre.Text.{Text, text_eq}
use devispropre.Services.{set_devis}
use devispropre.Platform.{Platform}
use devispropre.Accounts.{Plan}
use devispropre.Audit.{AuditContext}
use devispropre.World.{DevisStatus, Devis, World}
use devispropre.World.Frozen.{Persists-refl, Frozen-trans, Frozen-append}
use devispropre.World.Immutability.{devis_status_eq}
use devispropre.World.Action.{modify}
use devispropre.World.Action.Keeps.{
  Keeps, Keeps-modify, Keeps-pure, Keeps-raise, Keeps-gets, Keeps-if, Keeps-bind, Keeps-or_raise,
  Keeps-raise_if, Keeps-transaction,
}
use devispropre.Devis.Draft.{
  Clock, DevisInput, GuestDraft, take_numero, insert_devis, create_devis, leave_vat,
  claim_guest_draft_as_devis,
}
use devispropre.Devis.Sign.{
  Acceptance, Choice, accepte, refuse, SignInput, is_signable, refuse_devis, sign_devis,
  refuse_from_public, accept_from_public, transition_devis_status_from_public,
}
use devispropre.Devis.Status.{is_sent, decide, transition_devis_status, soft_delete_devis}
use devispropre.Devis.Locked.{frozen, decided, sent-Stays, Kept}
use devispropre.Services.Keeps.{
  Keeps-log, Keeps-archive_pdf, Keeps-delete_archived_pdf, Keeps-assert_billing, Keeps-quota,
}
use devispropre.Devis.Immutable.{Kept-Ignores, Keeps-set_devis}

module _ {D : Type 0} (p : Platform D) (xs : List (Devis D)) where
  -- a test that only quotes that wait for their client pass
  abbrev OnlySent : (Devis D → Bool) → Type 0
  OnlySent test = (d : Devis D) → test d ≡ true → devis_status_eq d.status DevisStatus.envoye ≡ true

  signable_only : (id u raw : Text) → OnlySent (is_signable p id u raw)
  signable_only id u raw d e = (&&-true _ _ (&&-true _ _ e).1).0

  sent_only : (id u : Text) → OnlySent (is_sent p id u)
  sent_only id u d e = (&&-true _ _ e).1

  Keeps-take_numero : (u : Text) (y : ℕ) → Keeps (Kept xs) (take_numero p u y)
  unfolding take_numero
  Keeps-take_numero u y = record { at = λ w k. k }

  Keeps-add_devis :
      (d : Devis D) → Keeps (Kept xs) (modify (λ w. record w { devis = w.devis ++ d ∷ [] }))
  Keeps-add_devis d = Keeps-modify _ (λ w k. (
    Frozen-trans frozen xs w.devis _ k.0 (Frozen-append frozen w.devis (d ∷ [])),
    Frozen-trans decided xs w.devis _ k.1 (Frozen-append decided w.devis (d ∷ [])),
  ))

  Keeps-insert_devis :
      (ctx : AuditContext) (input : DevisInput D) (skip : Bool) (plan : Plan) (app : Bool)
      (clock : Clock) (id : Text)
      → Keeps (Kept xs) (insert_devis p ctx input skip plan app clock id)
  unfolding insert_devis
  Keeps-insert_devis ctx input skip plan app clock id =
      Keeps-bind _ _ (Keeps-if skip _ _ (Keeps-pure tt) (Keeps-quota p (Kept-Ignores xs) _ _ _))
        (λ _. Keeps-bind _ _ (Keeps-gets _) (λ found.
          Keeps-bind _ _ (Keeps-or_raise found _) (λ client.
            Keeps-bind _ _ (Keeps-take_numero _ _)
              (λ numero. Keeps-bind _ _ (Keeps-add_devis _) (λ _. Keeps-pure _)))))

  pub Keeps-create_devis :
      (ctx : AuditContext) (input : DevisInput D) (skip : Bool) (clock : Clock) (id : Text)
      (others : World D → World D)
      → ((w : World D) → Kept xs w → Kept xs (others w))
      → Keeps (Kept xs) (create_devis p ctx input skip clock id others)
  unfolding create_devis
  Keeps-create_devis ctx input skip clock id others h = Keeps-bind _ _ (Keeps-gets _) (λ o.
      Keeps-bind _ _ (Keeps-or_raise o _) (λ user.
        Keeps-bind _ _ (Keeps-assert_billing p (Kept-Ignores xs) _) (λ _.
          Keeps-bind _ _ (Keeps-if skip _ _ (Keeps-pure tt) (Keeps-quota p (Kept-Ignores xs) _ _ _))
            (λ _. Keeps-bind _ _ (Keeps-gets _) (λ company. Keeps-bind _ _ (Keeps-modify _ h) (λ _.
              Keeps-bind _ _ (Keeps-transaction _ (Keeps-insert_devis _ _ _ _ _ _ _)) (λ devis.
                Keeps-bind _ _ (Keeps-log p (Kept-Ignores xs) ctx _ _) (λ _. Keeps-pure _))))))))

  Keeps-leave_vat : (u : Text) → Keeps (Kept xs) (leave_vat p u)
  unfolding leave_vat
  Keeps-leave_vat u = Keeps-modify _ (λ w k. k)

  pub Keeps-claim :
      (ctx : AuditContext) (draft : GuestDraft D) (clock : Clock) (client_id id : Text)
      (others : World D → World D)
      → ((w : World D) → Kept xs w → Kept xs (others w))
      → Keeps (Kept xs) (claim_guest_draft_as_devis p ctx draft clock client_id id others)
  unfolding claim_guest_draft_as_devis
  Keeps-claim ctx draft clock client_id id others h =
      Keeps-bind _ _ (Keeps-modify _ (λ w k. k)) (λ _.
        Keeps-bind _ _ (Keeps-if _ _ _ (Keeps-pure tt) (Keeps-leave_vat _))
          (λ _. Keeps-create_devis ctx _ true clock id others h))

  Keeps-refuse :
      (test : Devis D → Bool) (now : ℕ)
      → OnlySent test
      → Keeps (Kept xs) (modify (set_devis test (refuse_devis p now)))
  Keeps-refuse test now only =
      Keeps-set_devis p xs test (refuse_devis p now)
        (λ d e. sent-Stays d (refuse_devis p now d) (only d e) refl refl)

  Keeps-refuse_from_public :
      (ctx : AuditContext) (id raw : Text) (d : Devis D) (input : SignInput D)
      → ((w : World D) → Kept xs w → Kept xs (input.others w))
      → Keeps (Kept xs) (refuse_from_public p ctx id raw d input)
  unfolding refuse_from_public
  Keeps-refuse_from_public ctx id raw d input h = Keeps-bind _ _ (Keeps-modify _ h) (λ _.
      Keeps-bind _ _ (Keeps-gets _) (λ n.
        Keeps-bind _ _
          (Keeps-refuse (is_signable p id ctx.user_id raw) input.now
            (signable_only id ctx.user_id raw))
          (λ _. Keeps-bind _ _ (Keeps-raise_if _ _) (λ _. Keeps-log p (Kept-Ignores xs) ctx _ _))))

  Keeps-sign :
      (test : Devis D → Bool) (now : ℕ) (a : Acceptance) (evidence hash : Text)
      → OnlySent test
      → Keeps (Kept xs) (modify (set_devis test (sign_devis p now a evidence hash)))
  Keeps-sign test now a evidence hash only =
      Keeps-set_devis p xs test (sign_devis p now a evidence hash)
        (λ d e. sent-Stays d (sign_devis p now a evidence hash d) (only d e) refl refl)

  Keeps-accept_from_public :
      (ctx : AuditContext) (id raw : Text) (d : Devis D) (a : Acceptance) (hash : Text)
      (input : SignInput D)
      → ((w : World D) → Kept xs w → Kept xs (input.others w))
      → Keeps (Kept xs) (accept_from_public p ctx id raw d a hash input)
  unfolding accept_from_public
  Keeps-accept_from_public ctx id raw d a hash input h = Keeps-bind _ _ (Keeps-gets _) (λ issuer.
      Keeps-bind _ _ (Keeps-or_raise _ _) (λ pdf.
        Keeps-bind _ _ (Keeps-archive_pdf p (Kept-Ignores xs) _ _ _) (λ _.
          Keeps-bind _ _ (Keeps-modify _ h) (λ _. Keeps-bind _ _ (Keeps-gets _) (λ n.
            Keeps-bind _ _
              (Keeps-sign (is_signable p id ctx.user_id raw) input.now a _ _
                (signable_only id ctx.user_id raw))
              (λ _.
                Keeps-bind _ _
                  (Keeps-if _ _ _
                    (Keeps-bind _ _ (Keeps-delete_archived_pdf p (Kept-Ignores xs) _)
                      (λ _. Keeps-raise _))
                    (Keeps-pure tt))
                  (λ _. Keeps-log p (Kept-Ignores xs) ctx _ _)))))))

  pub Keeps-transition_from_public :
      (ctx : AuditContext) (id raw : Text) (choice : Choice) (a : Option Acceptance)
      (input : SignInput D)
      → ((w : World D) → Kept xs w → Kept xs (input.others w))
      → Keeps (Kept xs) (transition_devis_status_from_public p ctx id raw choice a input)
  unfolding transition_devis_status_from_public
  Keeps-transition_from_public ctx id raw refuse a input h = Keeps-bind _ _ (Keeps-gets _) (λ o.
      Keeps-bind _ _ (Keeps-or_raise o _) (λ d.
        Keeps-bind _ _ (Keeps-raise_if _ _) (λ _. Keeps-refuse_from_public ctx id raw d input h)))
  Keeps-transition_from_public ctx id raw accepte a input h = Keeps-bind _ _ (Keeps-gets _) (λ o.
      Keeps-bind _ _ (Keeps-or_raise o _) (λ d. Keeps-bind _ _ (Keeps-raise_if _ _) (λ _.
        Keeps-bind _ _ (Keeps-or_raise a _) (λ acceptance.
          Keeps-bind _ _ (Keeps-or_raise _ _)
            (λ hash. Keeps-accept_from_public ctx id raw d acceptance hash input h)))))

  Keeps-decide :
      (test : Devis D → Bool) (choice : Choice) (now : ℕ)
      → OnlySent test
      → Keeps (Kept xs) (modify (set_devis test (decide p choice now)))
  Keeps-decide test accepte now only =
      Keeps-set_devis p xs test (decide p accepte now)
        (λ d e. sent-Stays d (decide p accepte now d) (only d e) refl refl)
  Keeps-decide test refuse now only =
      Keeps-set_devis p xs test (decide p refuse now)
        (λ d e. sent-Stays d (decide p refuse now d) (only d e) refl refl)

  pub Keeps-transition :
      (ctx : AuditContext) (id : Text) (choice : Choice) (now : ℕ) (others : World D → World D)
      → ((w : World D) → Kept xs w → Kept xs (others w))
      → Keeps (Kept xs) (transition_devis_status p ctx id choice now others)
  unfolding transition_devis_status
  Keeps-transition ctx id choice now others h = Keeps-bind _ _ (Keeps-gets _) (λ o.
      Keeps-bind _ _ (Keeps-or_raise o _) (λ d. Keeps-bind _ _ (Keeps-modify _ h) (λ _.
        Keeps-bind _ _ (Keeps-gets _) (λ n.
          Keeps-bind _ _
            (Keeps-decide (is_sent p id ctx.user_id) choice now (sent_only id ctx.user_id))
            (λ _.
              Keeps-bind _ _ (Keeps-raise_if _ _) (λ _. Keeps-log p (Kept-Ignores xs) ctx _ _))))))

  Keeps-delete :
      (id : Text) (now : ℕ)
      → Keeps
          (Kept xs)
          (modify (set_devis (λ d. text_eq d.id id) (λ d. record d { deleted_at = some now })))
  unfolding frozen decided
  Keeps-delete id now =
      Keeps-set_devis p xs _ (λ d. record d { deleted_at = some now })
        (λ d _. (Persists-refl (frozen d), Persists-refl (decided d)))

  pub Keeps-soft_delete :
      (ctx : AuditContext) (id : Text) (now : ℕ) (others : World D → World D)
      → ((w : World D) → Kept xs w → Kept xs (others w))
      → Keeps (Kept xs) (soft_delete_devis p ctx id now others)
  unfolding soft_delete_devis
  Keeps-soft_delete ctx id now others h = Keeps-bind _ _ (Keeps-gets _) (λ o.
      Keeps-bind _ _ (Keeps-or_raise o _) (λ d. Keeps-bind _ _ (Keeps-gets _) (λ linked.
        Keeps-bind _ _ (Keeps-raise_if _ _) (λ _. Keeps-bind _ _ (Keeps-modify _ h) (λ _.
          Keeps-bind _ _ (Keeps-delete id now) (λ _. Keeps-log p (Kept-Ignores xs) ctx _ _))))))
