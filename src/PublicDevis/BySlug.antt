-- ===== src/PublicDevis/BySlug.antt =====
-- What happens to a reference that opens a quote by its address and not by its token.
use devispropre.Base.{
  ℕ, ◌≡◌, refl, Bool, true, false, ◌&&◌, Option, none, some, List, [], ◌∷◌, any, Bool-cases, inl,
  inr,
}
use devispropre.Text.{Text, truthy}
use devispropre.Table.{find_first}
use devispropre.Platform.{Platform}
use devispropre.Accounts.{IdempotencyRecord}
use devispropre.Audit.{AuditContext}
use devispropre.ShareToken.{token_matches}
use devispropre.World.{Devis, World}
use devispropre.World.Action.{Action, ◌>>=◌}
use devispropre.World.Action.Keeps.{
  Keeps, Keeps-modify, Keeps-pure, Keeps-raise, Keeps-gets, Keeps-if, Keeps-bind, Keeps-or_raise,
  Keeps-raise_if, Keeps-attempt,
}
use devispropre.Otp
use devispropre.Otp.{Outcome}
use devispropre.World.{Client}
use devispropre.Idempotency.{run_and_store, replay, with_key, with_idempotency}
use devispropre.Devis.Sign.{
  Acceptance, Choice, accepte, refuse, SignInput, is_signable, transition_devis_status_from_public,
}
use devispropre.Api.{Request, Reply, assert_mutation_security, caught}
use devispropre.Api.Keeps.{Keeps-limit_calls}
use devispropre.PublicDevis.{
  StatusBody, Outside, accepted_as, check_signer, verify_signer, decide, answer_found, is_expired,
  is_valid_body, post_public_devis,
}

last_false : (a b c : Bool) → c ≡ false → (a && (b && c)) ≡ false
last_false false b c h = refl
last_false true false c h = refl
last_false true true c h = h

absent :
    {A : Type 0}
    → (test key : A → Bool) (rows : List A) → ((x : A) → key x ≡ false → test x ≡ false)
    → any key rows ≡ false
    → find_first test rows ≡ none
unfolding find_first
absent test key [] h off = refl
absent test key (x ∷ rows) h off = elim (Bool-cases (key x)) [
  | inl e ↦ absurd cc
  | inr e ↦ rw (h x e) (absent test key rows h (rw e at off))
]

module _ {D : Type 0} (p : Platform D) where
  -- whether the reference is the token of a quote
  abbrev pub is_token : Text → List (Devis D) → Bool
  is_token ref rows = any (λ d. token_matches p ref d.share_token_hash) rows

  abbrev Same : List (Devis D) → World D → Type 0
  Same rows w = w.devis ≡ rows

  closed :
      (id user_id ref : Text) (d : Devis D)
      → token_matches p ref d.share_token_hash ≡ false
      → is_signable p id user_id ref d ≡ false
  closed id user_id ref d h = last_false _ _ _ h

  not_signable :
      (id user_id ref : Text) (rows : List (Devis D))
      → is_token ref rows ≡ false
      → find_first (is_signable p id user_id ref) rows ≡ none
  not_signable id user_id ref rows h =
      absent (is_signable p id user_id ref) (λ d. token_matches p ref d.share_token_hash) rows
        (closed id user_id ref) h

  module _ (rows : List (Devis D)) (ref : Text) (h : is_token ref rows ≡ false) where
    Keeps-transition :
        (ctx : AuditContext) (id : Text) (choice : Choice) (a : Option Acceptance)
        (input : SignInput D)
        → Keeps (Same rows) (transition_devis_status_from_public p ctx id ref choice a input)
    unfolding transition_devis_status_from_public ◌>>=◌
    Keeps-transition ctx id choice a input = record {
      at = λ w same. rw (not_signable id ctx.user_id ref w.devis (rw same h)) same;
    }

    Keeps-accepted_as :
        (o : Outside D) (body : StatusBody) (client : Option Client) (outcome : Outcome)
        → Keeps (Same rows) (accepted_as p o body client outcome)
    Keeps-accepted_as o body client (Otp.ok email sent_at) =
        Keeps-bind _ _ (Keeps-or_raise _ _) (λ a. Keeps-pure _)
    Keeps-accepted_as o body client Otp.invalid = Keeps-raise _
    Keeps-accepted_as o body client Otp.locked = Keeps-raise _
    Keeps-accepted_as o body client Otp.expired = Keeps-raise _

    Keeps-check_signer :
        (o : Outside D) (devis : Devis D) (body : StatusBody) (choice : Choice)
        → Keeps (Same rows) (check_signer p o devis body choice)
    Keeps-check_signer o devis body refuse = Keeps-pure none
    Keeps-check_signer o devis body accepte =
        Keeps-bind _ _ (Keeps-limit_calls (λ w rows' same. same) _ _ _) (λ _.
          Keeps-bind _ _ (Keeps-gets _) (λ client. Keeps-bind _ _ (Keeps-gets _) (λ outcome.
            Keeps-bind _ _ (Keeps-modify _ (λ w same. same))
              (λ _. Keeps-accepted_as o body client outcome))))

    Keeps-decide :
        (o : Outside D) (ctx : AuditContext) (devis : Devis D) (body : StatusBody)
        → Keeps (Same rows) (decide p o ctx ref devis body)
    unfolding decide verify_signer
    Keeps-decide o ctx devis body =
        Keeps-bind _ _ (Keeps-check_signer o devis body body.choice) (λ a.
          Keeps-bind _ _ (Keeps-transition ctx devis.id body.choice a o.sign) (λ _. Keeps-pure _))

    Keeps-run_and_store :
        (user_id key : Text) (expires_at : ℕ) (handler : Action D Reply)
        → Keeps (Same rows) handler
        → Keeps (Same rows) (run_and_store user_id key expires_at handler)
    Keeps-run_and_store user_id key expires_at handler kept =
        Keeps-bind _ _ kept
          (λ answer. Keeps-bind _ _ (Keeps-modify _ (λ w same. same)) (λ _. Keeps-pure _))

    Keeps-replay :
        (user_id key : Text) (ttl now : ℕ) (handler : Action D Reply) (r : Option IdempotencyRecord)
        → Keeps (Same rows) handler
        → Keeps (Same rows) (replay user_id key ttl now handler r)
    Keeps-replay user_id key ttl now handler none kept = Keeps-run_and_store _ _ _ _ kept
    Keeps-replay user_id key ttl now handler (some r) kept =
        Keeps-if _ _ _ (Keeps-pure _) (Keeps-run_and_store _ _ _ _ kept)

    Keeps-with_key :
        (user_id : Text) (key : Option Text) (ttl now : ℕ) (handler : Action D Reply)
        → Keeps (Same rows) handler
        → Keeps (Same rows) (with_key user_id key ttl now handler)
    Keeps-with_key user_id none ttl now handler kept = kept
    Keeps-with_key user_id (some key) ttl now handler kept =
        Keeps-bind _ _ (Keeps-gets _) (λ r. Keeps-replay user_id key ttl now handler r kept)

    Keeps-with_idempotency :
        (user_id : Text) (key : Option Text) (ttl now : ℕ) (handler : Action D Reply)
        → Keeps (Same rows) handler
        → Keeps (Same rows) (with_idempotency user_id key ttl now handler)
    unfolding with_idempotency
    Keeps-with_idempotency user_id key ttl now handler kept =
        Keeps-with_key user_id (truthy key) ttl now handler kept

    Keeps-answer_found :
        (o : Outside D) (request : Request) (body : StatusBody) (found : Option (Devis D))
        → Keeps (Same rows) (answer_found p o request ref body found)
    Keeps-answer_found o request body none = Keeps-pure _
    Keeps-answer_found o request body (some devis) =
        Keeps-if (is_expired p o devis) _ _ (Keeps-pure _) (
          Keeps-if (is_valid_body o.decode_base64 body) _ _
            (Keeps-with_idempotency _ _ _ _ _ (Keeps-decide o _ devis body)) (Keeps-pure _))

    Keeps-post :
        (o : Outside D) (request : Request) (body : StatusBody)
        → Keeps (Same rows) (post_public_devis p o request ref body)
    unfolding post_public_devis caught assert_mutation_security
    Keeps-post o request body =
        Keeps-bind _ _
          (Keeps-attempt _ (
            Keeps-bind _ _ (Keeps-raise_if _ _) (λ _.
              Keeps-bind _ _ (Keeps-limit_calls (λ w rows' same. same) _ _ _) (λ _.
                Keeps-if _ _ _
                  (Keeps-bind _ _ (Keeps-gets _) (λ found. Keeps-answer_found o request body found))
                  (Keeps-pure _)))))
          (λ r. Keeps-pure _)

  -- While the reference of the link is the token of no quote, as when it is a quote's address, no
  -- request by it changes a quote, whatever it decides and whichever code it bears.
  pub post_public_devis-by_address :
      (o : Outside D) (request : Request) (ref : Text) (body : StatusBody) (w : World D)
      → is_token ref w.devis ≡ false
      → (post_public_devis p o request ref body w).1.devis ≡ w.devis
  post_public_devis-by_address o request ref body w h =
      (Keeps-post w.devis ref h o request body).at w refl
