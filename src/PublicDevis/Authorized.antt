-- ===== src/PublicDevis/Authorized.antt =====
-- What an acceptance that is answered with success had to pass.
use devispropre.Base.{
  ℕ, ◌<◌, ◌+◌, ◌++◌, [], arith, ◌≡◌, refl, true, false, Option, none, some, ltb, ◌⊎◌, inl, inr,
  Bool-cases, Option-cases, subst,
}
use devispropre.Text.{Text, codes, truthy}
use devispropre.Platform.{Platform}
use devispropre.Accounts.{IdempotencyRecord}
use devispropre.Audit.{AuditContext}
use devispropre.Otp
use devispropre.Otp.{Outcome}
use devispropre.World.{Devis, Client, World}
use devispropre.World.Action.{ok, Action, pure, ◌>>=◌}
use devispropre.World.Action.Inversion.{bind_ok, of_ok}
use devispropre.World.Action.Keeps.{Keeps-raise_if}
use devispropre.ShareSlug.{is_valid_public_share_ref}
use devispropre.Services.{find_relation}
use devispropre.Idempotency.{
  default_ttl_ms, read_idempotency_key, with_idempotency, find_record, run_and_store, with_key,
}
use devispropre.Devis.Sign.{Acceptance, accepte}
use devispropre.Api.Caught.{caught-ok, same_status}
use devispropre.Api.{
  ip_or_unknown, build_service_context, Request, Reply, limit_calls, assert_mutation_security,
}
use devispropre.Api.Keeps.{Keeps-limit_calls, bind_kept}
use devispropre.PublicDevis.{
  StatusBody, Outside, accepted_as, check_code, sign_per_ip, check_signer, verify_signer, decide,
  answer_open, answer_found, answer_ref, post_public_devis, find_public, is_expired, is_valid_body,
  verify_code, required,
}

is_low : 200 < 400
is_low = omega arith

module _ {D : Type 0} where
  -- what the checks before an acceptance leave
  abbrev Before : World D → World D → Type 0
  Before w w' = (w'.devis ≡ w.devis) × (w'.otps ≡ w.otps) × (w'.idempotency ≡ w.idempotency)

  run_and_store-ok :
      (user_id key : Text) (expires_at : ℕ) (handler : Action D Reply) (w : World D) (a : Reply)
      → (run_and_store user_id key expires_at handler w).0 ≡ ok a
      → (handler w).0 ≡ ok a
  unfolding ◌>>=◌
  run_and_store-ok user_id key expires_at handler w a h =
      let (b, done, same) = bind_ok handler _ w a h in
      let here : b ≡ a = of_ok b a (rw same at h) in subst (λ x. (handler w).0 ≡ ok x) here done

  -- the answer that is stored under the key of the request
  abbrev pub Stored : Text → Option Text → ℕ → World D → Type 0
  Stored user_id key now w =
      (k : Text) × (r : IdempotencyRecord) × (key ≡ some k)
      × (find_record user_id k w ≡ some r)
      × (ltb now r.expires_at ≡ true)

  with_key-ok :
      (user_id : Text) (key : Option Text) (ttl now : ℕ) (handler : Action D Reply) (w : World D)
      (a : Reply)
      → (with_key user_id key ttl now handler w).0 ≡ ok a
      → ((handler w).0 ≡ ok a) ⊎ Stored user_id key now w
  unfolding ◌>>=◌
  with_key-ok user_id none ttl now handler w a h = inl h
  with_key-ok user_id (some k) ttl now handler w a h =
      elim (Option-cases (find_record user_id k w)) [
        | inl new ↦ inl (run_and_store-ok user_id k (now + ttl) handler w a (rw new at h))
        | inr (r, found) ↦ elim (Bool-cases (ltb now r.expires_at)) [
          | inl fresh ↦ inr (k, r, refl, found, fresh)
          | inr old ↦
              inl (run_and_store-ok user_id k (now + ttl) handler w a (rw (found, old) at h))
        ]
      ]

module _ {D : Type 0} (p : Platform D) (o : Outside D) where
  accepted_as-ok :
      (body : StatusBody) (client : Option Client) (outcome : Outcome) (w : World D)
      (a : Option Acceptance)
      → (accepted_as p o body client outcome w).0 ≡ ok a
      → (email : Text) × (sent_at : ℕ) × (outcome ≡ Otp.ok (some email) sent_at)
  unfolding ◌>>=◌
  accepted_as-ok body client (Otp.ok (some email) sent_at) w a h = (email, sent_at, refl)
  accepted_as-ok body client (Otp.ok none sent_at) w a h = absurd cc
  accepted_as-ok body client Otp.invalid w a h = absurd cc
  accepted_as-ok body client Otp.locked w a h = absurd cc
  accepted_as-ok body client Otp.expired w a h = absurd cc

  -- the code of the request is the last that was sent for the quote
  abbrev pub IsVerified : Text → StatusBody → World D → Type 0
  IsVerified id body w =
      (email : Text) × (sent_at : ℕ) × ((verify_code p o id (required body.otp_code) w.otps).0
        ≡ Otp.ok (some email) sent_at)

  verify-IsVerified :
      (devis : Devis D) (body : StatusBody) (w w' : World D) (a : Option Acceptance)
      → w'.otps ≡ w.otps
      → (check_code p o devis body w').0 ≡ ok a
      → IsVerified devis.id body w
  unfolding ◌>>=◌
  verify-IsVerified devis body w w' a same h =
      subst
        (λ t.
          (email : Text) × (sent_at : ℕ) × ((verify_code p o devis.id (required body.otp_code) t).0
            ≡ Otp.ok (some email) sent_at))
        same
        (accepted_as-ok body (find_relation devis.client_id w') _
          (record w' { otps = (verify_code p o devis.id (required body.otp_code) w'.otps).1 }) a h)

  check_signer-IsVerified :
      (devis : Devis D) (body : StatusBody) (w : World D) (a : Option Acceptance)
      → (check_signer p o devis body accepte w).0 ≡ ok a
      → IsVerified devis.id body w
  check_signer-IsVerified devis body w a h =
      let (_, _, next, (same, otps, _)) =
        bind_kept {P = Before w} (limit_calls _ _ _) _ w a
          (Keeps-limit_calls (λ _ _ same. same) _ _ _) (refl, refl, refl) h in
      verify-IsVerified devis body w _ a otps next

  decide-IsVerified :
      (ctx : AuditContext) (ref : Text) (devis : Devis D) (body : StatusBody) (w : World D)
      (a : Reply)
      → body.choice ≡ accepte
      → (decide p o ctx ref devis body w).0 ≡ ok a
      → IsVerified devis.id body w
  unfolding decide verify_signer
  decide-IsVerified ctx ref devis body w a choice h =
      let (acceptance, done, _) = bind_ok (check_signer p o devis body body.choice) _ w a h in
      check_signer-IsVerified devis body w acceptance (rw choice at done)

  -- What stands behind an acceptance: a quote that the reference opens and that waits for its client,
  -- its link not expired, a body that is complete, and the right code, unless the answer was stored.
  abbrev pub IsAuthorized : Request → StatusBody → Devis D → World D → Type 0
  IsAuthorized request body devis w =
      (is_expired p o devis ≡ false)
      × (is_valid_body o.decode_base64 body ≡ true)
      × (IsVerified devis.id body w
          ⊎ Stored devis.user_id (truthy (read_idempotency_key request.idempotency_key)) o.sign.now
              w)

  complete-IsAuthorized :
      (request : Request) (ref : Text) (body : StatusBody) (devis : Devis D) (w : World D)
      (a : Reply)
      → body.choice ≡ accepte
      → is_expired p o devis ≡ false
      → is_valid_body o.decode_base64 body ≡ true
      → (answer_open p o request ref body devis w).0 ≡ ok a
      → IsAuthorized request body devis w
  unfolding with_idempotency
  complete-IsAuthorized request ref body devis w a choice open_ valid h =
      let ctx = build_service_context devis.user_id none request in
      let key = truthy (read_idempotency_key request.idempotency_key) in
      (
        open_,
        valid,
        elim (with_key-ok devis.user_id key default_ttl_ms o.sign.now
            (decide p o ctx ref devis body) w a (rw (open_, valid) at h)) [
              | inl done ↦ inl (decide-IsVerified ctx ref devis body w a choice done)
              | inr stored ↦ inr stored
            ],
      )

  answer_open-IsAuthorized :
      (request : Request) (ref : Text) (body : StatusBody) (devis : Devis D) (w : World D)
      (text : Text)
      → body.choice ≡ accepte
      → (answer_open p o request ref body devis w).0 ≡ ok (200, text)
      → IsAuthorized request body devis w
  unfolding pure
  answer_open-IsAuthorized request ref body devis w text choice h =
      elim (Bool-cases (is_expired p o devis)) [
        | inl late ↦ absurd (ground (arith, same_status (rw late at h)))
        | inr in_time ↦ elim (Bool-cases (is_valid_body o.decode_base64 body)) [
          | inl valid ↦
              complete-IsAuthorized request ref body devis w (200, text) choice in_time valid h
          | inr bad ↦ absurd (ground (arith, same_status (rw (in_time, bad) at h)))
        ]
      ]

  abbrev pub IsAccepted : Request → Text → StatusBody → World D → Type 0
  IsAccepted request ref body w =
      (devis : Devis D) × (find_public p o ref w ≡ some devis) × IsAuthorized request body devis w

  moved :
      (request : Request) (ref : Text) (body : StatusBody) (w w' : World D)
      → Before w w'
      → IsAccepted request ref body w'
      → IsAccepted request ref body w
  moved request ref body w w' (devis, otps, idempotency) h =
      let P = IsAccepted request ref body in
      subst (λ t. P (record w { devis = t })) devis
        (subst (λ t. P (record w { devis = w'.devis; otps = t })) otps
          (subst (λ t. P (record w { devis = w'.devis; otps = w'.otps; idempotency = t }))
            idempotency h))

  answer_found-IsAccepted :
      (request : Request) (ref : Text) (body : StatusBody) (w : World D) (text : Text)
      → body.choice ≡ accepte
      → (answer_found p o request ref body (find_public p o ref w) w).0 ≡ ok (200, text)
      → IsAccepted request ref body w
  unfolding pure
  answer_found-IsAccepted request ref body w text choice h =
      elim (Option-cases (find_public p o ref w)) [
        | inl missing ↦ absurd (ground (arith, same_status (rw missing at h)))
        | inr (devis, found) ↦ (
          devis,
          found,
          answer_open-IsAuthorized request ref body devis w text choice (rw found at h),
        )
      ]

  answer_ref-IsAccepted :
      (request : Request) (ref : Text) (body : StatusBody) (w : World D) (text : Text)
      → body.choice ≡ accepte
      → (answer_ref p o request ref body w).0 ≡ ok (200, text)
      → IsAccepted request ref body w
  unfolding ◌>>=◌
  answer_ref-IsAccepted request ref body w text choice h =
      elim (Bool-cases (is_valid_public_share_ref o.env.lower o.decode_uri ref)) [
        | inl valid ↦ answer_found-IsAccepted request ref body w text choice (rw valid at h)
        | inr bad ↦ absurd (ground (arith, same_status (rw bad at h)))
      ]

  -- An acceptance is answered with success only for a quote that the reference opens and that waits for
  -- its client, whose link has not expired, with a body that is complete, and the right code for that
  -- quote, with the address that it was sent to; or where the answer is one that an earlier request of
  -- the same key left.
  pub post_public_devis-IsAccepted :
      (request : Request) (ref : Text) (body : StatusBody) (w : World D) (text : Text)
      → body.choice ≡ accepte
      → (post_public_devis p o request ref body w).0 ≡ ok (200, text)
      → IsAccepted request ref body w
  unfolding post_public_devis assert_mutation_security
  post_public_devis-IsAccepted request ref body w text choice h =
      let w1 = (assert_mutation_security o.env request w).1 in
      let limited =
        limit_calls (codes "public-devis:" ++ ip_or_unknown request) sign_per_ip o.sign.now in
      let (_, _, next, first) =
        bind_kept {P = Before w} (assert_mutation_security o.env request) _ w (200, text)
          (Keeps-raise_if _ _) (refl, refl, refl) (caught-ok [] _ w (200, text) is_low h).0 in
      let (_, _, end, second) =
        bind_kept {P = Before w} limited _ w1 (200, text)
          (Keeps-limit_calls (λ _ _ same. same) _ _ _) first next in
      moved request ref body w (limited w1).1 second
        (answer_ref-IsAccepted request ref body (limited w1).1 text choice end)
