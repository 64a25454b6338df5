-- ===== src/PublicDevis.antt =====
-- src/app/api/public/devis/[token]/route.ts and otp/route.ts: a client opens a quote by its link,
-- asks for a code by mail, and accepts or refuses.
pub mod Authorized
pub mod BySlug
mod Body
unfoldable pub use Body.*
use devispropre.Base.{
  ℕ, suc, ◌+◌, ◌-◌, ◌==◌, Bool, true, false, not, ◌&&◌, ◌||◌, Option, none, some, List, [], ◌∷◌,
  ◌++◌, if◌then◌else◌, leb, ltb, all, any, length, drop, is_none, is_some, holds_on, or_else,
}
use devispropre.Text.{Text, codes, text_eq, trim, truthy, is_empty, is_space, starts_with, units}
use devispropre.Table.{find_first}
use devispropre.Platform.{Platform}
use devispropre.Accounts.{Error}
use devispropre.Audit.{AuditContext}
use devispropre.Otp
use devispropre.Otp.{Outcome, verify_devis_signature_otp, request_devis_signature_otp}
use devispropre.RateLimit.{Limit}
use devispropre.ShareToken.{is_share_link_expired}
use devispropre.ShareSlug.{is_valid_public_share_ref, public_share_matches}
use devispropre.World.{DevisStatus, Devis, Client, World}
use devispropre.World.Action.{Action, pure, raise, raise_if, gets, or_raise, ◌>>=◌, ◌>>◌, modify}
use devispropre.World.Immutability.{devis_status_eq}
use devispropre.Services.{find_relation}
use devispropre.Idempotency.{read_idempotency_key, with_idempotency, default_ttl_ms}
use devispropre.Devis.Sign.{
  EmailSource, client_record, declared_by_signer, Acceptance, Choice, accepte, refuse, SignInput,
  transition_devis_status_from_public,
}
use devispropre.Api.{
  Env, Request, Reply, ip_or_unknown, build_service_context, assert_mutation_security, limit_calls,
  caught,
}

-- What a call takes from outside: `decode_uri` is `decodeURIComponent`, of a text that it does not refuse, `decode_base64` is
-- `Buffer.from(…, "base64")`, `mac` the HMAC of the codes.
pub record Outside (D : Type 0) : Type 0 where
  pub env : Env
  pub decode_uri : Text → Text
  pub decode_base64 : Text → Text
  pub mac : Text → Text
  pub sign : SignInput D

abbrev choice_text : Choice → Text
choice_text accepte = codes "ACCEPTE"
choice_text refuse = codes "REFUSE"

abbrev is_same_mail : Option Text → Text → Bool
is_same_mail none email = false
is_same_mail (some r) email = text_eq r email

-- a text that the schema has required
abbrev pub required : Option Text → Text
required s = or_else s []

module _ {D : Type 0} (p : Platform D) (o : Outside D) where
  abbrev now : ℕ
  now = o.sign.now

  abbrev pub verify_code : Text → Text → List Otp.Otp → Outcome × List Otp.Otp
  verify_code devis_id code table =
      verify_devis_signature_otp o.mac p.sha256 o.env.lower devis_id code now table

  abbrev acceptance_of : StatusBody → Option Client → Text → ℕ → Acceptance
  acceptance_of body client email sent_at = record {
    acceptance_text = trim (required body.acceptance_text);
    signature_data = required body.signature_data;
    signer_name = single_spaces false (trim (required body.signer_name));
    signer_email = email;
    signer_email_source =
        if is_same_mail
          (normalize_signer_email o.env.lower (elim client [ none ↦ none | some c ↦ c.email ]))
          email
        then client_record
        else declared_by_signer;
    otp_sent_at = sent_at;
    otp_verified_at = now;
    retractation_info_acknowledged = true;
    early_execution_requested = is_true body.early_execution_requested;
  }

  -- a code with no address is taken for an expired one
  abbrev pub accepted_as : StatusBody → Option Client → Outcome → Action D (Option Acceptance)
  accepted_as body client (Otp.ok email sent_at) = do
    address ← or_raise (truthy email) Error.signature
    pure (some (acceptance_of body client address sent_at))
  accepted_as body client Otp.locked = raise Error.signature_locked
  accepted_as body client _ = raise Error.signature

  abbrev pub check_code : Devis D → StatusBody → Action D (Option Acceptance)
  check_code devis body = do
    client ← gets (find_relation devis.client_id)
    outcome ← gets (λ w. (verify_code devis.id (required body.otp_code) w.otps).0)
    modify (λ w. record w { otps = (verify_code devis.id (required body.otp_code) w.otps).1 })
    accepted_as body client outcome

  abbrev pub check_signer : Devis D → StatusBody → Choice → Action D (Option Acceptance)
  check_signer devis body refuse = pure none
  check_signer devis body accepte = do
    limit_calls (codes "public-devis-otp-verify:" ++ devis.id) otp_verify_per_devis now
    check_code devis body

  unfoldable pub verify_signer : Devis D → StatusBody → Action D (Option Acceptance)
  verify_signer devis body = check_signer devis body body.choice

  -- the handler that the key protects
  unfoldable pub decide : AuditContext → Text → Devis D → StatusBody → Action D Reply
  decide ctx ref devis body = do
    acceptance ← verify_signer devis body
    transition_devis_status_from_public p ctx devis.id ref body.choice acceptance o.sign
    pure (200, choice_text body.choice)

  -- a quote that waits for its client, by the reference of its link
  abbrev pub is_public : Text → Devis D → Bool
  is_public ref d =
      public_share_matches o.env.lower o.decode_uri p ref d.share_token_hash d.share_slug
      && (is_none d.deleted_at && devis_status_eq d.status DevisStatus.envoye)

  abbrev pub find_public : Text → World D → Option (Devis D)
  find_public ref w = find_first (is_public ref) w.devis

  abbrev pub is_expired : Devis D → Bool
  is_expired d = is_share_link_expired o.sign.add_days d.sent_at d.valid_until now

  abbrev pub answer_open : Request → Text → StatusBody → Devis D → Action D Reply
  answer_open request ref body devis =
      if is_expired devis
      then pure (410, [])
      else if is_valid_body o.decode_base64 body
      then with_idempotency devis.user_id (read_idempotency_key request.idempotency_key)
          default_ttl_ms now
          (decide (build_service_context devis.user_id none request) ref devis body)
      else pure (400, [])

  abbrev pub answer_found : Request → Text → StatusBody → Option (Devis D) → Action D Reply
  answer_found request ref body none = pure (404, [])
  answer_found request ref body (some devis) = answer_open request ref body devis

  abbrev pub answer_ref : Request → Text → StatusBody → Action D Reply
  answer_ref request ref body =
      if is_valid_public_share_ref o.env.lower o.decode_uri ref
      then (do devis ← gets (find_public ref); answer_found request ref body devis)
      else pure (404, [])

  -- `POST` of the quote
  unfoldable pub post_public_devis : Request → Text → StatusBody → Action D Reply
  post_public_devis request ref body = caught [] do
    assert_mutation_security o.env request
    limit_calls (codes "public-devis:" ++ ip_or_unknown request) sign_per_ip now
    answer_ref request ref body

  -- The identifier and the code of a new row, and whether the mail left; the address is that of the
  -- client's file, or where it has none the one that the signer declares.
  abbrev send_code : Devis D → Text → Text → Bool → Option (Text × EmailSource) → Action D Reply
  send_code devis id code delivered none = pure (400, [])
  send_code devis id code delivered (some (email, source)) = do
    limit_calls (codes "public-devis-otp:devis:" ++ devis.id) otp_request_per_devis now
    let request : List Otp.Otp → Bool × List Otp.Otp =
        request_devis_signature_otp o.mac p.sha256 o.env.lower o.sign.add_days devis.sent_at
          devis.valid_until id devis.id email code now delivered o.env.is_prod
    sent ← gets (λ w. (request w.otps).0)
    modify (λ w. record w { otps = (request w.otps).1 })
    raise_if (not sent) Error.signature_unavailable
    pure (200, email)

  abbrev request_code : Text → Text → Bool → Option Text → Option (Devis D) → Action D Reply
  request_code id code delivered declared_email none = pure (404, [])
  request_code id code delivered declared_email (some devis) =
      if is_expired devis then pure (410, []) else (do
        client ← or_raise (← gets (find_relation devis.client_id)) Error.error
        send_code devis id code delivered
            (resolve_signer_email o.env.lower client.email declared_email))

  -- `POST` of the code; the answer bears the address in place of the part of it that is shown
  unfoldable pub post_otp : Request → Text → Option Text → Text → Text → Bool → Action D Reply
  post_otp request ref declared_email id code delivered = caught [] do
    assert_mutation_security o.env request
    limit_calls (codes "public-devis-otp:" ++ ip_or_unknown request) otp_request_per_ip now
    (if is_valid_public_share_ref o.env.lower o.decode_uri ref
        then (do
          devis ← gets (find_public ref)
          request_code id code delivered declared_email devis)
        else pure (404, []))
