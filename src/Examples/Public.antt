-- ===== src/Examples/Public.antt =====
-- The theorems on the links of quotes at concrete inputs.
use devispropre.Services.{archive_pdf, log}
use devispropre.Devis.Sign.{accept_from_public}
use devispropre.Api.{build_service_context}
use devispropre.RateLimit.{put}
use devispropre.Idempotency.{read_idempotency_key}
use devispropre.Text.{units}
use devispropre.ShareToken.{is_share_link_expired}
use devispropre.Base.{ℕ, ◌≡◌, refl, true, none, some, [], ◌∷◌}
use devispropre.Text.{Text, codes, text_eq, trim, starts_with}
use devispropre.ShareToken.{token_matches, is_valid_share_token_format}
use devispropre.World.{DevisStatus, World}
use devispropre.World.Action.{ok, attempt, ◌>>=◌}
use devispropre.Devis.Sign.{transition_devis_status_from_public, accepte, SignInput}
use devispropre.Otp.{Otp, verify_devis_signature_otp, try_code, otp_code_matches, hash_otp_code}
use devispropre.Table.{find_first, find_last_by, update_many, count}
use devispropre.RateLimit.{check_rate_limit, use_bucket}
use devispropre.Idempotency.{with_idempotency}
use devispropre.ShareSlug.{
  is_valid_public_share_ref, is_valid_share_slug_format, public_share_matches,
}
use devispropre.Api.{
  caught, assert_mutation_security, is_same_origin, normalize_origin, limit_calls, Env, Request,
}
use devispropre.PublicDevis.{
  StatusBody, Outside, is_valid_body, validate_client_signature_data_uri, decide, verify_signer,
  single_spaces, post_public_devis,
}
use devispropre.PublicDevis.BySlug.{post_public_devis-by_address}
use devispropre.PublicDevis.Authorized.{IsAccepted, post_public_devis-IsAccepted}
use devispropre.Examples.{platform}
use devispropre.Examples.Service.{draft, world}

abbrev pub same : Text → Text
same s = s

abbrev pub env : Env
env = record {
  allowed_origins = codes "https://d.fr" ∷ [];
  is_prod = true;
  url_origin = λ s. some s;
  lower = same;
}

abbrev pub request : Request
request = record {
  method = codes "POST";
  sec_fetch_site = some (codes "same-origin");
  origin = some (codes "https://d.fr/");
  referer = none;
  real_ip = some (codes "127.0.0.1");
  forwarded_for = none;
  user_agent = none;
  idempotency_key = none;
  cookie = none;
}

abbrev sign : SignInput ℕ
sign = record {
  now = 200;
  add_days = λ t n. t;
  image_digest = same;
  file_digest = same;
  render = λ d c v h. some (codes "pdf");
  stored = true;
  others = λ w. w;
}

abbrev pub outside : Outside ℕ
outside = record {
  env = env;
  decode_uri = same;
  decode_base64 = λ s. 0x89 ∷ 0x50 ∷ 0x4e ∷ 0x47 ∷ [];
  mac = same;
  sign = sign;
}

abbrev pub body : StatusBody
body = record {
  choice = accepte;
  acceptance_text = some (codes "Bon pour accord");
  signature_data = some (codes "data:image/png;base64,AA");
  otp_code = some (codes "123456");
  signer_name = some (codes "Zoe");
  retractation_info_acknowledged = some true;
  early_execution_requested = none;
}

abbrev raw_token : Text
raw_token = codes "0123456789abcdef0123456789abcdef0123456789abcdef0123456789abcdef"

abbrev code_row : Otp
code_row = record {
  id = codes "o1";
  devis_id = codes "d1";
  code_hash = codes "h1:d1:123456";
  email = some (codes "c@d.fr");
  attempts = 0;
  expires_at = 700;
  used_at = none;
  created_at = 100;
}

-- a quote that was sent, and the code for it
abbrev sent : World ℕ
sent = record world {
  devis =
      record draft {
        status = DevisStatus.envoye;
        locked_at = some 2;
        sent_at = some 300;
        content_hash = some (codes "hash");
        share_token_hash = some (b'#' ∷ raw_token);
        share_slug = some (codes "devis-2026-0042");
      }
      ∷ [];
  otps = code_row ∷ [];
}

post_public_devis-by_address_example :
    (post_public_devis platform outside request (codes "devis-2026-0042") body sent).1.devis
    ≡ sent.devis
unfolding text_eq token_matches trim is_valid_share_token_format
post_public_devis-by_address_example =
    post_public_devis-by_address platform outside request (codes "devis-2026-0042") body sent refl

accepted :
    (post_public_devis platform outside request raw_token body sent).0 ≡ ok (200, codes "ACCEPTE")
unfolding post_public_devis caught ◌>>=◌ attempt assert_mutation_security text_eq is_same_origin
    normalize_origin limit_calls check_rate_limit use_bucket find_first is_valid_public_share_ref
    is_valid_share_token_format trim is_valid_share_slug_format starts_with public_share_matches
    token_matches with_idempotency is_valid_body validate_client_signature_data_uri decide
    verify_signer single_spaces verify_devis_signature_otp try_code find_last_by otp_code_matches
    hash_otp_code update_many transition_devis_status_from_public count is_share_link_expired units
    read_idempotency_key put build_service_context accept_from_public archive_pdf log
accepted = refl

post_public_devis-IsAccepted_example : IsAccepted platform outside request raw_token body sent
post_public_devis-IsAccepted_example =
    post_public_devis-IsAccepted platform outside request raw_token body sent (codes "ACCEPTE") refl
      accepted
