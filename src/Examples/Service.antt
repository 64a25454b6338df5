-- ===== src/Examples/Service.antt =====
-- The theorems on quotes, signature codes and rate limits at concrete inputs.
use devispropre.Base.{min, ℕ, ◌≡◌, refl, true, false, none, some, [], ◌∷◌, arith, length}
use devispropre.Text.{Text, codes, text_eq, trim, starts_with}
use devispropre.Money.{thousandths}
use devispropre.Numbers.{build_lignes}
use devispropre.Accounts.{User, free}
use devispropre.World.{DevisStatus, Company, Client, Devis, World}
use devispropre.Document.{snapshot_from_company, build_devis_payload, verify_document_integrity}
use devispropre.Devis.Send.{SendInput, content_hash_of, lock_devis}
use devispropre.Devis.Sign.{accepte}
use devispropre.World.Frozen.{Frozen}
use devispropre.Devis.Locked.{frozen, decided}
use devispropre.Devis.Interleaved
use devispropre.Devis.Interleaved.{Requests, idle, next, run_all, run_all-Frozen}
use devispropre.Devis.Issuer.{lock_devis-verify}
use devispropre.Table.{find_first, find_last_by}
use devispropre.Otp
use devispropre.Otp.{
  Otp, normalize, is_code, is_active, verify_devis_signature_otp, try_code, otp_code_matches,
  hash_otp_code,
}
use devispropre.Otp.Once.{Accepted, verify_devis_signature_otp-Accepted}
use devispropre.RateLimit.{Bucket, Limit, allowed, allowed-window}
use devispropre.Examples.{platform, artisan, counters, lignes}

abbrev pub draft : Devis ℕ
draft = record {
  id = codes "d1";
  user_id = codes "u1";
  client_id = codes "c1";
  numero = codes "DEV-2026-0042";
  status = DevisStatus.brouillon;
  total_ht = 100000;
  total_tva = 10000;
  total_ttc = 110000;
  taux_tva = 10000;
  notes = none;
  valid_until = some 900;
  lignes = build_lignes thousandths lignes true;
  issuer_snapshot = none;
  locked_at = none;
  content_hash = none;
  chain_hash = none;
  share_token_hash = none;
  share_token_enc = none;
  share_slug = none;
  sent_at = none;
  accepted_at = none;
  refused_at = none;
  client_acceptance_text = none;
  client_signature_data = none;
  signer_name = none;
  signer_email = none;
  signature_evidence_hash = none;
  signed_pdf_hash = none;
  signed_pdf_archived_at = none;
  pdf_url = none;
  pdf_archived_at = none;
  reminder_sent_at = none;
  created_at = 1;
  deleted_at = none;
}

abbrev pub client : Client
client = record {
  id = codes "c1";
  user_id = codes "u1";
  nom = codes "Durand";
  email = none;
  telephone = none;
  adresse = none;
  deleted_at = none;
}

abbrev pub company : Company
company = record {
  id = codes "k1";
  user_id = codes "u1";
  raison_sociale = codes "Toiture SARL";
  siret = codes "12345678900011";
  adresse = codes "1 rue Haute";
  code_postal = codes "31000";
  ville = codes "Toulouse";
  tva_intracom = none;
  tva_applicable = true;
  rcs = none;
  capital_social = none;
  assurances = none;
  assurance_decennale_assureur = none;
  assurance_decennale_contrat = none;
  assurance_decennale_couverture = none;
  activite_btp = true;
  logo_url = none;
}

abbrev pub user : User
user = record {
  id = codes "u1";
  email = codes "a@b.fr";
  name = codes "Ana";
  plan = free;
  stripe_customer_id = none;
  subscription_past_due = false;
  session_version = 0;
  email_verified_at = some 1;
  deleted_at = none;
  phone = none;
  password_hash = codes "x";
}

abbrev send_input : SendInput ℕ
send_input = record {
  now = 5;
  month_start = 0;
  token = record { raw = codes "r"; hash = codes "h"; enc = codes "e" };
  share_slug = codes "dev-2026-0042";
  render = λ d c. some (codes "pdf");
  stored = true;
  others = λ w. w;
}

lock_devis-verify_example :
    let locked =
      lock_devis platform send_input
        (codes "d1")
        (content_hash_of platform draft client (some company))
        (snapshot_from_company (some company))
        draft in
    verify_document_integrity platform locked.content_hash (
      build_devis_payload platform locked
        (record client { deleted_at = some 9 })
        (some (record company { ville = codes "Albi" })))
    ≡ true
lock_devis-verify_example =
    lock_devis-verify platform send_input (codes "d1") draft client
      (record client { deleted_at = some 9 }) company
      (some (record company { ville = codes "Albi" })) (λ s. refl) refl refl
      (refl, refl, refl, refl)

abbrev pub world : World ℕ
world = record {
  users = user ∷ [];
  companies = company ∷ [];
  clients = client ∷ [];
  devis =
      draft
      ∷ record draft {
        id = codes "d2";
        status = DevisStatus.envoye;
        locked_at = some 2;
        sent_at = some 2;
      }
      ∷ [];
  factures = [];
  attestations = [];
  counters = counters;
  audit = [];
  sessions = [];
  tokens = [];
  teams = [];
  members = [];
  stripe_events = [];
  idempotency = [];
  otps = [];
  buckets = [];
  archive = [];
}

-- the first quote is sent while the second is accepted
abbrev requests : Requests ℕ
requests =
    next
      (Interleaved.send artisan (codes "d1") send_input
        (next (Interleaved.decide artisan (codes "d2") accepte 7 idle) idle))
      idle

run_all-Frozen_example :
    Frozen frozen world.devis (run_all platform requests world).devis
    × Frozen decided world.devis (run_all platform requests world).devis
run_all-Frozen_example = run_all-Frozen platform requests world

abbrev bucket : Bucket
bucket = record { key = codes "devis:send:u1"; calls = 9; reset_at = 40 }

abbrev two_a_minute : Limit
two_a_minute = record { max_attempts = 2; window_ms = 60 }

allowed-window_example :
    allowed (codes "devis:send:u1") two_a_minute (50 ∷ 60 ∷ 70 ∷ []) (bucket ∷ [])
    ≡ min (length {A = ℕ} (50 ∷ 60 ∷ 70 ∷ [])) 2
unfolding find_first text_eq
allowed-window_example =
    allowed-window (codes "devis:send:u1") two_a_minute 50 (60 ∷ 70 ∷ []) (bucket ∷ [])
      (omega arith) (omega arith, (omega arith, tt)) (omega arith)

abbrev same : Text → Text
same s = s

abbrev code_row : Otp
code_row = record {
  id = codes "o1";
  devis_id = codes "d1";
  code_hash = codes "h1:d1:123456";
  email = some (codes "c@d.fr");
  attempts = 1;
  expires_at = 700;
  used_at = none;
  created_at = 100;
}

accepts :
    (verify_devis_signature_otp same same same
      (codes "d1")
      (codes " 123 456")
      200
      (code_row ∷ [])).0
    ≡ Otp.ok (some (codes "c@d.fr")) 100
unfolding verify_devis_signature_otp trim try_code find_last_by text_eq otp_code_matches starts_with
    hash_otp_code
accepts = refl

verify_devis_signature_otp-Accepted_example :
    (is_code (normalize (codes " 123 456")) ≡ true)
    × Accepted same same same
        (codes "d1")
        (normalize (codes " 123 456"))
        200
        (code_row ∷ [])
        (find_last_by (λ o. o.created_at) (is_active (codes "d1") 200) (code_row ∷ []))
        (verify_devis_signature_otp same same same
          (codes "d1")
          (codes " 123 456")
          200
          (code_row ∷ [])).1
verify_devis_signature_otp-Accepted_example =
    verify_devis_signature_otp-Accepted same same same (codes "d1") (codes " 123 456") 200
      (code_row ∷ []) (some (codes "c@d.fr")) 100 accepts
