-- ===== src/Examples.antt =====
-- The theorems at concrete inputs: amounts in thousandths, and a platform whose digest is the text
-- after a "#".
pub mod Service
pub mod Factures
pub mod Accounts
pub mod Billing
pub mod Public
pub mod Members
use devispropre.Base.{
  min, ℕ, zero, suc, ◌+◌, ◌≡◌, refl, ap, ◌↔◌, ◌⊎◌, true, false, none, some, List, [], ◌∷◌, arith,
  map, length, all, if◌then◌else◌, keep, holds_on, ltb, All,
}
use devispropre.Text.{Text, codes, includes, is_empty, text_eq, trim, starts_with}
use devispropre.Money.{replicate_one, thousandths, thousandths-IsReflexive}
use devispropre.Platform.{Platform, Collision}
use devispropre.Tva.{
  LigneInput, compute_draft_totals, resolve_line_tva, is_tva_rate, ensure_franchise_notes,
}
use devispropre.Tva.Laws.{resolve_line_tva_stable, ensure_franchise_notes_mention}
use devispropre.Numbers.{devis, Counter, next_sequence, compute_totals, build_lignes}
use devispropre.Numbers.Preview.{compute_draft_totals-compute_totals}
use devispropre.Numbers.Sequence.{last_seq_of, same_key_as, next_sequence-gapless, numero_injective}
use devispropre.Json.{Value, num, str, obj, end, field, canonicalize}
use devispropre.Json.Normal.{normal}
use devispropre.Json.Printable.{is_number_char, PrintsNumbers, IsPrintable}
use devispropre.Json.Unique.{canonicalize_unique}
use devispropre.Audit
use devispropre.Audit.{
  AuditContext, AuditParams, AuditLog, Meta, in_chain, verify_audit_chain,
  verify_workspace_audit_chain, valid, sanitize_audit_metadata, next_entry,
}
use devispropre.Audit.Chain.{Chained, verify_audit_chain_iff}
use devispropre.Audit.Log.{Call, log_all, log_all-valid, log_all-Chained}
use devispropre.Audit.Covered.{covered}
use devispropre.Audit.Tamper.{Chained-tamper_evident}
use devispropre.Audit.Clean.{IsClean, sanitize_audit_metadata-IsClean}
use devispropre.Accounts.{User, free}
use devispropre.World.{DevisStatus, Company, Client, Devis, World}
use devispropre.Document.{snapshot_from_company, build_devis_payload, verify_document_integrity}
use devispropre.Devis.Send.{SendInput, content_hash_of, lock_devis}
use devispropre.Devis.Sign.{accepte}
use devispropre.Devis.Interleaved
use devispropre.Devis.Interleaved.{Requests, idle, next, run_all, run_all-Frozen}
use devispropre.Devis.Issuer.{lock_devis-verify}
use devispropre.Table.{find_first, find_last_by}
use devispropre.Otp
use devispropre.Otp.{
  Otp, normalize, is_code, is_active, verify_devis_signature_otp, try_code, otp_code_matches,
  hash_otp_code,
}
use devispropre.Otp.Once.{Accepted, verify_devis_signature_otp-Accepted}
use devispropre.RateLimit.{Bucket, Limit, allowed, allowed-window}
use devispropre.ShareToken.{is_share_link_expired, is_share_link_expired_iff}

abbrev pub AnyNumber : ℕ → Type 0
AnyNumber a = Unit

all_ones : (k : ℕ) → all is_number_char (replicate_one k) ≡ true
all_ones zero = refl
all_ones (suc k) = all_ones k

ones_text : (k : ℕ) → is_empty (replicate_one k) ≡ false
ones_text zero = refl
ones_text (suc k) = refl

length-replicate_one : (k : ℕ) → length (replicate_one k) ≡ suc k
length-replicate_one zero = refl
length-replicate_one (suc k) = omega (arith, length-replicate_one k)

replicate_one_injective : (a b : ℕ) → replicate_one a ≡ replicate_one b → a ≡ b
replicate_one_injective a b h =
    omega (arith, length-replicate_one a, length-replicate_one b, ap length h)

pub thousandths-PrintsNumbers : PrintsNumbers thousandths AnyNumber
thousandths-PrintsNumbers = record {
  number_chars = λ a _. all_ones a;
  number_text = λ a _. ones_text a;
  number_injective = λ a b _ _ h. replicate_one_injective a b (cc);
  nat_finite = λ k. tt;
  nat_injective = λ k m h. omega (arith, h);
}

abbrev pub platform : Platform ℕ
platform = record {
  number = thousandths;
  sha256 = λ s. b'#' ∷ s;
  iso_string = λ t. t ∷ [];
  deletes = λ k. true;
}

abbrev quote_value : Value ℕ
quote_value =
    obj (
      field (codes "numero") (str (codes "DEV-2026-0001")) (field (codes "totalHT") (num 1000) end))

abbrev swapped_value : Value ℕ
swapped_value =
    obj (
      field (codes "totalHT") (num 1000) (field (codes "numero") (str (codes "DEV-2026-0001")) end))

canonicalize_unique_example :
    (canonicalize thousandths quote_value ≡ canonicalize thousandths swapped_value)
    ↔ (normal quote_value ≡ normal swapped_value)
canonicalize_unique_example =
    canonicalize_unique thousandths AnyNumber thousandths-PrintsNumbers quote_value swapped_value
      (unfold IsPrintable in (tt, (tt, tt))) (unfold IsPrintable in (tt, (tt, tt)))

abbrev pub artisan : AuditContext
artisan = record {
  user_id = codes "u1";
  actor_user_id = some (codes "u2");
  ip_address = some (codes "127.0.0.1");
  user_agent = none;
}

abbrev creation : AuditParams ℕ
creation = record {
  action = Audit.create;
  entity_type = codes "devis";
  entity_id = codes "d1";
  devis_id = some (codes "d1");
  facture_id = none;
  metadata = (codes "numero", Audit.text (codes "DEV-2026-0001")) ∷ [];
  content_hash = none;
}

abbrev calls : List (Call platform)
calls = (artisan, creation, 5) ∷ (artisan, creation, 9) ∷ []

log_all-valid_example :
    verify_workspace_audit_chain platform (codes "u1") (log_all platform calls [])
    ≡ valid (length (keep (in_chain (codes "u1")) (log_all platform calls [])))
log_all-valid_example = log_all-valid platform (codes "u1") calls

abbrev journal : List AuditLog
journal = keep (in_chain (codes "u1")) (log_all platform calls [])

verify_audit_chain_iff_example :
    (verify_audit_chain platform journal ≡ valid (length journal)) ↔ Chained platform none 1 journal
verify_audit_chain_iff_example = verify_audit_chain_iff platform journal

journal-Chained : Chained platform none 1 journal
journal-Chained = log_all-Chained platform (codes "u1") calls

Chained-tamper_evident_example :
    (map (covered platform) journal ≡ map (covered platform) journal) ⊎ Collision platform.sha256
Chained-tamper_evident_example =
    Chained-tamper_evident platform AnyNumber thousandths-PrintsNumbers journal journal
      journal-Chained journal-Chained refl refl

abbrev dirty : List (Text × Meta ℕ)
dirty =
    (codes "pdfUrl", Audit.text (codes "/x"))
    ∷ (codes "a<b", Audit.text (codes "<i>"))
    ∷ (codes "n", Audit.number 1)
    ∷ []

sanitize_audit_metadata-IsClean_example : All IsClean (sanitize_audit_metadata (some dirty))
sanitize_audit_metadata-IsClean_example = sanitize_audit_metadata-IsClean (some dirty)

abbrev pub lignes : List (LigneInput ℕ)
lignes =
    record {
      description = codes "Carrelage";
      quantite = 2500;
      prix_unitaire_ht = 40000;
      tva = some 10000;
    }
    ∷ []

compute_draft_totals-compute_totals_example :
    compute_draft_totals thousandths lignes true
    ≡ compute_totals thousandths (build_lignes thousandths lignes true) true
compute_draft_totals-compute_totals_example =
    compute_draft_totals-compute_totals thousandths lignes true

abbrev pub counters : List Counter
counters = record { user_id = codes "u1"; year = 2026; doc_type = devis; last_seq = 41 } ∷ []

next_sequence-gapless_example :
    let (seq, table) = next_sequence (codes "u1") 2026 devis counters in
    (seq ≡ last_seq_of (codes "u1") 2026 devis counters + 1)
    × (last_seq_of (codes "u2") 2026 devis table ≡ (
        if same_key_as (codes "u1") 2026 devis (codes "u2") 2026 devis
        then seq
        else last_seq_of (codes "u2") 2026 devis counters))
next_sequence-gapless_example =
    next_sequence-gapless (codes "u1") (codes "u2") 2026 2026 devis devis counters

numero_injective_example : (devis ≡ devis) × ((◌≡◌ {A = ℕ} 2026 2026) × (◌≡◌ {A = ℕ} 12345 12345))
numero_injective_example = numero_injective devis devis 2026 2026 12345 12345 refl

resolve_line_tva_stable_example :
    (is_tva_rate thousandths (resolve_line_tva thousandths (some 7000) true) ≡ true)
    × (resolve_line_tva thousandths (some (resolve_line_tva thousandths (some 7000) true)) true
        ≡ resolve_line_tva thousandths (some 7000) true)
    × (resolve_line_tva thousandths (some 7000) false ≡ 0)
resolve_line_tva_stable_example =
    resolve_line_tva_stable thousandths thousandths-IsReflexive (some 7000) true

ensure_franchise_notes_mention_example :
    (t : Text) × (ensure_franchise_notes (some (codes " Acompte ")) false ≡ some t)
    × (includes t (codes "293 B") ≡ true)
ensure_franchise_notes_mention_example = ensure_franchise_notes_mention (some (codes " Acompte "))

is_share_link_expired_iff_example : (is_share_link_expired ◌+◌ (some 10) (some 50) 60 ≡ true) ↔ (
    (holds_on (λ limit. ltb limit 60) (some 50) ≡ true)
    ⊎ (holds_on (λ sent. ltb (sent + 90) 60) (some 10) ≡ true))
is_share_link_expired_iff_example = is_share_link_expired_iff ◌+◌ (some 10) (some 50) 60
