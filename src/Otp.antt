-- ===== src/Otp.antt =====
-- src/lib/devis-signature-otp.ts: the one-time code that a client receives by mail to sign a quote.
pub mod Once
use devispropre.Base.{
  ℕ, ◌+◌, ◌-◌, ◌≤◌, ◌<◌, ◌≡◌, refl, Bool, true, false, not, ◌&&◌, Option, none, some, List, [], ◌∷◌,
  ◌++◌, arith, if◌then◌else◌, ◌==◌, leb, ltb, is_none, keep, all, length, Bool-cases, inl, inr,
}
use devispropre.Text.{Text, codes, text_eq, text_eq_refl, trim, is_space, starts_with}
use devispropre.ShareToken.{is_share_link_expired}
use devispropre.Table.{find_first, find_last_by, update_many, delete_many, count}

abbrev pub otp_ttl_ms : ℕ
otp_ttl_ms = 600000

abbrev pub otp_resend_cooldown_ms : ℕ
otp_resend_cooldown_ms = 60000

abbrev pub otp_max_verify_attempts : ℕ
otp_max_verify_attempts = 3

-- A row of "DevisSignatureOtp".
pub record Otp : Type 0 where
  pub id : Text
  pub devis_id : Text
  pub code_hash : Text
  pub email : Option Text
  pub attempts : ℕ
  pub expires_at : ℕ
  pub used_at : Option ℕ
  pub created_at : ℕ

-- `OtpVerifyOutcome`; a code that is accepted comes with its mail address and its date.
pub data Outcome : Type 0 where
  ok : Option Text → ℕ → Outcome
  invalid locked expired : Outcome

abbrev pub is_unused : Text → Otp → Bool
is_unused devis_id o = text_eq o.devis_id devis_id && is_none o.used_at

abbrev pub is_active : Text → ℕ → Otp → Bool
is_active devis_id now o = is_unused devis_id o && ltb now o.expires_at

-- `rawCode.trim().replace(/\s/g, "")`
abbrev pub normalize : Text → Text
normalize raw = keep (λ c. not (is_space c)) (trim raw)

-- `/^\d{6}$/`
abbrev pub is_code : Text → Bool
is_code s = length s == 6 && all (λ c. leb b'0' c && leb c b'9') s

abbrev pub spend : ℕ → Otp → Otp
spend now o = record o { used_at = some now }

-- a wrong code: one attempt more, and the last one spends the row
abbrev pub fail : ℕ → ℕ → Otp → Otp
fail attempts now o = record o {
  attempts = attempts;
  used_at = if leb otp_max_verify_attempts attempts then some now else o.used_at;
}

-- `mac` is the HMAC under the server's key, `sha256` the digest of the codes of old rows, `lower`
-- is `toLowerCase`.
module _ (mac sha256 lower : Text → Text) where
  -- `hashOtpCode`
  unfoldable pub hash_otp_code : Text → Text → Text
  hash_otp_code devis_id code = codes "h1:" ++ mac (devis_id ++ (b':' ∷ code))

  unfoldable pub otp_code_matches : Text → Text → Text → Bool
  otp_code_matches stored devis_id code =
      text_eq
        (if starts_with stored (codes "h1:") then hash_otp_code devis_id code else sha256 code)
        stored

  -- the transaction, given the last active row
  unfoldable pub try_code : Text → Text → ℕ → List Otp → Option Otp → Outcome × List Otp
  try_code devis_id code now table none = (expired, table)
  try_code devis_id code now table (some o) =
      let set : (Otp → Otp) → List Otp = λ f. update_many (λ r. text_eq r.id o.id) f table in
      if leb otp_max_verify_attempts o.attempts
      then (locked, set (spend now))
      else if not (otp_code_matches o.code_hash devis_id code)
      then (
        if leb otp_max_verify_attempts (o.attempts + 1) then locked else invalid,
        set (fail (o.attempts + 1) now),
      )
      else (ok o.email o.created_at, set (spend now))

  unfoldable pub verify_devis_signature_otp : Text → Text → ℕ → List Otp → Outcome × List Otp
  verify_devis_signature_otp devis_id raw now table =
      if not (is_code (normalize raw))
      then (invalid, table)
      else try_code devis_id (normalize raw) now table
          (find_last_by (λ o. o.created_at) (is_active devis_id now) table)

  -- A new code, unless one was sent within the minute; `delivered` says whether the mail left,
  -- and in production a code that did not is deleted with a `SignatureError`.
  unfoldable pub request_devis_signature_otp :
      (ℕ → ℕ → ℕ)
      → Option ℕ
      → Option ℕ
      → Text
      → Text
      → Text
      → Text
      → ℕ
      → Bool
      → Bool
      → List Otp
      → Bool × List Otp
  request_devis_signature_otp add_days sent_at valid_until id devis_id email code now delivered
        production table =
      let cleared = delete_many (is_unused devis_id) table in
      let row : Otp = record {
        id = id;
        devis_id = devis_id;
        code_hash = hash_otp_code devis_id code;
        email = some (lower (trim email));
        attempts = 0;
        expires_at = now + otp_ttl_ms;
        used_at = none;
        created_at = now;
      } in
      let sent = cleared ++ row ∷ [] in
      if is_share_link_expired add_days sent_at valid_until now
      then (true, table)
      else if not (
          count (λ o. is_active devis_id now o && ltb now (o.created_at + otp_resend_cooldown_ms))
            table
          == 0)
      then (true, table)
      else if delivered
      then (true, sent)
      else if production
      then (false, delete_many (is_unused devis_id) sent)
      else (true, sent)
