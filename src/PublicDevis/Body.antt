-- ===== src/PublicDevis/Body.antt =====
-- The limits of the public routes of quotes, the body of a decision and the mail address of a signer:
-- src/lib/public-api-limits.ts, signature-payload.ts, devis-signature-otp.ts and the schema of the route.
use devispropre.Base.{
  ℕ, ◌==◌, Bool, true, false, not, ◌&&◌, ◌||◌, Option, none, some, [], ◌∷◌, if◌then◌else◌, leb, ltb,
  all, length, drop, holds_on, or_else,
}
use devispropre.Text.{Text, codes, trim, is_empty, is_space, starts_with, units}
use devispropre.RateLimit.{Limit}
use devispropre.Devis.Sign.{EmailSource, client_record, declared_by_signer, Choice, accepte, refuse}

-- `PUBLIC_DEVIS_LIMITS`: so many calls an hour
abbrev an_hour : ℕ → Limit
an_hour n = record { max_attempts = n; window_ms = 3600000 }

abbrev pub sign_per_ip : Limit
sign_per_ip = an_hour 8

abbrev pub otp_request_per_ip : Limit
otp_request_per_ip = an_hour 5

abbrev pub otp_request_per_devis : Limit
otp_request_per_devis = an_hour 5

abbrev pub otp_verify_per_devis : Limit
otp_verify_per_devis = an_hour 5

-- the body of `POST`, once it is read as JSON
pub record StatusBody : Type 0 where
  pub choice : Choice
  pub acceptance_text : Option Text
  pub signature_data : Option Text
  pub otp_code : Option Text
  pub signer_name : Option Text
  pub retractation_info_acknowledged : Option Bool
  pub early_execution_requested : Option Bool

abbrev is_base64_char : ℕ → Bool
is_base64_char c =
    (leb b'A' c && leb c b'Z')
    || (leb b'a' c && leb c b'z')
    || (leb b'0' c && leb c b'9')
    || c == b'+'
    || c == b'/'
    || c == b'='

-- the first four bytes of a PNG file
abbrev is_png : Text → Bool
is_png (a ∷ b ∷ c ∷ d ∷ _) = a == 0x89 && b == 0x50 && c == 0x4e && d == 0x47
is_png _ = false

unfoldable pub validate_client_signature_data_uri : (Text → Text) → Text → Bool
validate_client_signature_data_uri decode uri =
    let b64 = drop 22 uri in
    starts_with uri (codes "data:image/png;base64,")
    && leb (units uri) 102400
    && not (is_empty b64)
    && all is_base64_char b64
    && leb (length (decode b64)) 102400
    && is_png (decode b64)

abbrev at_most : ℕ → Option Text → Bool
at_most n none = true
at_most n (some s) = leb (units s) n

abbrev pub is_true : Option Bool → Bool
is_true none = false
is_true (some b) = b

-- `superRefine`
abbrev is_signed : (Text → Text) → StatusBody → Bool
is_signed decode body =
    holds_on (λ s. not (is_empty (trim s))) body.acceptance_text
    && holds_on (validate_client_signature_data_uri decode) body.signature_data
    && holds_on (λ s. leb 2 (units (trim s))) body.signer_name
    && holds_on (λ s. not (is_empty (trim s))) body.otp_code
    && is_true body.retractation_info_acknowledged

abbrev is_refusal : Choice → Bool
is_refusal refuse = true
is_refusal accepte = false

-- `statusSchema`
unfoldable pub is_valid_body : (Text → Text) → StatusBody → Bool
is_valid_body decode body =
    at_most 200 body.acceptance_text
    && not (holds_on is_empty body.acceptance_text)
    && at_most 102400 body.signature_data
    && at_most 12 body.otp_code
    && at_most 120 body.signer_name
    && (is_refusal body.choice || is_signed decode body)

-- `[^\s@]`
abbrev is_mail_char : ℕ → Bool
is_mail_char c = not (is_space c || c == b'@')

-- `[^\s@]+\.[^\s@]+` and nothing more: a dot that is neither the first nor the last character
unfoldable pub has_inner_dot : Text → Bool
has_inner_dot [] = false
has_inner_dot (c ∷ []) = false
has_inner_dot (c ∷ d ∷ s) =
    let rest = has_inner_dot (d ∷ s) in d == b'.' && not (is_empty s) || rest

abbrev is_domain : Text → Bool
is_domain s = all is_mail_char s && has_inner_dot s

-- `EMAIL_RE`; the test says whether a character stands before the sign.
unfoldable pub is_mail : Bool → Text → Bool
is_mail begun [] = false
is_mail begun (c ∷ s) =
    let rest = is_mail true s in if c == b'@' then begun && is_domain s else is_mail_char c && rest

unfoldable pub normalize_signer_email : (Text → Text) → Option Text → Option Text
normalize_signer_email lower email =
    let normalized = lower (trim (or_else email [])) in
    if is_empty normalized || ltb 254 (units normalized) || not (is_mail false normalized)
    then none
    else some normalized

abbrev declared : Option Text → Option (Text × EmailSource)
declared none = none
declared (some email) = some (email, declared_by_signer)

abbrev recorded_or : Option Text → Option Text → Option (Text × EmailSource)
recorded_or (some email) other = some (email, client_record)
recorded_or none other = declared other

unfoldable pub resolve_signer_email :
    (Text → Text) → Option Text → Option Text → Option (Text × EmailSource)
resolve_signer_email lower client_email declared_email =
    recorded_or (normalize_signer_email lower client_email)
      (normalize_signer_email lower declared_email)

-- `.replace(/\s+/g, " ")`; the test says whether the character before was a space.
unfoldable pub single_spaces : Bool → Text → Text
single_spaces after [] = []
single_spaces after (c ∷ s) =
    let word = single_spaces false s in
    let space = single_spaces true s in
    if is_space c then if after then space else b' ' ∷ space else c ∷ word
