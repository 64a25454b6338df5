-- ===== src/Audit/Sanitize.antt =====
-- The cleaning of what a caller hands to the journal, src/lib/audit.ts.
use devispropre.Base.{
  ℕ, Bool, not, ◌&&◌, ◌||◌, Option, none, some, List, [], ◌∷◌, leb, ltb, ◌==◌, if◌then◌else◌, keep,
  all,
}
use devispropre.Text.{Text, codes, text_eq, slice_to, trim, is_empty}

-- A metadata value; `other` is an object, an array or `undefined`, which is dropped.
pub data Meta (D : Type 0) : Type 0 where
  text : Text → Meta D
  number : D → Meta D
  boolean : Bool → Meta D
  nothing : Meta D
  other : Meta D

-- `[\w.-]`
unfoldable pub is_key_char : ℕ → Bool
is_key_char c =
    (leb b'a' c && leb c b'z')
    || (leb b'A' c && leb c b'Z')
    || (leb b'0' c && leb c b'9')
    || c == b'_'
    || c == b'.'
    || c == b'-'

-- not `[\x00-\x1f<>]`
unfoldable pub is_plain_char : ℕ → Bool
is_plain_char c = not (ltb c 32 || c == b'<' || c == b'>')

unfoldable pub safe_key : Text → Text
safe_key key = keep is_key_char (slice_to 64 key)

-- `out[key] = value`
unfoldable pub assign {ℓ} : {A : Type ℓ} → Text → A → List (Text × A) → List (Text × A)
assign k v [] = (k, v) ∷ []
assign k v ((j, w) ∷ rest) =
    let later = (j, w) ∷ assign k v rest in if text_eq j k then (j, v) ∷ rest else later

module _ {D : Type 0} where
  -- one round of the loop of `sanitizeAuditMetadata`
  unfoldable pub put_clean : Text → Meta D → List (Text × Meta D) → List (Text × Meta D)
  put_clean key (text s) out = assign key (text (keep is_plain_char (slice_to 500 s))) out
  put_clean key (number a) out = assign key (number a) out
  put_clean key (boolean b) out = assign key (boolean b) out
  put_clean key nothing out = assign key nothing out
  put_clean key other out = out

  unfoldable pub sanitize_from : List (Text × Meta D) → List (Text × Meta D) → List (Text × Meta D)
  sanitize_from [] out = out
  sanitize_from ((k, v) ∷ rest) out =
      let key = safe_key k in
      sanitize_from rest
        (if is_empty key || text_eq key (codes "pdfUrl") then out else put_clean key v out)

  unfoldable pub sanitize_audit_metadata : Option (List (Text × Meta D)) → List (Text × Meta D)
  sanitize_audit_metadata none = []
  sanitize_audit_metadata (some metadata) = sanitize_from metadata []

-- `/^[\d.:a-fA-F]+$/`
abbrev is_ip_char : ℕ → Bool
is_ip_char c =
    (leb b'0' c && leb c b'9')
    || c == b'.'
    || c == b':'
    || (leb b'a' c && leb c b'f')
    || (leb b'A' c && leb c b'F')

unfoldable pub sanitize_ip : Option Text → Option Text
sanitize_ip none = none
sanitize_ip (some ip) =
    let trimmed = slice_to 45 (trim ip) in
    if is_empty ip
    then none
    else if is_empty trimmed || not (all is_ip_char trimmed)
    then none
    else some trimmed

unfoldable pub sanitize_user_agent : Option Text → Option Text
sanitize_user_agent none = none
sanitize_user_agent (some ua) =
    if is_empty ua then none else some (keep is_plain_char (slice_to 200 ua))
