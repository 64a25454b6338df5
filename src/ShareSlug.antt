-- ===== src/ShareSlug.antt =====
-- src/lib/share-slug.ts: the readable addresses of the documents that are shared.
pub mod Found
use devispropre.Base.{
  ℕ, zero, suc, ◌+◌, ◌*◌, Bool, true, false, not, ◌&&◌, ◌||◌, Option, none, some, List, [], ◌∷◌,
  ◌++◌, keep, leb, ◌==◌, if◌then◌else◌, is_some, holds_on, all, length, head_or, last_or, drop,
}
use devispropre.Platform.{Platform}
use devispropre.ShareToken.{is_valid_share_token_format, token_matches}
use devispropre.Text.{starts_with, Text, codes, text_eq, is_empty, trim, slice_to, truthy}
use devispropre.Table.{find_first}
use devispropre.Decimal.{decimal}
use devispropre.World.{Devis, Facture, World}

abbrev is_slug_char : ℕ → Bool
is_slug_char c = (leb b'a' c && leb c b'z') || (leb b'0' c && leb c b'9')

-- `.replace(/[^a-z0-9]+/g, "-")`; the test says whether the character before was replaced.
unfoldable pub dash_runs : Bool → Text → Text
dash_runs in_run [] = []
dash_runs in_run (c ∷ s) =
    let next = dash_runs false s in
    let run = dash_runs true s in
    if is_slug_char c then c ∷ next else if in_run then run else b'-' ∷ run

unfoldable pub drop_dashes : Text → Text
drop_dashes [] = []
drop_dashes (c ∷ s) = let rest = drop_dashes s in if c == b'-' then rest else c ∷ s

unfoldable pub drop_last_dashes : Text → Text
drop_last_dashes [] = []
drop_last_dashes (c ∷ s) =
    let rest = drop_last_dashes s in if c == b'-' && is_empty rest then [] else c ∷ rest

-- `.replace(/-{2,}/g, "-")`; the test says whether the character before was a dash.
unfoldable pub single_dashes : Bool → Text → Text
single_dashes after [] = []
single_dashes after (c ∷ s) =
    let rest = single_dashes (c == b'-') s in if after && c == b'-' then rest else c ∷ rest

-- `/[a-f0-9]/i`
abbrev pub is_hex : ℕ → Bool
is_hex c = (leb b'a' c && leb c b'f') || (leb b'A' c && leb c b'F') || (leb b'0' c && leb c b'9')

pub data Kind : Type 0 where
  devis facture : Kind

-- `lower` is `toLowerCase`.
module _ (lower : Text → Text) where
  unfoldable pub slugify_document_numero : Text → Text
  slugify_document_numero numero =
      single_dashes false (drop_last_dashes (drop_dashes (dash_runs false (lower (trim numero)))))

  abbrev with_prefix : Text → Text → Text
  with_prefix prefix [] = prefix ++ codes "document"
  with_prefix prefix (c ∷ s) = prefix ++ (c ∷ s)

  -- `buildDevisShareSlug`, `buildFactureShareSlug`
  unfoldable pub build_share_slug : Kind → Text → Text
  build_share_slug devis numero = with_prefix (codes "devis-") (slugify_document_numero numero)
  build_share_slug facture numero = with_prefix (codes "facture-") (slugify_document_numero numero)

abbrev pub has_slug : Text → Option Text → Bool
has_slug slug s = holds_on (λ t. text_eq t slug) s

unfoldable pub share_slug_exists : {D : Type 0} → World D → Text → Bool
share_slug_exists w slug =
    is_some (find_first (λ d. has_slug slug d.share_slug) w.devis)
    || is_some (find_first (λ f. has_slug slug f.share_slug) w.factures)

abbrev pub suffixed : Text → Text → ℕ → Text
suffixed base [] attempt = base ++ (b'-' ∷ decimal attempt)
suffixed base (c ∷ s) attempt = base ++ (b'-' ∷ c ∷ s)

-- the text that is tried at an attempt after the first
unfoldable pub candidate : Text → Text → ℕ → Text
candidate base token_raw attempt =
    suffixed base (slice_to (4 + attempt * 2) (keep is_hex token_raw)) attempt

-- the loop, on fuel: `next` is the candidate to try
unfoldable pub find_slug : {D : Type 0} → World D → Text → Text → ℕ → ℕ → Text → Option Text
find_slug w base token_raw zero attempt next = none
find_slug w base token_raw (suc fuel) attempt next =
    let rest =
      find_slug w base token_raw fuel (suc attempt) (candidate base token_raw (suc attempt)) in
    if share_slug_exists w next then rest else some next

abbrev pub ensure_unique_share_slug :
    {D : Type 0} → (Text → Text) → World D → ℕ → Kind → Text → Text → Option Text
ensure_unique_share_slug lower w fuel kind numero token_raw =
    let base = build_share_slug lower kind numero in find_slug w base token_raw fuel 0 base

-- What follows "devis-" or "facture-" in `SLUG_PATTERN`: `[a-z0-9][a-z0-9-]{1,78}[a-z0-9]`.
abbrev is_slug_rest : Text → Bool
is_slug_rest s =
    leb 3 (length s)
    && leb (length s) 80
    && all (λ c. is_slug_char c || c == b'-') s
    && is_slug_char (head_or s 0)
    && is_slug_char (last_or s 0)

abbrev after_prefix : Text → Option Text
after_prefix s =
    if starts_with s (codes "devis-")
    then some (drop 6 s)
    else if starts_with s (codes "facture-")
    then some (drop 8 s)
    else none

-- `lower` is `toLowerCase`, `decode` is `decodeURIComponent`.
module _ (lower decode : Text → Text) where
  unfoldable pub is_valid_share_slug_format : Text → Bool
  is_valid_share_slug_format ref = holds_on is_slug_rest (after_prefix (lower (trim ref)))

  unfoldable pub is_valid_public_share_ref : Text → Bool
  is_valid_public_share_ref ref =
      is_valid_share_token_format (trim ref) || is_valid_share_slug_format (trim ref)

  -- `publicShareLookupWhere`, as a test of a row's token and address
  unfoldable pub public_share_matches :
      {D : Type 0} → Platform D → Text → Option Text → Option Text → Bool
  public_share_matches p ref token_hash slug =
      let trimmed = decode (trim ref) in
      if is_valid_share_token_format trimmed
      then token_matches p trimmed token_hash
      else is_valid_share_slug_format trimmed && has_slug (lower trimmed) slug

-- `resolvePublicShareRef`; `resolve_raw` is `resolveShareTokenRaw` of share-token-storage.ts.
unfoldable pub resolve_public_share_ref :
    (Option Text → Option Text → Option Text)
    → Option Text
    → Option Text
    → Option Text
    → Option Text
resolve_public_share_ref resolve_raw slug hash enc = elim (truthy slug) [
  | none ↦ resolve_raw hash enc
  | some s ↦ some s
]
