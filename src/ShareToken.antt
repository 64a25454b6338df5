-- ===== src/ShareToken.antt =====
-- src/lib/share-token.ts and `shareTokenLookupWhere` of src/lib/share-token-storage.ts: the links
-- by which a client opens a document.
use devispropre.Base.{
  ℕ, ◌≡◌, ◌↔◌, ◌⊎◌, Bool, true, false, ◌&&◌, ◌||◌, Option, none, some, arith, if◌then◌else◌, leb,
  ltb, ◌==◌, all, length, holds_on,
}
use devispropre.Text.{Text, text_eq, trim}
use devispropre.Platform.{Platform}

abbrev pub share_link_max_age_days : ℕ
share_link_max_age_days = 90

-- `/^[a-f0-9]{64}$/`
unfoldable pub is_valid_share_token_format : Text → Bool
is_valid_share_token_format token =
    length token == 64 && all (λ c. (leb b'a' c && leb c b'f') || (leb b'0' c && leb c b'9')) token

-- `reduce` over the two possible limits
unfoldable pub earliest : Option ℕ → Option ℕ → Option ℕ
earliest none none = none
earliest (some a) none = some a
earliest none (some b) = some b
earliest (some a) (some b) = some (if ltb b a then b else a)

-- `add_days` is `setDate(getDate() + n)` in local time, on milliseconds.
module _ (add_days : ℕ → ℕ → ℕ) where
  abbrev pub sent_limit : Option ℕ → Option ℕ
  sent_limit none = none
  sent_limit (some sent_at) = some (add_days sent_at share_link_max_age_days)

  unfoldable pub compute_share_link_expires_at : Option ℕ → Option ℕ → Option ℕ
  unfolding earliest
  compute_share_link_expires_at sent_at valid_until = earliest valid_until (sent_limit sent_at)

  unfoldable pub is_share_link_expired : Option ℕ → Option ℕ → ℕ → Bool
  unfolding compute_share_link_expires_at
  is_share_link_expired sent_at valid_until now =
      holds_on (λ limit. ltb limit now) (compute_share_link_expires_at sent_at valid_until)

  -- A link opens exactly as long as the time is not past the quote's own date, nor past ninety
  -- days from the day that it was sent; a limit that is not set is no limit.
  pub is_share_link_expired_iff :
      (sent_at valid_until : Option ℕ) (now : ℕ)
      → (is_share_link_expired sent_at valid_until now ≡ true) ↔ (
          (holds_on (λ limit. ltb limit now) valid_until ≡ true)
          ⊎ (holds_on (λ sent. ltb (add_days sent 90) now) sent_at ≡ true))
  unfolding is_share_link_expired
  is_share_link_expired_iff none none now = ground arith
  is_share_link_expired_iff (some s) none now = ground arith
  is_share_link_expired_iff none (some v) now = ground arith
  is_share_link_expired_iff (some s) (some v) now = ground arith

-- The rows that a raw token opens: by its hash, or the plain token of an old row.
unfoldable pub token_matches : {D : Type 0} → Platform D → Text → Option Text → Bool
unfolding is_valid_share_token_format
token_matches p raw none = false
token_matches p raw (some stored) =
    let trimmed = trim raw in
    text_eq stored (p.sha256 (trim trimmed))
    || (is_valid_share_token_format trimmed && text_eq stored trimmed)
