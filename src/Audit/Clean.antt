-- ===== src/Audit/Clean.antt =====
-- What `sanitizeAuditMetadata` lets into the journal.
use devispropre.Base.{
  ℕ, ◌≡◌, refl, ◌≢◌, inl, inr, Bool, true, false, ◌||◌, Option, none, some, List, [], ◌∷◌, arith,
  Bool-cases, keep, all, All,
}
use devispropre.Text.{Text, codes, text_eq, text_eq_iff, is_empty, slice_to}
use devispropre.Audit.{
  Meta, text, number, boolean, nothing, other, is_key_char, is_plain_char, safe_key, assign,
  put_clean, sanitize_from, sanitize_audit_metadata,
}

all-keep : (p : ℕ → Bool) (s : Text) → all p (keep p s) ≡ true
all-keep p [] = refl
all-keep p (c ∷ s) = ground (arith, all-keep p s)

-- A key of the journal: word characters, dots and dashes, not empty, and not "pdfUrl".
abbrev pub IsCleanKey : Text → Type 0
IsCleanKey k = (all is_key_char k ≡ true) × (is_empty k ≡ false) × (k ≢ codes "pdfUrl")

module _ {D : Type 0} where
  -- A value that is no text, or a text with no character below 32, "<" or ">".
  abbrev pub IsPlain : Meta D → Type 0
  IsPlain (text s) = all is_plain_char s ≡ true
  IsPlain (number a) = Unit
  IsPlain (boolean b) = Unit
  IsPlain nothing = Unit
  IsPlain other = ⊥

  abbrev pub IsClean : Text × Meta D → Type 0
  IsClean f = IsCleanKey f.0 × IsPlain f.1

  assign-IsClean :
      (k : Text) (v : Meta D) (out : List (Text × Meta D))
      → IsCleanKey k
      → IsPlain v
      → All IsClean out
      → All IsClean (assign k v out)
  unfolding assign
  assign-IsClean k v [] hk hv h = ((hk, hv), tt)
  assign-IsClean k v ((j, w) ∷ rest) hk hv (f, h) = elim (Bool-cases (text_eq j k)) [
    | inl e ↦ rw e ((f.0, hv), h)
    | inr e ↦ rw e (f, assign-IsClean k v rest hk hv h)
  ]

  put_clean-IsClean :
      (k : Text) (v : Meta D) (out : List (Text × Meta D))
      → IsCleanKey k
      → All IsClean out
      → All IsClean (put_clean k v out)
  unfolding put_clean
  put_clean-IsClean k (text s) out hk h =
      assign-IsClean k (text (keep is_plain_char (slice_to 500 s))) out hk
        (all-keep is_plain_char (slice_to 500 s)) h
  put_clean-IsClean k (number a) out hk h = assign-IsClean k (number a) out hk tt h
  put_clean-IsClean k (boolean b) out hk h = assign-IsClean k (boolean b) out hk tt h
  put_clean-IsClean k nothing out hk h = assign-IsClean k nothing out hk tt h
  put_clean-IsClean k other out hk h = h

  sanitize_from-IsClean :
      (metadata out : List (Text × Meta D))
      → All IsClean out
      → All IsClean (sanitize_from metadata out)
  unfolding sanitize_from safe_key
  sanitize_from-IsClean [] out h = h
  sanitize_from-IsClean ((k, v) ∷ rest) out h =
      let key = safe_key k in
      elim (Bool-cases (is_empty key || text_eq key (codes "pdfUrl"))) [
        | inl drop ↦ rw drop (sanitize_from-IsClean rest out h)
        | inr fine ↦ rw fine (
            sanitize_from-IsClean rest (put_clean key v out) (
              put_clean-IsClean key v out
                (
                  all-keep is_key_char (slice_to 64 k),
                  ground (arith, fine),
                  ground (arith, fine, text_eq_iff key (codes "pdfUrl")),
                )
                h))
      ]

  -- Whatever metadata a caller passes, each key that is stored is a non-empty word of letters,
  -- digits, "_", "." and "-" other than "pdfUrl", no stored text holds a character with a code
  -- below 32, "<" or ">", and no object is stored.
  pub sanitize_audit_metadata-IsClean :
      (metadata : Option (List (Text × Meta D))) → All IsClean (sanitize_audit_metadata metadata)
  unfolding sanitize_audit_metadata
  sanitize_audit_metadata-IsClean none = tt
  sanitize_audit_metadata-IsClean (some metadata) = sanitize_from-IsClean metadata [] tt
