-- ===== src/Platform.antt =====
-- What the sources take from Node.js: the numbers of the language, SHA-256 (wrapped by `sha256` of
-- src/lib/crypto.ts), the text of a date and the answers of the object store. No definition is made up for them.
use devispropre.Base.{ℕ, Bool, ◌≡◌, ◌≢◌}
use devispropre.Text.{Text}
use devispropre.Money.{Number}

pub record Platform (D : Type 0) : Type 0 where
  pub number : Number D
  pub sha256 : Text → Text
  -- `date.toISOString()`, of milliseconds
  pub iso_string : ℕ → Text
  -- whether the object store carries out the deletion of a key, or fails
  pub deletes : Text → Bool

-- Two texts with one digest.
abbrev pub Collision : (Text → Text) → Type 0
Collision digest = (s : Text) × (t : Text) × (s ≢ t) × (digest s ≡ digest t)
