-- ===== src/RateLimit.antt =====
-- `checkRateLimit` of src/lib/rate-limit.ts: the buckets that the server shares, and the number of
-- calls that one lets through before it is reset. A call is one transaction.
use devispropre.Base.{
  ap, ◌∙◌, ℕ, ◌+◌, ◌≤◌, ◌<◌, ◌≡◌, refl, Bool, true, false, Option, none, some, List, [], ◌∷◌, arith,
  if◌then◌else◌, leb, inl, inr, ◌⊎◌, leb→le, subst, ◌-◌, min, length, All, Bool-cases,
}
use devispropre.Text.{Text, text_eq, text_eq_refl, text_eq_iff}
use devispropre.Table.{find_first, find_first_passes}

-- A row of "RateLimitBucket"; its key is unique.
pub record Bucket : Type 0 where
  pub key : Text
  pub calls : ℕ
  pub reset_at : ℕ

-- `{ maxAttempts, windowMs }`
pub record Limit : Type 0 where
  pub max_attempts : ℕ
  pub window_ms : ℕ

abbrev pub has_key : Text → Bucket → Bool
has_key key b = text_eq b.key key

abbrev pub find_bucket : Text → List Bucket → Option Bucket
find_bucket key table = find_first (has_key key) table

-- `upsert`, and `update` of a row that is there
unfoldable pub put : Bucket → List Bucket → List Bucket
put b [] = b ∷ []
put b (c ∷ table) = let rest = c ∷ put b table in if text_eq c.key b.key then b ∷ table else rest

abbrev pub fresh : Text → Limit → ℕ → Bucket
fresh key limit now = record { key = key; calls = 1; reset_at = now + limit.window_ms }

-- the body of the transaction, given `existing`
unfoldable pub use_bucket : Text → Limit → ℕ → List Bucket → Option Bucket → Bool × List Bucket
use_bucket key limit now table none = (true, put (fresh key limit now) table)
use_bucket key limit now table (some b) =
    if leb b.reset_at now
    then (true, put (fresh key limit now) table)
    else if leb limit.max_attempts b.calls
    then (false, table)
    else (true, put (record b { calls = b.calls + 1 }) table)

-- Whether the call is allowed (a refusal throws `RateLimitError`), and the table after it.
unfoldable pub check_rate_limit : Text → Limit → ℕ → List Bucket → Bool × List Bucket
check_rate_limit key limit now table = use_bucket key limit now table (find_bucket key table)

-- The calls that are let through, of calls with one key at the given times.
unfoldable pub allowed : Text → Limit → List ℕ → List Bucket → ℕ
allowed key limit [] table = 0
allowed key limit (now ∷ times) table =
    let (ok, table') = check_rate_limit key limit now table in
    let rest = allowed key limit times table' in if ok then rest + 1 else rest

find_bucket-put : (b : Bucket) (table : List Bucket) → find_bucket b.key (put b table) ≡ some b
unfolding find_first put
find_bucket-put b [] = rw (text_eq_refl b.key) refl
find_bucket-put b (c ∷ table) = elim (Bool-cases (text_eq c.key b.key)) [
  | inl same ↦ rw (same, find_first, text_eq_refl b.key) refl
  | inr other ↦ rw (other, find_first, other) (find_bucket-put b table)
]

le_or_lt : (a b : ℕ) → (a ≤ b) ⊎ (b < a)
le_or_lt a b = elim (Bool-cases (leb a b)) [
  | inl h ↦ inl (leb→le a b h)
  | inr h ↦ inr (ground (arith, h))
]

module _ (key : Text) (limit : Limit) where
  abbrev next : Bucket → Bucket
  next b = record b { calls = b.calls + 1 }

  refused :
      (t : ℕ) (b : Bucket) (table : List Bucket)
      → find_bucket key table ≡ some b
      → t < b.reset_at
      → limit.max_attempts ≤ b.calls
      → check_rate_limit key limit t table ≡ (false, table)
  unfolding check_rate_limit use_bucket
  refused t b table h k full =
      let open_ : leb b.reset_at t ≡ false = ground (arith, k) in
      let full_ : leb limit.max_attempts b.calls ≡ true = ground (arith, full) in
      ap (use_bucket key limit t table) h ∙ rw (open_, full_) refl

  counted :
      (t : ℕ) (b : Bucket) (table : List Bucket)
      → find_bucket key table ≡ some b
      → t < b.reset_at
      → b.calls < limit.max_attempts
      → check_rate_limit key limit t table ≡ (true, put (next b) table)
  unfolding check_rate_limit use_bucket
  counted t b table h k room =
      let open_ : leb b.reset_at t ≡ false = ground (arith, k) in
      let room_ : leb limit.max_attempts b.calls ≡ false = ground (arith, room) in
      ap (use_bucket key limit t table) h ∙ rw (open_, room_) refl

  -- No bucket of the key is open at the time.
  abbrev pub IsClosed : ℕ → Option Bucket → Type 0
  IsClosed t none = Unit
  IsClosed t (some b) = b.reset_at ≤ t

  started :
      (t : ℕ) (table : List Bucket) (o : Option Bucket)
      → find_bucket key table ≡ o
      → IsClosed t o
      → check_rate_limit key limit t table ≡ (true, put (fresh key limit t) table)
  unfolding check_rate_limit use_bucket
  started t table none h k = ap (use_bucket key limit t table) h
  started t table (some b) h k =
      let closed : leb b.reset_at t ≡ true = ground (arith, k) in
      ap (use_bucket key limit t table) h ∙ rw closed refl

  found-put :
      (b : Bucket) (table : List Bucket) → b.key ≡ key → find_bucket key (put b table) ≡ some b
  found-put b table e =
      subst (λ k. find_bucket k (put b table) ≡ some b) e (find_bucket-put b table)

  own_key : (b : Bucket) (table : List Bucket) → find_bucket key table ≡ some b → b.key ≡ key
  own_key b table h = (text_eq_iff b.key key).0 (find_first_passes (has_key key) table b h)

  allowed-open :
      (times : List ℕ) (b : Bucket) (table : List Bucket)
      → find_bucket key table ≡ some b
      → All (λ t. t < b.reset_at) times
      → allowed key limit times table ≡ min (length times) (limit.max_attempts - b.calls)
  unfolding allowed
  allowed-open [] b table h k = omega arith
  allowed-open (t ∷ times) b table h (k, ks) = elim (le_or_lt limit.max_attempts b.calls) [
    | inl full ↦
        rw (refused t b table h k full) (omega (arith, full, allowed-open times b table h ks))
    | inr room ↦
        let later = found-put (next b) table (own_key b table h) in
        rw (counted t b table h k room)
          (omega (arith, room, allowed-open times (next b) (put (next b) table) later ks))
  ]

  -- Of a call that opens a window, and any calls with the same key that follow before the window
  -- ends, exactly the first `maxAttempts` are let through, where that number is not zero.
  pub allowed-window :
      (t : ℕ) (times : List ℕ) (table : List Bucket)
      → IsClosed t (find_bucket key table)
      → All (λ later. later < t + limit.window_ms) times
      → 1 ≤ limit.max_attempts
      → allowed key limit (t ∷ times) table ≡ min (length (t ∷ times)) limit.max_attempts
  unfolding allowed
  allowed-window t times table closed ks some_ =
      rw (started t table (find_bucket key table) refl closed) (
        omega (
          arith,
          some_,
          allowed-open times (fresh key limit t) (put (fresh key limit t) table)
              (found-put (fresh key limit t) table refl) ks,
        ))
