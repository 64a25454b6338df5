-- ===== src/ShareSlug/Found.antt =====
-- The loop that looks for a free address ends.
use devispropre.Base.{
  ℕ, zero, suc, ◌+◌, ◌*◌, ◌≤◌, ◌<◌, ◌≡◌, refl, ap, ◌∙◌, Bool, true, false, ◌&&◌, Option, some, List,
  [], ◌∷◌, ◌++◌, keep, take, length, length-append, length-take, arith, ltb, is_some, holds_on, All,
  Bool-cases, Option-cases, inl, inr,
}
use devispropre.Text.{Text, text_eq, text_eq_sound, slice_to, starts_with}
use devispropre.Table.{find_first, count}
use devispropre.World.{Devis, Facture, World}
use devispropre.ShareSlug.{
  Kind, is_hex, has_slug, share_slug_exists, suffixed, candidate, find_slug,
  ensure_unique_share_slug, build_share_slug,
}

-- an address that begins in this way and is shorter than a bound
abbrev pub is_short : Text → ℕ → Option Text → Bool
is_short start n s = holds_on (λ t. starts_with t start && ltb (length t) n) s

abbrev pub begins : Text → Option Text → Bool
begins start s = holds_on (λ t. starts_with t start) s

module _ {A : Type 0} (slug : A → Option Text) where
  count-is_short_le :
      (start : Text) (m n : ℕ) (xs : List A)
      → m ≤ n
      → count (λ x. is_short start m (slug x)) xs ≤ count (λ x. is_short start n (slug x)) xs
  unfolding count
  count-is_short_le start m n [] h = omega arith
  count-is_short_le start m n (x ∷ xs) h =
      let rest = count-is_short_le start m n xs h in
      elim (Option-cases (slug x)) [
        | inl e ↦ rw e rest
        | inr (t, e) ↦ rw e (ground (arith, h, rest))
      ]

  count-begins :
      (start : Text) (n : ℕ) (xs : List A)
      → count (λ x. is_short start n (slug x)) xs ≤ count (λ x. begins start (slug x)) xs
  unfolding count
  count-begins start n [] = omega arith
  count-begins start n (x ∷ xs) =
      let rest = count-begins start n xs in
      elim (Option-cases (slug x)) [ inl e ↦ rw e rest | inr (t, e) ↦ rw e (ground (arith, rest)) ]

  -- A row that has the address is one more below a bound above its length.
  count-taken :
      (start c : Text) (m n : ℕ) (xs : List A)
      → is_some (find_first (λ x. has_slug c (slug x)) xs) ≡ true
      → starts_with c start ≡ true
      → m ≤ length c
      → length c < n
      → count (λ x. is_short start m (slug x)) xs < count (λ x. is_short start n (slug x)) xs
  unfolding count find_first
  count-taken start c m n [] h b k l = cc
  count-taken start c m n (x ∷ xs) h b k l =
      let fewer = count-is_short_le start m n xs (omega (arith, k, l)) in
      elim (Option-cases (slug x)) [
        | inl e ↦ rw e (count-taken start c m n xs (rw (e, find_first) at h) b k l)
        | inr (t, e) ↦ elim (Bool-cases (text_eq t c)) [
          | inl own ↦ rw (e ∙ ap some (text_eq_sound t c own), b) (ground (arith, k, l, fewer))
          | inr no_own ↦
              let rest = count-taken start c m n xs (rw (e, no_own, find_first) at h) b k l in
              rw e (ground (arith, k, l, rest))
        ]
      ]

-- How many documents have such an address.
abbrev pub short_count : {D : Type 0} → Text → ℕ → World D → ℕ
short_count start n w =
    count (λ d. is_short start n d.share_slug) w.devis
    + count (λ f. is_short start n f.share_slug) w.factures

abbrev pub begin_count : {D : Type 0} → Text → World D → ℕ
begin_count start w =
    count (λ d. begins start d.share_slug) w.devis
    + count (λ f. begins start f.share_slug) w.factures

short_taken :
    {D : Type 0} (start c : Text) (m n : ℕ) (w : World D)
    → share_slug_exists w c ≡ true
    → starts_with c start ≡ true
    → m ≤ length c
    → length c < n
    → short_count start m w < short_count start n w
unfolding share_slug_exists
short_taken start c m n w h b k l =
    let m_n : m ≤ n = omega (arith, k, l) in
    let devis = count-is_short_le (λ (d : Devis _). d.share_slug) start m n w.devis m_n in
    let factures = count-is_short_le (λ (f : Facture _). f.share_slug) start m n w.factures m_n in
    elim (Bool-cases (is_some (find_first (λ d. has_slug c d.share_slug) w.devis))) [
      | inl here ↦ omega (
        arith,
        count-taken (λ (d : Devis _). d.share_slug) start c m n w.devis here b k l,
        factures,
      )
      | inr there ↦ omega (
        arith,
        devis,
        count-taken (λ (f : Facture _). f.share_slug) start c m n w.factures (rw there at h) b k l,
      )
    ]

-- Digits are one unit each, and the first digits begin every longer run of digits.
hex-units : (t : Text) → All (λ c. ltb c 0x10000 ≡ true) (keep is_hex t)
hex-units [] = tt
hex-units (c ∷ t) = elim (Bool-cases (is_hex c)) [
  | inl h ↦ rw h (ground (arith, h), hex-units t)
  | inr h ↦ rw h (hex-units t)
]

slice_to-units : (n : ℕ) (s : Text) → All (λ c. ltb c 0x10000 ≡ true) s → slice_to n s ≡ take n s
unfolding slice_to
slice_to-units zero [] h = refl
slice_to-units (suc n) [] h = refl
slice_to-units zero (c ∷ s) h = refl
slice_to-units (suc zero) (c ∷ s) (e, h) = rw e refl
slice_to-units (suc (suc n)) (c ∷ s) (e, h) = rw e (ap (λ r. c ∷ r) (slice_to-units (suc n) s h))

starts_with-take : (m n : ℕ) (t : Text) → m ≤ n → starts_with (take n t) (take m t) ≡ true
unfolding starts_with
starts_with-take zero n t h = ground arith
starts_with-take (suc m) zero t h = absurd (omega (arith, h))
starts_with-take (suc m) (suc n) [] h = refl
starts_with-take (suc m) (suc n) (c ∷ t) h =
    ground (arith, starts_with-take m n t (omega (arith, h)))

starts_with-same :
    (base s t : Text) → starts_with s t ≡ true → starts_with (base ++ s) (base ++ t) ≡ true
unfolding starts_with
starts_with-same [] s t h = h
starts_with-same (c ∷ base) s t h = ground (arith, starts_with-same base s t h)

suffixed_digits : (base s : Text) (k : ℕ) → 1 ≤ length s → suffixed base s k ≡ base ++ (b'-' ∷ s)
suffixed_digits base [] k h = absurd (omega (arith, h))
suffixed_digits base (c ∷ s) k h = refl

module _ (base token_raw : Text) (enough : 64 ≤ length (keep is_hex token_raw)) where
  -- what every candidate but the first begins with
  abbrev pub start : Text
  start = base ++ (b'-' ∷ take 6 (keep is_hex token_raw))

  candidate_digits :
      (k : ℕ)
      → candidate base token_raw k ≡ base ++ (b'-' ∷ take (4 + k * 2) (keep is_hex token_raw))
  unfolding candidate
  candidate_digits k =
      let hex = keep is_hex token_raw in
      rw (slice_to-units (4 + k * 2) hex (hex-units token_raw)) (
        suffixed_digits base (take (4 + k * 2) hex) k
          (omega (arith, length-take (4 + k * 2) hex, enough)))

  length-candidate :
      (k : ℕ) → k ≤ 30 → length (candidate base token_raw k) ≡ length base + 5 + k * 2
  length-candidate k h =
      let hex = keep is_hex token_raw in
      rw (candidate_digits k) (
        omega (
          arith,
          length-append base (b'-' ∷ take (4 + k * 2) hex),
          length-take (4 + k * 2) hex,
          enough,
          h,
        ))

  candidate_starts : (k : ℕ) → 1 ≤ k → starts_with (candidate base token_raw k) start ≡ true
  unfolding starts_with
  candidate_starts k h =
      let hex = keep is_hex token_raw in
      rw (candidate_digits k) (
        starts_with-same base (b'-' ∷ take (4 + k * 2) hex) (b'-' ∷ take 6 hex)
          (starts_with-take 6 (4 + k * 2) hex (omega (arith, h))))

  module _ {D : Type 0} (w : World D) (few : begin_count start w ≤ 29) where
    abbrev IsFound : Option Text → Type 0
    IsFound r = (slug : Text) × (r ≡ some slug) × (share_slug_exists w slug ≡ false)

    short_few : (n : ℕ) → short_count start n w ≤ 29
    short_few n = omega (
      arith,
      few,
      count-begins (λ (d : Devis D). d.share_slug) start n w.devis,
      count-begins (λ (f : Facture D). f.share_slug) start n w.factures,
    )

    from_attempt :
        (fuel j : ℕ)
        → j + fuel ≡ 30
        → j ≤ short_count start (length base + 5 + suc j * 2) w
        → IsFound (find_slug w base token_raw fuel (suc j) (candidate base token_raw (suc j)))
    unfolding find_slug
    from_attempt zero j e h = absurd (omega (arith, e, h, short_few (length base + 5 + suc j * 2)))
    from_attempt (suc fuel) j e h =
        elim (Bool-cases (share_slug_exists w (candidate base token_raw (suc j)))) [
          | inl taken ↦
              let long = length-candidate (suc j) (omega (arith, e)) in
              let more =
                short_taken start (candidate base token_raw (suc j)) (length base + 5 + suc j * 2)
                  (length base + 5 + suc (suc j) * 2) w taken
                  (candidate_starts (suc j) (omega arith)) (omega (arith, long))
                  (omega (arith, long)) in
              rw taken (from_attempt fuel (suc j) (omega (arith, e)) (omega (arith, more, h)))
          | inr free ↦ rw free (candidate base token_raw (suc j), refl, free)
        ]

    find_slug-free :
        (slug : Text) × (find_slug w base token_raw 31 0 base ≡ some slug)
        × (share_slug_exists w slug ≡ false)
    unfolding find_slug
    find_slug-free = elim (Bool-cases (share_slug_exists w base)) [
      | inl taken ↦ rw taken (from_attempt 30 0 refl (omega arith))
      | inr free ↦ rw free (base, refl, free)
    ]

-- The loop ends within 31 attempts on an address that no document has, where the token has 64 digits
-- and fewer than thirty documents have an address that begins with the base and the first six digits
-- of the token.
pub ensure_unique_share_slug-free :
    {D : Type 0} (lower : Text → Text) (w : World D) (kind : Kind) (numero token_raw : Text)
    → 64 ≤ length (keep is_hex token_raw)
    → begin_count (build_share_slug lower kind numero ++ (b'-' ∷ take 6 (keep is_hex token_raw))) w
      ≤ 29
    → (slug : Text) × (ensure_unique_share_slug lower w 31 kind numero token_raw ≡ some slug)
      × (share_slug_exists w slug ≡ false)
ensure_unique_share_slug-free lower w kind numero token_raw enough few =
    find_slug-free (build_share_slug lower kind numero) token_raw enough w few
