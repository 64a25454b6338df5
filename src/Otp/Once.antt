-- ===== src/Otp/Once.antt =====
-- A code is accepted once, and only against a row with attempts left.
use devispropre.Base.{
  ℕ, ◌+◌, ◌<◌, ◌≡◌, refl, Bool, true, false, ◌&&◌, Option, none, some, List, [], ◌∷◌, arith,
  if◌then◌else◌, leb, Bool-cases, inl, inr,
}
use devispropre.Text.{Text, text_eq}
use devispropre.Table.{find_last_by, update_many, count}
use devispropre.Otp.{
  Otp, ok, invalid, locked, expired, is_active, normalize, is_code, spend, otp_max_verify_attempts,
  otp_code_matches, try_code, verify_devis_signature_otp,
}

-- A change after which no row that it touched passes the test.
count-update_many_zero :
    {A : Type 0} (q p : A → Bool) (f : A → A) (xs : List A)
    → ((x : A) → p x ≡ true → q (f x) ≡ false)
    → ((x : A) → p x ≡ false → q x ≡ false)
    → count q (update_many p f xs) ≡ 0
unfolding count update_many
count-update_many_zero q p f [] h k = refl
count-update_many_zero q p f (x ∷ xs) h k = elim (Bool-cases (p x)) [
  | inl e ↦ rw (e, h x e) (count-update_many_zero q p f xs h k)
  | inr e ↦ rw (e, k x e) (count-update_many_zero q p f xs h k)
]

-- A row with the identifier that can still be tried.
abbrev pub is_open : Text → Text → ℕ → Otp → Bool
is_open id devis_id now r = text_eq r.id id && is_active devis_id now r

spent :
    (id devis_id : Text) (now later : ℕ) (table : List Otp)
    → count (is_open id devis_id later) (update_many (λ r. text_eq r.id id) (spend now) table) ≡ 0
spent id devis_id now later table =
    count-update_many_zero (is_open id devis_id later) (λ r. text_eq r.id id) (spend now) table
      (λ r e. ground arith) (λ r e. rw e refl)

locked_no_ok : (email : Option Text) (t : ℕ) → locked ≡ ok email t → ⊥
locked_no_ok email t h = cc

expired_no_ok : (email : Option Text) (t : ℕ) → expired ≡ ok email t → ⊥
expired_no_ok email t h = cc

invalid_no_ok : (email : Option Text) (t : ℕ) → invalid ≡ ok email t → ⊥
invalid_no_ok email t h = cc

wrong_no_ok :
    (b : Bool) (email : Option Text) (t : ℕ) → (if b then locked else invalid) ≡ ok email t → ⊥
wrong_no_ok true email t h = locked_no_ok email t h
wrong_no_ok false email t h = invalid_no_ok email t h

leb_no :
    (o : Otp)
    → leb otp_max_verify_attempts o.attempts ≡ false
    → o.attempts < otp_max_verify_attempts
leb_no o h = ground arith

module _ (mac sha256 lower : Text → Text) where
  -- What it takes for a code to be accepted, and that the row cannot be tried again.
  abbrev pub Accepted : Text → Text → ℕ → List Otp → Option Otp → List Otp → Type 0
  Accepted devis_id code now table none table' = ⊥
  Accepted devis_id code now table (some o) table' =
      (o.attempts < otp_max_verify_attempts)
      × (otp_code_matches mac sha256 lower o.code_hash devis_id code ≡ true)
      × ((later : ℕ) → count (is_open o.id devis_id later) table' ≡ 0)

  try_code-Accepted :
      (devis_id code : Text) (now : ℕ) (table : List Otp) (o : Option Otp) (email : Option Text)
      (sent_at : ℕ)
      → (try_code mac sha256 lower devis_id code now table o).0 ≡ ok email sent_at
      → Accepted devis_id code now table o (try_code mac sha256 lower devis_id code now table o).1
  unfolding try_code
  try_code-Accepted devis_id code now table none email sent_at h =
      absurd (expired_no_ok email sent_at h)
  try_code-Accepted devis_id code now table (some o) email sent_at h =
      elim (Bool-cases (leb otp_max_verify_attempts o.attempts)) [
        | inl full ↦ absurd (locked_no_ok email sent_at (rw full at h))
        | inr room ↦
            elim (Bool-cases (otp_code_matches mac sha256 lower o.code_hash devis_id code)) [
              | inl right ↦ (
                leb_no o room,
                right,
                λ later. rw (room, right) (spent o.id devis_id now later table),
              )
              | inr wrong ↦ absurd (
                  wrong_no_ok (leb otp_max_verify_attempts (o.attempts + 1)) email sent_at
                    (rw (room, wrong) at h))
            ]
      ]

  -- A code that is accepted has six digits and is the code of the last row of the quote that is
  -- unused and not past its date; fewer than three wrong codes were tried on that row; and the row
  -- can not be tried again at any later time.
  pub verify_devis_signature_otp-Accepted :
      (devis_id raw : Text) (now : ℕ) (table : List Otp) (email : Option Text) (sent_at : ℕ)
      → (verify_devis_signature_otp mac sha256 lower devis_id raw now table).0 ≡ ok email sent_at
      → (is_code (normalize raw) ≡ true)
        × Accepted devis_id
            (normalize raw)
            now
            table
            (find_last_by (λ o. o.created_at) (is_active devis_id now) table)
            (verify_devis_signature_otp mac sha256 lower devis_id raw now table).1
  unfolding verify_devis_signature_otp
  verify_devis_signature_otp-Accepted devis_id raw now table email sent_at h =
      elim (Bool-cases (is_code (normalize raw))) [
        | inl six ↦ (
          six,
          rw six (
              try_code-Accepted devis_id (normalize raw) now table
                (find_last_by (λ o. o.created_at) (is_active devis_id now) table) email sent_at
                (rw six at h)),
        )
        | inr other ↦ absurd (invalid_no_ok email sent_at (rw other at h))
      ]
