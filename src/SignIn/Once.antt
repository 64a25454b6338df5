-- ===== src/SignIn/Once.antt =====
-- A link that was mailed is opened once.
use devispropre.Base.{
  ℕ, ◌≤◌, ◌≡◌, refl, Bool, true, false, Option, none, some, List, [], ◌∷◌, arith,
}
use devispropre.Text.{Text, trim}
use devispropre.Table.{count, update_many, update_many_none}
use devispropre.Platform.{Platform}
use devispropre.Accounts.{User, MagicLinkToken, AuthTokenPurpose}
use devispropre.World.{World}
use devispropre.World.Action.{ok, ◌>>=◌}
use devispropre.World.Action.Keeps.{
  Keeps, Keeps-modify, Keeps-pure, Keeps-bind, Keeps-gets, Keeps-or_raise, Keeps-if,
}
use devispropre.SignIn.{
  is_usable, use_token, consume, consume_magic_link, consume_email_verification, open_link,
  open_verification, sign_in, verify_email,
}

module _ {A : Type 0} where
  pub count-update_many_zero :
      (q p : A → Bool) (f : A → A) (xs : List A)
      → ((x : A) → p x ≡ true → q (f x) ≡ false)
      → ((x : A) → p x ≡ false → q x ≡ false)
      → count q (update_many p f xs) ≡ 0
  unfolding count update_many
  count-update_many_zero q p f [] h k = refl
  count-update_many_zero q p f (x ∷ xs) h k =
      ground (arith, h x, k x, count-update_many_zero q p f xs h k)

stays_unusable :
    (hash : Text) (purpose : AuthTokenPurpose) (now later : ℕ) (t : MagicLinkToken)
    → now ≤ later
    → is_usable hash purpose now t ≡ false
    → is_usable hash purpose later t ≡ false
stays_unusable hash purpose now later t h e = ground (arith, h, e)

spent :
    (hash : Text) (purpose : AuthTokenPurpose) (now : ℕ) (table : List MagicLinkToken) (later : ℕ)
    → now ≤ later
    → count
        (is_usable hash purpose later)
        (update_many (is_usable hash purpose now) (use_token now) table)
      ≡ 0
spent hash purpose now table later h =
    count-update_many_zero (is_usable hash purpose later) (is_usable hash purpose now)
      (use_token now) table (λ t e. ground arith)
      (λ t e. stays_unusable hash purpose now later t h e)

module _ {D : Type 0} where
  Keeps-sign_in :
      (table : List MagicLinkToken) (now : ℕ) (u : Option User)
      → Keeps {D = D} (λ w. w.tokens ≡ table) (sign_in now u)
  Keeps-sign_in table now none = Keeps-pure none
  Keeps-sign_in table now (some u) =
      Keeps-if _ _ _ (Keeps-pure none)
        (Keeps-bind _ _ (Keeps-modify _ (λ w h. h)) (λ _. Keeps-pure _))

  Keeps-open_link :
      (table : List MagicLinkToken) (hash : Text) (now n : ℕ)
      → Keeps {D = D} (λ w. w.tokens ≡ table) (open_link hash now n)
  Keeps-open_link table hash now n =
      Keeps-if _ _ _ (Keeps-pure none) (
        Keeps-bind _ _ (Keeps-gets _)
          (λ _. Keeps-bind _ _ (Keeps-gets _) (Keeps-sign_in table now)))

  Keeps-verify_email :
      (table : List MagicLinkToken) (now : ℕ) (t : Option MagicLinkToken)
      → Keeps {D = D} (λ w. w.tokens ≡ table) (verify_email now t)
  Keeps-verify_email table now none = Keeps-pure none
  Keeps-verify_email table now (some t) = Keeps-bind _ _ (Keeps-gets _) (λ o.
      Keeps-bind _ _ (Keeps-or_raise o _)
        (λ _. Keeps-bind _ _ (Keeps-modify _ (λ w h. h)) (λ _. Keeps-pure _)))

  Keeps-open_verification :
      (table : List MagicLinkToken) (hash : Text) (now n : ℕ)
      → Keeps {D = D} (λ w. w.tokens ≡ table) (open_verification hash now n)
  Keeps-open_verification table hash now n =
      Keeps-if _ _ _ (Keeps-pure none)
        (Keeps-bind _ _ (Keeps-gets _) (Keeps-verify_email table now))

  after_link :
      (hash : Text) (now n later : ℕ) (w : World D)
      → now ≤ later
      → let purpose = AuthTokenPurpose.magic_link in
        count
          (is_usable hash purpose later)
          (open_link hash now n (record w {
            tokens = update_many (is_usable hash purpose now) (use_token now) w.tokens;
          })).1.tokens
        ≡ 0
  after_link hash now n later w h =
      let table =
        update_many (is_usable hash AuthTokenPurpose.magic_link now) (use_token now) w.tokens in
      rw ((Keeps-open_link table hash now n).at (record w { tokens = table }) refl)
        (spent hash AuthTokenPurpose.magic_link now w.tokens later h)

  after_verification :
      (hash : Text) (now n later : ℕ) (w : World D)
      → now ≤ later
      → let purpose = AuthTokenPurpose.email_verification in
        count
          (is_usable hash purpose later)
          (open_verification hash now n (record w {
            tokens = update_many (is_usable hash purpose now) (use_token now) w.tokens;
          })).1.tokens
        ≡ 0
  after_verification hash now n later w h =
      let table =
        update_many (is_usable hash AuthTokenPurpose.email_verification now) (use_token now)
          w.tokens in
      rw ((Keeps-open_verification table hash now n).at (record w { tokens = table }) refl)
        (spent hash AuthTokenPurpose.email_verification now w.tokens later h)

module _ {D : Type 0} (p : Platform D) (lower : Text → Text) where
  refused_link :
      (raw : Text) (now : ℕ) (w : World D)
      → count (is_usable (p.sha256 (trim raw)) AuthTokenPurpose.magic_link now) w.tokens ≡ 0
      → consume_magic_link p lower raw now w ≡ (ok none, w)
  unfolding consume_magic_link consume ◌>>=◌
  refused_link raw now w h = rw (h, update_many_none _ (use_token now) w.tokens h) refl

  refused_verification :
      (raw : Text) (now : ℕ) (w : World D)
      → count (is_usable (p.sha256 (trim raw)) AuthTokenPurpose.email_verification now) w.tokens ≡ 0
      → consume_email_verification p lower raw now w ≡ (ok none, w)
  unfolding consume_email_verification consume ◌>>=◌
  refused_verification raw now w h = rw (h, update_many_none _ (use_token now) w.tokens h) refl

  used_link :
      (raw : Text) (now later : ℕ) (w : World D)
      → now ≤ later
      → count
          (is_usable (p.sha256 (trim raw)) AuthTokenPurpose.magic_link later)
          (consume_magic_link p lower raw now w).1.tokens
        ≡ 0
  unfolding consume_magic_link consume ◌>>=◌
  used_link raw now later w h = after_link (p.sha256 (trim raw)) now _ later w h

  used_verification :
      (raw : Text) (now later : ℕ) (w : World D)
      → now ≤ later
      → count
          (is_usable (p.sha256 (trim raw)) AuthTokenPurpose.email_verification later)
          (consume_email_verification p lower raw now w).1.tokens
        ≡ 0
  unfolding consume_email_verification consume ◌>>=◌
  used_verification raw now later w h = after_verification (p.sha256 (trim raw)) now _ later w h

  -- A link that has been opened, whatever came of it, opens nothing afterwards: to open it again is
  -- refused and changes nothing. So it is for a link to sign in and for a link to verify an address.
  pub consume-once :
      (raw : Text) (now later : ℕ) (w : World D)
      → now ≤ later
      → let w' = (consume_magic_link p lower raw now w).1 in
        let w'' = (consume_email_verification p lower raw now w).1 in
        (consume_magic_link p lower raw later w' ≡ (ok none, w'))
        × (consume_email_verification p lower raw later w'' ≡ (ok none, w''))
  consume-once raw now later w h = (
    refused_link raw later _ (used_link raw now later w h),
    refused_verification raw later _ (used_verification raw now later w h),
  )
