-- ===== src/Password/SignedIn.antt =====
-- Who is signed in by a password.
use devispropre.Base.{
  ℕ, ◌≡◌, refl, sym, ap, true, false, not, ◌&&◌, Option, none, some, is_none, arith, Bool-cases,
  Option-cases, inl, inr, subst,
}
use devispropre.Text.{Text, is_empty}
use devispropre.Table.{find_first}
use devispropre.Platform.{Platform}
use devispropre.Accounts.{User}
use devispropre.World.{World}
use devispropre.World.Action.{ok, Action, pure, raise_if, ◌>>=◌, ◌>>◌}
use devispropre.World.Action.Inversion.{bind_ok, of_ok}
use devispropre.World.Action.Keeps.{Keeps-raise_if}
use devispropre.Session.{SessionMeta, SessionUser, session_user, Payload, create_user_session}
use devispropre.SignIn.{create_session}
use devispropre.Api.{Request, assert_mutation_security, limit_calls}
use devispropre.Api.Caught.{caught-ok, same_status}
use devispropre.Api.Keeps.{Keeps-limit_calls, bind_kept}
use devispropre.Password.{
  Answer, AuthInput, login, open_session, check_password, is_address, find_and_check, login_user,
  post_auth, verify_turnstile_token,
}

module _ {D : Type 0} where
  pub create_session-sub :
      (user : SessionUser) (meta : SessionMeta) (id : Text) (now : ℕ) (w : World D)
      (cookie : Payload)
      → (create_session user meta id now w).0 ≡ ok cookie
      → (cookie.sub ≡ user.id)
  unfolding create_session pure
  create_session-sub user meta id now w cookie h =
      let (made, _, same) = bind_ok (create_user_session user.id meta id now) _ w cookie h in
      ap (λ c. c.sub) (sym (of_ok _ _ (rw same at h)))

  -- a sequence that ends with a value returns that value
  pub ends :
      {A : Type 0}
      → (m : Action D (Unit {0})) (v a : A) (w : World D) → ((m >> pure v) w).0 ≡ ok a
      → a ≡ v
  unfolding pure
  ends m v a w h =
      let (_, _, same) = bind_ok m (λ _. pure v) w a h in sym (of_ok _ _ (rw same at h))

module _ {D : Type 0} (p : Platform D) (input : AuthInput) (request : Request) where
  -- the user behind a cookie: found by the address, with this password, and with a confirmed address
  abbrev pub IsSignedIn : Text → Text → Option Payload → World D → Type 0
  IsSignedIn email password cookie w =
      (u : User) × (c : Payload) × (find_first (is_address email) w.users ≡ some u)
      × (input.verify password u.password_hash ≡ true)
      × (is_none u.email_verified_at ≡ false)
      × (cookie ≡ some c)
      × (c.sub ≡ u.id)

  open_session-cookie :
      (u : User) (w : World D) (a : Answer)
      → (open_session p input request u w).0 ≡ ok a
      → (c : Payload) × (a.1 ≡ some c) × (c.sub ≡ u.id)
  open_session-cookie u w a h =
      let (c, made, same) =
        bind_ok (create_session (session_user u) _ input.session_id input.now) _ w a h in
      (
        c,
        ap (λ x. x.1) (ends _ (200, some c) a _ (rw same at h)),
        create_session-sub (session_user u) _ input.session_id input.now w c made,
      )

  check_password-IsSignedIn :
      (email password : Text) (u : User) (w : World D) (a : Answer)
      → a.0 ≡ 200
      → find_first (is_address email) w.users ≡ some u
      → (check_password p input request password (some u) w).0 ≡ ok a
      → IsSignedIn email password a.1 w
  unfolding pure
  check_password-IsSignedIn email password u w a status found h =
      elim (Bool-cases (input.verify password u.password_hash)) [
        | inr wrong ↦ absurd (ground (arith, status, same_status (rw wrong at h)))
        | inl right ↦ elim (Bool-cases (is_none u.email_verified_at)) [
          | inl pending ↦ absurd (ground (arith, status, same_status (rw (right, pending) at h)))
          | inr confirmed ↦
              let (c, given, mine) = open_session-cookie u w a (rw (right, confirmed) at h) in
              (u, c, found, right, confirmed, given, mine)
        ]
      ]

  find_and_check-IsSignedIn :
      (email password : Text) (w : World D) (a : Answer)
      → a.0 ≡ 200
      → (find_and_check p input request email password w).0 ≡ ok a
      → IsSignedIn email password a.1 w
  unfolding ◌>>=◌
  find_and_check-IsSignedIn email password w a status h =
      elim (Option-cases (find_first (is_address email) w.users)) [
        | inl missing ↦ absurd (ground (arith, status, same_status (rw missing at h)))
        | inr (u, found) ↦
            check_password-IsSignedIn email password u w a status found (rw found at h)
      ]

  abbrev Same : World D → World D → Type 0
  Same w w' = w'.users ≡ w.users

  login_user-IsSignedIn :
      (email password : Text) (token : Option Text) (w : World D) (a : Answer)
      → a.0 ≡ 200
      → (login_user p input request email password token w).0 ≡ ok a
      → IsSignedIn email password a.1 w
  unfolding login_user pure verify_turnstile_token
  login_user-IsSignedIn email password token w a status h =
      elim (Bool-cases (input.is_email email && not (is_empty password))) [
        | inr bad ↦ absurd (ground (arith, status, same_status (rw bad at h)))
        | inl valid ↦
            let (_, _, h1, s1) =
              bind_kept {P = Same w} (limit_calls _ _ _) _ w a
                (Keeps-limit_calls (λ _ _ same. same) _ _ _) refl (rw valid at h) in
            let (_, _, h2, s2) =
              bind_kept {P = Same w} (limit_calls _ _ _) _ _ a
                (Keeps-limit_calls (λ _ _ same. same) _ _ _) s1 h1 in
            let (_, _, h3, s3) =
              bind_kept {P = Same w} (raise_if _ _) _ _ a (Keeps-raise_if _ _) s2 h2 in
            subst (λ t. IsSignedIn email password a.1 (record w { users = t })) s3
              (find_and_check-IsSignedIn email password _ a status h3)
      ]

  -- A sign-in with a password that is answered with 200 sets the cookie of a user who is found by that
  -- address, whose account is not deleted, whose address is confirmed, and whose stored hash the password
  -- matches.
  pub post_auth-IsSignedIn :
      (email password : Text) (token : Option Text) (w : World D) (a : Answer)
      → a.0 ≡ 200
      → (post_auth p input request (login email password token) w).0 ≡ ok a
      → IsSignedIn email password a.1 w
  unfolding post_auth assert_mutation_security
  post_auth-IsSignedIn email password token w a status h =
      let (_, _, h1, s1) =
        bind_kept {P = Same w} (raise_if _ _) _ w a (Keeps-raise_if _ _) refl h in
      let w1 = (assert_mutation_security input.env request w).1 in
      subst (λ t. IsSignedIn email password a.1 (record w { users = t })) s1
        (login_user-IsSignedIn email password token w1 a status
          (caught-ok none (login_user p input request email password token) w1 a
            (omega (arith, status)) h1).0)
