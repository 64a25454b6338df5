-- ===== src/Password/Changed.antt =====
-- What a change of the password ends.
use devispropre.Base.{
  ℕ, ◌≡◌, refl, sym, ◌∙◌, ap, subst, true, false, not, ◌&&◌, leb, Option, none, some, arith,
  Bool-cases, ◌⊎◌, inl, inr,
}
use devispropre.Text.{Text, text_eq, is_empty, units}
use devispropre.Table.{update_many}
use devispropre.Platform.{Platform}
use devispropre.Accounts.{User}
use devispropre.World.{World}
use devispropre.World.Action.{ok, pure, ◌>>=◌}
use devispropre.World.Action.Inversion.{bind_ok, of_ok}
use devispropre.Services.{find_user}
use devispropre.Session.{session_user, Payload, bump_user_session_version, get_session}
use devispropre.Session.Revoked.{IsLoggedOut, bump-IsLoggedOut}
use devispropre.SignIn.{create_session}
use devispropre.SignIn.Alone.{IsAlone, made-IsAlone, alone_refused}
use devispropre.Api.{Request, Reply, Auth, assert_mutation_security, require_auth, limit_calls}
use devispropre.Api.Caught.{caught-ok, require_auth-refused, same_status}
use devispropre.Api.Keeps.{after}
use devispropre.Password.{
  session_meta, Answer, AuthInput, change_password, check_current, find_and_replace, change_valid,
  change_of, change_user_password, replace_password, set_password, set_and_renew, renew, post_auth,
}

some_same : (c d : Payload) → ◌≡◌ {A = Option Payload} (some c) (some d) → c ≡ d
some_same c d h = cc

module _ {D : Type 0} (p : Platform D) (input : AuthInput) (request : Request) where
  -- a cookie that is set, and no other open session of its user
  abbrev pub IsOnly : Answer → World D → Type 0
  IsOnly a w = (c : Payload) × (a.1 ≡ some c) × IsAlone c.sub input.session_id w

  renew-IsOnly :
      (user : User) (w : World D) (a : Answer)
      → IsLoggedOut user.id w.sessions
      → (renew p input request user w).0 ≡ ok a
      → IsOnly a (renew p input request user w).1
  unfolding pure
  renew-IsOnly user w a out h =
      let make =
        create_session (session_user user) (session_meta request) input.session_id input.now in
      let (c, made, same) = bind_ok make _ w a h in
      let (own, alone) =
        made-IsAlone (session_user user) (session_meta request) input.session_id input.now w c out
          made in
      rw same (
        c,
        ap (λ x. x.1) (sym (of_ok _ _ (rw same at h))),
        subst (λ u. IsAlone u input.session_id (make w).1) own alone,
      )

  set_and_renew-IsOnly :
      (new_password : Text) (user : User) (w : World D) (a : Answer)
      → IsLoggedOut user.id w.sessions
      → (set_and_renew p input request new_password user w).0 ≡ ok a
      → IsOnly a (set_and_renew p input request new_password user w).1
  unfolding ◌>>=◌
  set_and_renew-IsOnly new_password user w a out h =
      renew-IsOnly user
        (record w {
          users =
              update_many (λ u. text_eq u.id user.id) (set_password p input request new_password)
                w.users;
        })
        a out h

  replace_password-IsOnly :
      (new_password : Text) (user : User) (w : World D) (a : Answer)
      → (replace_password p input request new_password user w).0 ≡ ok a
      → IsOnly a (replace_password p input request new_password user w).1
  replace_password-IsOnly new_password user w a h =
      after (bump_user_session_version user.id input.now) _ w a (IsOnly a) h (λ n bumped h1.
        set_and_renew-IsOnly new_password user _ a (bump-IsLoggedOut user.id input.now w n bumped)
          h1)

  check_current-IsOnly :
      (current new_password : Text) (user : Option User) (w : World D) (a : Answer)
      → a.0 ≡ 200
      → (check_current p input request current new_password user w).0 ≡ ok a
      → IsOnly a (check_current p input request current new_password user w).1
  unfolding pure
  check_current-IsOnly current new_password none w a status h =
      absurd (ground (arith, status, same_status h))
  check_current-IsOnly current new_password (some user) w a status h =
      elim (Bool-cases (input.verify current user.password_hash)) [
        | inr wrong ↦ absurd (ground (arith, status, same_status (rw wrong at h)))
        | inl right ↦ rw right (replace_password-IsOnly new_password user w a (rw right at h))
      ]

  find_and_replace-IsOnly :
      (user_id current new_password : Text) (w : World D) (a : Answer)
      → a.0 ≡ 200
      → (find_and_replace p input request user_id current new_password w).0 ≡ ok a
      → IsOnly a (find_and_replace p input request user_id current new_password w).1
  unfolding ◌>>=◌
  find_and_replace-IsOnly user_id current new_password w a status h =
      check_current-IsOnly current new_password (find_user user_id w) w a status h

  with_limit-IsOnly :
      (user_id current new_password : Text) (w : World D) (a : Answer)
      → a.0 ≡ 200
      → (change_valid p input request user_id current new_password w).0 ≡ ok a
      → IsOnly a (change_valid p input request user_id current new_password w).1
  unfolding pure
  with_limit-IsOnly user_id current new_password w a status h =
      elim (Bool-cases (not (is_empty current) && leb 8 (units new_password))) [
        | inr bad ↦ absurd (ground (arith, status, same_status (rw bad at h)))
        | inl valid ↦
            rw valid
              (find_and_replace-IsOnly user_id current new_password w a status (rw valid at h))
      ]

  change_of-IsOnly :
      (current new_password : Text) (auth : Auth ⊎ Reply) (w w' : World D) (a : Answer)
      → a.0 ≡ 200
      → (require_auth true request input.now w).0 ≡ ok auth
      → (change_of p input request current new_password auth w').0 ≡ ok a
      → IsOnly a (change_of p input request current new_password auth w').1
  unfolding pure
  change_of-IsOnly current new_password (inr reply) w w' a status known h = absurd (
      ground
        (arith, status, same_status h, require_auth-refused true request input.now w reply known))
  change_of-IsOnly current new_password (inl auth) w w' a status known h =
      after (limit_calls _ _ _) _ w' a (IsOnly a) h
        (λ _ _ h1. with_limit-IsOnly auth.user.id current new_password _ a status h1)

  posted-IsOnly :
      (current new_password : Text) (w : World D) (a : Answer)
      → a.0 ≡ 200
      → (post_auth p input request (change_password current new_password) w).0 ≡ ok a
      → IsOnly a (post_auth p input request (change_password current new_password) w).1
  unfolding post_auth change_user_password
  posted-IsOnly current new_password w a status h =
      after (assert_mutation_security input.env request) _ w a (IsOnly a) h (λ _ _ h1.
        let (done, same) =
          caught-ok none (change_user_password p input request current new_password) _ a
            (omega (arith, status)) h1 in
        rw same (
          after (require_auth true request input.now) _ _ a (IsOnly a) done
            (λ auth known h2. change_of-IsOnly current new_password auth _ _ a status known h2)))

  -- Once a change of the password is answered with 200 and a cookie, no other cookie of that user is
  -- accepted at any time, but that of the session that was just made.
  pub post_auth-changed :
      (current new_password : Text) (w : World D) (cookie payload : Payload) (later : ℕ)
      → (post_auth p input request (change_password current new_password) w).0
        ≡ ok (200, some cookie)
      → payload.sub ≡ cookie.sub
      → text_eq payload.jti input.session_id ≡ false
      → (get_session
          (some payload)
          later
          (post_auth p input request (change_password current new_password) w).1).0
        ≡ ok none
  post_auth-changed current new_password w cookie payload later h own no_same =
      let w' = (post_auth p input request (change_password current new_password) w).1 in
      let (c, given, alone) = posted-IsOnly current new_password w (200, some cookie) refl h in
      let mine = own ∙ ap (λ k. k.sub) (some_same cookie c given) in
      alone_refused payload input.session_id later w'
        (subst (λ u. IsAlone u input.session_id w') (sym mine) alone) no_same
