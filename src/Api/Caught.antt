-- ===== src/Api/Caught.antt =====
-- An answer below 400 is the handler's own: every error that a service throws is answered above.
use devispropre.Base.{
  ℕ, ◌<◌, ◌≤◌, ◌≡◌, refl, sym, ◌∙◌, &&-true, ap, arith, Bool, true, false, Option, none, some, [],
  ◌⊎◌, inl, inr, if◌then◌else◌,
}
use devispropre.Text.{Text, text_eq_sound}
use devispropre.Table.{find_first, find_first_passes}
use devispropre.Accounts.{Error, User}
use devispropre.World.{World}
use devispropre.World.Action.{Result, ok, err, Action, attempt, ◌>>=◌}
use devispropre.World.Action.Inversion.{bind_ok, of_ok}
use devispropre.Session.{
  SessionUser, Payload, get_session, is_session_active, is_verified, found_user,
}
use devispropre.Access.{get_account_context}
use devispropre.Api.{
  Auth, auth_of, Request, Reply, choose_account, with_session, require_auth, reply_of,
  handle_service_error, caught,
}

error_no_success : (e : Error) → handle_service_error e < 400 → ⊥
unfolding handle_service_error
error_no_success e h = ground arith

module _ {B : Type 0} where
  reply-success :
      (empty : B) (r : Result (ℕ × B)) (a : ℕ × B) → a.0 < 400 → reply_of empty r ≡ a → r ≡ ok a
  reply-success empty (ok b) a low h = ap ok h
  reply-success empty (err e) a low h = absurd (error_no_success e (rw (ap (λ x. x.0) h) low))

  pub caught-ok :
      {D : Type 0}
      → (empty : B) (m : Action D (ℕ × B)) (w : World D) (a : ℕ × B) → a.0 < 400
      → (caught empty m w).0 ≡ ok a
      → ((m w).0 ≡ ok a) × ((caught empty m w).1 ≡ (m w).1)
  unfolding caught attempt ◌>>=◌
  caught-ok empty m w a low h = (reply-success empty _ a low (of_ok _ _ h), refl)

  -- an answer of another status
  pub same_status : {a b : ℕ × B} → ◌≡◌ {A = Result (ℕ × B)} (ok a) (ok b) → a.0 ≡ b.0
  same_status h = ap (λ x. x.0) (of_ok _ _ h)

-- what a refusal is answered with
same_reply : (a r : Reply) → ◌≡◌ {A = Auth ⊎ Reply} (inr a) (inr r) → a.0 ≡ r.0
same_reply a r h = ap (λ x. x.0) (of_inr a r h)
  where
    of_inr : (a r : Reply) → ◌≡◌ {A = Auth ⊎ Reply} (inr a) (inr r) → a ≡ r
    of_inr a r h = cc

chosen-refused :
    (b : Bool) (auth : Auth) (r : Reply)
    → ◌≡◌ {A = Auth ⊎ Reply} (if b then inr (402, []) else inl auth) (inr r)
    → 400 ≤ r.0
chosen-refused true auth r h = omega (arith, same_reply (402, []) r h)
chosen-refused false auth r h = absurd cc

module _ {D : Type 0} where
  with_session-refused :
      (skip : Bool) (user : Option SessionUser) (w : World D) (r : Reply)
      → (with_session skip user w).0 ≡ ok (inr r)
      → 400 ≤ r.0
  unfolding ◌>>=◌
  with_session-refused skip none w r h = omega (arith, same_reply (401, []) r (of_ok _ _ h))
  with_session-refused skip (some user) w r h =
      let (account, _, same) =
        bind_ok (get_account_context user.id) (choose_account skip user) w (inr r) h in
      chosen-refused _ (auth_of user account) r (of_ok _ _ (rw same at h))

  -- A request that is refused before its handler is answered with an error.
  pub require_auth-refused :
      (skip : Bool) (request : Request) (now : ℕ) (w : World D) (r : Reply)
      → (require_auth skip request now w).0 ≡ ok (inr r)
      → 400 ≤ r.0
  unfolding require_auth
  require_auth-refused skip request now w r h =
      let (user, _, same) = bind_ok (get_session request.cookie now) _ w (inr r) h in
      with_session-refused skip user _ r (rw same at h)

of_inl : (a b : Auth) → ◌≡◌ {A = Auth ⊎ Reply} (inl a) (inl b) → a ≡ b
of_inl a b h = cc

chosen-inl :
    (b : Bool) (auth : Auth) (a : Auth)
    → ◌≡◌ {A = Auth ⊎ Reply} (if b then inr (402, []) else inl auth) (inl a)
    → auth ≡ a
chosen-inl true auth a h = absurd cc
chosen-inl false auth a h = of_inl auth a h

found_sub :
    (active : Bool) (o : Option User) (sub : Text) (user : SessionUser)
    → ((u : User) → o ≡ some u → u.id ≡ sub)
    → (if active then found_user o else none) ≡ some user
    → user.id ≡ sub
found_sub true none sub user passes h = absurd cc
found_sub true (some u) sub user passes h =
    ap (λ x. elim x [ none ↦ sub | some v ↦ v.id ]) (sym h) ∙ passes u refl
found_sub false o sub user passes h = absurd cc

module _ {D : Type 0} where
  with_session-user :
      (skip : Bool) (user : Option SessionUser) (w : World D) (auth : Auth)
      → (with_session skip user w).0 ≡ ok (inl auth)
      → user ≡ some auth.user
  unfolding ◌>>=◌
  with_session-user skip none w auth h = absurd cc
  with_session-user skip (some user) w auth h =
      let (account, _, same) =
        bind_ok (get_account_context user.id) (choose_account skip user) w (inl auth) h in
      ap (λ a. some a.user) (chosen-inl _ (auth_of user account) auth (of_ok _ _ (rw same at h)))

  get_session-sub :
      (cookie : Option Payload) (now : ℕ) (w : World D) (user : SessionUser)
      → (get_session cookie now w).0 ≡ ok (some user)
      → (payload : Payload) × (cookie ≡ some payload) × (user.id ≡ payload.sub)
  unfolding get_session ◌>>=◌
  get_session-sub none now w user h = absurd cc
  get_session-sub (some payload) now w user h =
      let (active, _, same) =
        bind_ok (is_session_active payload.jti payload.sub payload.sv now) _ w (some user) h in
      let users = (is_session_active payload.jti payload.sub payload.sv now w).1.users in
      (
        payload,
        refl,
        found_sub active (find_first (is_verified payload.sub) users) payload.sub user
            (λ u found.
              let passes = find_first_passes (is_verified payload.sub) users u found in
              text_eq_sound u.id payload.sub (&&-true _ _ (&&-true _ _ passes).0).0)
            (of_ok _ _ (rw same at h)),
      )

  -- The user who is let in is the one of the cookie.
  pub require_auth-sub :
      (skip : Bool) (request : Request) (now : ℕ) (w : World D) (auth : Auth)
      → (require_auth skip request now w).0 ≡ ok (inl auth)
      → (payload : Payload) × (request.cookie ≡ some payload) × (auth.user.id ≡ payload.sub)
  unfolding require_auth
  require_auth-sub skip request now w auth h =
      let (user, known, same) = bind_ok (get_session request.cookie now) _ w (inl auth) h in
      get_session-sub request.cookie now w auth.user
        (known ∙ ap ok (with_session-user skip user _ auth (rw same at h)))
