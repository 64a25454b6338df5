-- ===== src/SignIn/Alone.antt =====
-- Signing in by a link ends every other session of the user.
use devispropre.Base.{
  some_not_none, ℕ, ◌≡◌, refl, sym, ap, ◌∙◌, subst, Bool, true, false, not, ◌&&◌, Option, none,
  some, List, [], ◌∷◌, ◌++◌, arith, ltb, Bool-cases, Option-cases, inl, inr, keep, length, ◌+◌,
  &&-true,
}
use devispropre.Text.{Text, text_eq, text_eq_sound, text_eq_refl, trim, is_empty}
use devispropre.Table.{find_first, update_many, find_first-keep-none, delete_many, order_by}
use devispropre.Platform.{Platform}
use devispropre.Accounts.{UserSession, Error}
use devispropre.World.{World}
use devispropre.World.Action.{Result, ok, err, ◌>>=◌, pure}
use devispropre.World.Action.Inversion.{bind_ok, of_ok}
use devispropre.Services.{find_user}
use devispropre.Session.{
  SessionMeta, SessionUser, Payload, max_active_sessions, has_expired, is_open, revoke, make_room,
  new_session, create_user_session, get_session, is_live, is_session_active,
  bump_user_session_version,
}
use devispropre.Session.Revoked.{IsLoggedOut, bump-IsLoggedOut, weaker}
use devispropre.SignIn.{
  invalid, expired, dashboard, create_session, enter, verify_magic_link, accept_team_invites,
  consume_magic_link,
}

-- an open session of the user that is another one
abbrev pub is_open_apart : Text → Text → ℕ → UserSession → Bool
is_open_apart user_id id now s = is_open user_id now s && not (text_eq s.id id)

module _ {A : Type 0} where
  -- What is not there is not there after rows are changed into others that do not pass.
  find_first-update_many_empty :
      (q p : A → Bool) (f : A → A) (xs : List A)
      → ((x : A) → p x ≡ true → q (f x) ≡ false)
      → find_first q xs ≡ none
      → find_first q (update_many p f xs) ≡ none
  unfolding find_first update_many
  find_first-update_many_empty q p f [] k h = h
  find_first-update_many_empty q p f (x ∷ xs) k h = elim (Bool-cases (q x)) [
    | inl e ↦ absurd (some_not_none x (rw e at h))
    | inr e ↦ ground (arith, e, k x, find_first-update_many_empty q p f xs k (rw e at h))
  ]

  find_first-append_none :
      (q : A → Bool) (xs ys : List A)
      → find_first q xs ≡ none
      → find_first q ys ≡ none
      → find_first q (xs ++ ys) ≡ none
  unfolding find_first
  find_first-append_none q [] ys h k = k
  find_first-append_none q (x ∷ xs) ys h k = elim (Bool-cases (q x)) [
    | inl e ↦ absurd (some_not_none x (rw e at h))
    | inr e ↦ rw (e, find_first) (find_first-append_none q xs ys (rw (e, find_first) at h) k)
  ]

room_empty :
    (user_id : Text) (now : ℕ) (q : UserSession → Bool) (table : List UserSession)
    → ((s : UserSession) → q (revoke now s) ≡ false)
    → find_first q table ≡ none
    → find_first q (make_room user_id now table) ≡ none
unfolding make_room
room_empty user_id now q table k h =
    let active = order_by (λ s. s.created_at) (keep (is_open user_id now) table) in
    elim (Bool-cases (ltb max_active_sessions (length active + 1))) [
      | inl full ↦ rw full (find_first-update_many_empty q _ (revoke now) table (λ s e. k s) h)
      | inr free ↦ rw free h
    ]

err_no_ok : (e : Error) (r : Text × ℕ) → ◌≡◌ {A = Result (Text × ℕ)} (err e) (ok r) → ⊥
err_no_ok e r h = cc

itself :
    (user_id id : Text) (meta : SessionMeta) (now later : ℕ)
    → find_first (is_open_apart user_id id later) (new_session id user_id meta now ∷ []) ≡ none
unfolding find_first
itself user_id id meta now later = ground (arith, text_eq_refl id)

of_dashboard : (c d : Payload) → dashboard c ≡ dashboard d → c ≡ d
of_dashboard c d h = cc

not_expired : (d : Payload) → expired ≡ dashboard d → ⊥
not_expired d h = cc

not_invalid : (d : Payload) → invalid ≡ dashboard d → ⊥
not_invalid d h = cc

module _ {D : Type 0} where
  apart :
      (payload : Payload) (id : Text) (now : ℕ) (w : World D)
      → text_eq payload.jti id ≡ false
      → (s : UserSession) → is_live payload.jti payload.sub payload.sv now w s ≡ true
      → is_open_apart payload.sub id now s ≡ true
  apart payload id now w no_same s e =
      let (own, rest) = &&-true (text_eq s.id payload.jti) _ e in
      let (open_, at) = &&-true (is_open payload.sub now s) _ rest in
      rw (open_, text_eq_sound s.id payload.jti own, no_same) refl

  -- no other session of the user, now or later
  abbrev pub IsAlone : Text → Text → World D → Type 0
  IsAlone user_id id w = (now : ℕ) → find_first (is_open_apart user_id id now) w.sessions ≡ none

  created-IsAlone :
      (user_id id : Text) (meta : SessionMeta) (now : ℕ) (w : World D) (r : Text × ℕ)
      → IsLoggedOut user_id w.sessions
      → (create_user_session user_id meta id now w).0 ≡ ok r
      → IsAlone user_id id (create_user_session user_id meta id now w).1
  unfolding create_user_session ◌>>=◌
  created-IsAlone user_id id meta now w r out done later =
      let q = is_open_apart user_id id later in
      let before =
        weaker q (is_open user_id later) w.sessions (λ s e. (&&-true _ _ e).0) (out later) in
      let kept = find_first-keep-none q (λ s. not (has_expired now s)) w.sessions before in
      elim (Option-cases (find_user user_id w)) [
        | inl missing ↦ absurd (err_no_ok Error.error r (rw missing at done))
        | inr (u, found) ↦ rw found (
            find_first-append_none q _ (new_session id user_id meta now ∷ [])
              (room_empty user_id now q (delete_many (has_expired now) w.sessions)
                (λ s. ground arith) kept)
              (itself user_id id meta now later))
      ]

  pub alone_refused :
      (payload : Payload) (id : Text) (now : ℕ) (w : World D)
      → IsAlone payload.sub id w
      → text_eq payload.jti id ≡ false
      → (get_session (some payload) now w).0 ≡ ok none
  unfolding get_session is_session_active ◌>>=◌
  alone_refused payload id now w h no_same =
      rw
        (weaker (is_live payload.jti payload.sub payload.sv now w)
          (is_open_apart payload.sub id now) w.sessions (apart payload id now w no_same) (h now))
        refl

  pub made-IsAlone :
      (user : SessionUser) (meta : SessionMeta) (id : Text) (now : ℕ) (w : World D)
      (cookie : Payload)
      → IsLoggedOut user.id w.sessions
      → (create_session user meta id now w).0 ≡ ok cookie
      → (user.id ≡ cookie.sub) × IsAlone user.id id (create_session user meta id now w).1
  unfolding create_session pure
  made-IsAlone user meta id now w cookie out done =
      let make = create_user_session user.id meta id now in
      let (r, e, same) =
        bind_ok make (λ r. pure (record { sub = user.id; jti = r.0; sv = r.1 })) w cookie done in
      (
        ap (λ c. c.sub) (of_ok _ cookie (rw same at done)),
        rw same (created-IsAlone user.id id meta now w r out e),
      )

  entered-IsAlone :
      (user : SessionUser) (meta : SessionMeta) (id : Text) (now : ℕ) (w : World D)
      (cookie : Payload)
      → IsLoggedOut user.id w.sessions
      → let (r, w') = (create_session user meta id now >>= λ c. pure (dashboard c)) w in
        r ≡ ok (dashboard cookie) → IsAlone cookie.sub id w'
  unfolding pure
  entered-IsAlone user meta id now w cookie out done =
      let (c, e, same) =
        bind_ok (create_session user meta id now) (λ c. pure (dashboard c)) w (dashboard cookie)
          done in
      let (own, alone) = made-IsAlone user meta id now w c out e in
      let here = of_dashboard c cookie (of_ok _ _ (rw same at done)) in
      rw same (
        subst (λ u. IsAlone u id (create_session user meta id now w).1) (own ∙ ap (λ k. k.sub) here)
          alone)

  module _ (p : Platform D) (lower : Text → Text) where
    enter-IsAlone :
        (meta : SessionMeta) (id : Text) (now : ℕ) (user : Option SessionUser) (w : World D)
        (cookie : Payload)
        → (enter p lower meta id now user w).0 ≡ ok (dashboard cookie)
        → IsAlone cookie.sub id (enter p lower meta id now user w).1
    unfolding pure
    enter-IsAlone meta id now none w cookie done = absurd (not_expired cookie (of_ok _ _ done))
    enter-IsAlone meta id now (some user) w cookie done =
        let (a, _, first) =
          bind_ok (accept_team_invites p lower user.email user.id now) _ w (dashboard cookie)
            done in
        let w1 = (accept_team_invites p lower user.email user.id now w).1 in
        let (n, bumped, second) =
          bind_ok (bump_user_session_version user.id now) _ w1 (dashboard cookie)
            (rw first at done) in
        rw (first, second)
          (entered-IsAlone user meta id now _ cookie (bump-IsLoggedOut user.id now w1 n bumped)
            (rw (first, second) at done))

    opened-IsAlone :
        (token : Text) (meta : SessionMeta) (id : Text) (now : ℕ) (w : World D) (cookie : Payload)
        → (verify_magic_link p lower (some token) meta id now w).0 ≡ ok (dashboard cookie)
        → IsAlone cookie.sub id (verify_magic_link p lower (some token) meta id now w).1
    unfolding verify_magic_link pure
    opened-IsAlone token meta id now w cookie done = elim (Bool-cases (is_empty (trim token))) [
      | inl blank ↦ absurd (not_invalid cookie (of_ok _ _ (rw blank at done)))
      | inr given ↦
          let done' = rw given at done in
          let (user, _, same) =
            bind_ok (consume_magic_link p lower token now) (enter p lower meta id now) w
              (dashboard cookie) done' in
          rw (given, same) (enter-IsAlone meta id now user _ cookie (rw same at done'))
    ]

    -- Once a link has signed a user in, no other cookie of the user is accepted at any time, but that
    -- of the session that was just made.
    pub verify_magic_link-alone :
        (token : Text) (meta : SessionMeta) (id : Text) (now later : ℕ) (w : World D)
        (cookie payload : Payload)
        → (verify_magic_link p lower (some token) meta id now w).0 ≡ ok (dashboard cookie)
        → payload.sub ≡ cookie.sub
        → text_eq payload.jti id ≡ false
        → (get_session
            (some payload)
            later
            (verify_magic_link p lower (some token) meta id now w).1).0
          ≡ ok none
    verify_magic_link-alone token meta id now later w cookie payload done own no_same =
        alone_refused payload id later (verify_magic_link p lower (some token) meta id now w).1
          (subst (λ u. IsAlone u id (verify_magic_link p lower (some token) meta id now w).1)
            (sym own) (opened-IsAlone token meta id now w cookie done))
          no_same
