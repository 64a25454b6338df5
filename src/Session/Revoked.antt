-- ===== src/Session/Revoked.antt =====
-- Once the version of a user is raised, no cookie that was given out before opens a session.
use devispropre.Base.{
  ℕ, ◌≡◌, refl, Bool, true, false, none, some, List, [], ◌∷◌, arith, Option-cases, inl, inr,
}
use devispropre.Text.{Text, text_eq}
use devispropre.Table.{find_first, update_many}
use devispropre.Accounts.{UserSession, Error}
use devispropre.World.{World}
use devispropre.World.Action.{Result, ok, err, ◌>>=◌}
use devispropre.Session.{
  Payload, is_open, revoke, is_live, is_revocable, is_session_active, revoke_all_user_sessions,
  bump_user_session_version, get_session,
}

module _ {A : Type 0} where
  -- A query that no row passes after an update.
  pub find_first-update_many-none :
      (q p : A → Bool) (f : A → A) (xs : List A)
      → ((x : A) → p x ≡ true → q (f x) ≡ false)
      → ((x : A) → p x ≡ false → q x ≡ false)
      → find_first q (update_many p f xs) ≡ none
  unfolding find_first update_many
  find_first-update_many-none q p f [] h k = refl
  find_first-update_many-none q p f (x ∷ xs) h k =
      ground (arith, h x, k x, find_first-update_many-none q p f xs h k)

-- A table of sessions in which the user has none that is open.
abbrev pub IsLoggedOut : Text → List UserSession → Type 0
IsLoggedOut user_id table = (now : ℕ) → find_first (is_open user_id now) table ≡ none

pub weaker :
    (q p : UserSession → Bool) (xs : List UserSession)
    → ((s : UserSession) → q s ≡ true → p s ≡ true)
    → find_first p xs ≡ none
    → find_first q xs ≡ none
unfolding find_first
weaker q p [] h e = refl
weaker q p (x ∷ xs) h e = ground (arith, h x, e, weaker q p xs h)

pub revoked-IsLoggedOut :
    (user_id : Text) (at : ℕ) (table : List UserSession)
    → IsLoggedOut user_id (update_many (is_revocable user_id none) (revoke at) table)
revoked-IsLoggedOut user_id at table now =
    find_first-update_many-none (is_open user_id now) (is_revocable user_id none) (revoke at) table
      (λ s e. ground arith) (λ s e. ground (arith, e))

-- Where the user has no open session, no cookie of that user is accepted.
pub get_session-IsLoggedOut :
    {D : Type 0} (payload : Payload) (now : ℕ) (w : World D)
    → IsLoggedOut payload.sub w.sessions
    → (get_session (some payload) now w).0 ≡ ok none
unfolding get_session is_session_active ◌>>=◌
get_session-IsLoggedOut payload now w h =
    rw
      (weaker (is_live payload.jti payload.sub payload.sv now w) (is_open payload.sub now)
        w.sessions (λ s e. ground (arith, e)) (h now))
      refl

pub revoke_all-IsLoggedOut :
    {D : Type 0} (user_id : Text) (now : ℕ) (w : World D)
    → IsLoggedOut user_id (revoke_all_user_sessions user_id none now w).1.sessions
unfolding revoke_all_user_sessions ◌>>=◌
revoke_all-IsLoggedOut user_id now w = revoked-IsLoggedOut user_id now w.sessions

pub bump-IsLoggedOut :
    {D : Type 0} (user_id : Text) (now : ℕ) (w : World D) (n : ℕ)
    → (bump_user_session_version user_id now w).0 ≡ ok n
    → IsLoggedOut user_id (bump_user_session_version user_id now w).1.sessions
unfolding bump_user_session_version revoke_all_user_sessions ◌>>=◌
bump-IsLoggedOut user_id now w n done =
    elim (Option-cases (find_first (λ u. text_eq u.id user_id) w.users)) [
      | inl missing ↦ absurd (err_no_ok n (rw missing at done))
      | inr (u, found) ↦ rw found (revoked-IsLoggedOut user_id now w.sessions)
    ]
  where
    err_no_ok : (n : ℕ) → ◌≡◌ {A = Result ℕ} (err Error.error) (ok n) → ⊥
    err_no_ok n h = cc
