-- ===== src/Session.antt =====
-- src/lib/user-session.ts, and what of src/lib/auth.ts and jwt.ts reads a session: the sessions
-- that the server keeps for every signed cookie.
pub mod Limit
pub mod Revoked
use devispropre.Base.{
  ℕ, ◌+◌, ◌-◌, Bool, true, false, not, ◌&&◌, ◌||◌, Option, none, some, List, [], ◌∷◌, ◌++◌, map,
  ltb, leb, ◌==◌, if◌then◌else◌, is_none, is_some, any, take, keep, length,
}
use devispropre.Text.{Text, text_eq, is_empty}
use devispropre.Table.{find_first, count, update_many, delete_many, order_by}
use devispropre.Accounts.{User, is_user, UserSession, Error}
use devispropre.World.{World}
use devispropre.World.Action.{Action, gets, or_raise, pure, ◌>>=◌, ◌>>◌, modify, transaction}
use devispropre.Services.{find_user}

abbrev pub session_ttl_ms : ℕ
session_ttl_ms = 604800000

abbrev pub max_active_sessions : ℕ
max_active_sessions = 10

abbrev pub last_seen_throttle_ms : ℕ
last_seen_throttle_ms = 300000

pub record SessionMeta : Type 0 where
  pub ip_address : Option Text
  pub user_agent : Option Text

-- `{ userId, revokedAt: null, expiresAt: { gt: now } }`
abbrev pub is_open : Text → ℕ → UserSession → Bool
is_open user_id now s = text_eq s.user_id user_id && (is_none s.revoked_at && ltb now s.expires_at)

abbrev pub revoke : ℕ → UserSession → UserSession
revoke now s = record s { revoked_at = some now }

-- `{ id: { in: ids } }`
abbrev pub has_id : List Text → UserSession → Bool
has_id ids s = any (text_eq s.id) ids

abbrev pub has_expired : ℕ → UserSession → Bool
has_expired now s = leb s.expires_at now

-- The oldest sessions are revoked, so that one more is within the limit.
unfoldable pub make_room : Text → ℕ → List UserSession → List UserSession
make_room user_id now table =
    let active = order_by (λ s. s.created_at) (keep (is_open user_id now) table) in
    if ltb max_active_sessions (length active + 1)
    then update_many
        (has_id (map (λ s. s.id) (take (length active + 1 - max_active_sessions) active)))
        (revoke now) table
    else table

abbrev pub new_session : Text → Text → SessionMeta → ℕ → UserSession
new_session id user_id meta now = record {
  id = id;
  user_id = user_id;
  expires_at = now + session_ttl_ms;
  revoked_at = none;
  ip_address = meta.ip_address;
  user_agent = meta.user_agent;
  created_at = now;
  last_seen_at = now;
}

-- `parseJwtSessionPayload`, of a cookie whose signature is right and that is not past its date
pub record Payload : Type 0 where
  pub sub : Text
  pub jti : Text
  pub sv : ℕ

-- `SessionUser`, with the plan of the row
pub record SessionUser : Type 0 where
  pub id : Text
  pub email : Text
  pub name : Text

abbrev touch : ℕ → UserSession → UserSession
touch now s = record s { last_seen_at = now }

abbrev is_other : Option Text → UserSession → Bool
is_other none s = true
is_other (some id) s = is_empty id || not (text_eq s.id id)

abbrev pub is_revocable : Text → Option Text → UserSession → Bool
is_revocable user_id except s =
    text_eq s.user_id user_id && (is_none s.revoked_at && is_other except s)

abbrev pub bump_version : User → User
bump_version u = record u { session_version = u.session_version + 1 }

abbrev pub session_user : User → SessionUser
session_user u = record { id = u.id; email = u.email; name = u.name }

abbrev pub is_verified : Text → User → Bool
is_verified user_id u = is_user user_id u && is_some u.email_verified_at

abbrev pub found_user : Option User → Option SessionUser
found_user none = none
found_user (some u) = some (session_user u)

module _ {D : Type 0} where
  abbrev pub set_sessions : (List UserSession → List UserSession) → Action D (Unit {0})
  set_sessions f = modify (λ w. record w { sessions = f w.sessions })

  -- `createUserSession`: the identifier and the version that the cookie bears.
  unfoldable pub create_user_session : Text → SessionMeta → Text → ℕ → Action D (Text × ℕ)
  create_user_session user_id meta id now = transaction do
    user ← or_raise (← gets (find_user user_id)) Error.error
    set_sessions (delete_many (has_expired now))
    set_sessions (make_room user_id now)
    set_sessions (λ table. table ++ new_session id user_id meta now ∷ [])
    pure (id, user.session_version)

  -- `{ user: { deletedAt: null, sessionVersion } }`
  abbrev pub is_user_at : Text → ℕ → World D → Bool
  is_user_at user_id version w =
      is_some (find_first (λ u. is_user user_id u && u.session_version == version) w.users)

  abbrev pub is_live : Text → Text → ℕ → ℕ → World D → UserSession → Bool
  is_live id user_id version now w s =
      text_eq s.id id && (is_open user_id now s && is_user_at user_id version w)

  -- `lastSeenAt`, at most every five minutes
  abbrev pub answer_active : ℕ → Option UserSession → Action D Bool
  answer_active now none = pure false
  answer_active now (some s) = do
    (if ltb last_seen_throttle_ms (now - s.last_seen_at)
        then set_sessions (update_many (λ r. text_eq r.id s.id) (touch now))
        else pure tt)
    pure true

  unfoldable pub is_session_active : Text → Text → ℕ → ℕ → Action D Bool
  is_session_active id user_id version now = do
    session ← gets (λ w. find_first (is_live id user_id version now w) w.sessions)
    answer_active now session

  -- `revokeSession`, with and without a user
  unfoldable pub revoke_session : Text → Option Text → ℕ → Action D (Unit {0})
  revoke_session id user_id now = set_sessions (
      update_many
        (λ s.
          text_eq s.id id
          && (is_none s.revoked_at
              && elim user_id [ none ↦ true | some u ↦ is_empty u || text_eq s.user_id u ]))
        (revoke now))

  unfoldable pub revoke_all_user_sessions : Text → Option Text → ℕ → Action D ℕ
  revoke_all_user_sessions user_id except now = do
    n ← gets (λ w. count (is_revocable user_id except) w.sessions)
    set_sessions (update_many (is_revocable user_id except) (revoke now))
    pure n

  -- the update of a user that is not there throws
  unfoldable pub bump_user_session_version : Text → ℕ → Action D ℕ
  bump_user_session_version user_id now = do
    user ← or_raise (← gets (λ w. find_first (λ u. text_eq u.id user_id) w.users)) Error.error
    modify (λ w. record w { users = update_many (λ u. text_eq u.id user_id) bump_version w.users })
    revoked ← revoke_all_user_sessions user_id none now
    pure (user.session_version + 1)

  -- `getSession`, once the cookie is read: its payload, or none where the signature is wrong.
  unfoldable pub get_session : Option Payload → ℕ → Action D (Option SessionUser)
  get_session none now = pure none
  get_session (some payload) now = do
    active ← is_session_active payload.jti payload.sub payload.sv now
    user ← gets (λ w. find_first (is_verified payload.sub) w.users)
    pure (if active then found_user user else none)
