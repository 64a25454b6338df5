-- ===== src/SignIn.antt =====
-- src/lib/magic-link.ts and email-verification.ts, `acceptTeamInvites` of account-context.ts,
-- `createSession` of auth.ts, and the route src/app/api/auth/magic-link/verify/route.ts: the links
-- that are mailed to a user, each to be opened once.
pub mod Once
pub mod Alone
use devispropre.Base.{
  ℕ, ◌+◌, ◌-◌, Bool, true, false, not, ◌&&◌, ◌||◌, ◌==◌, Option, none, some, List, [], ◌∷◌, ◌++◌,
  keep, if◌then◌else◌, ltb, is_none, is_some, holds_on,
}
use devispropre.Text.{Text, text_eq, trim, truthy, is_empty}
use devispropre.Table.{find_first, count, update_many, delete_many, order_by}
use devispropre.Platform.{Platform}
use devispropre.Accounts.{User, is_user, MagicLinkToken, AuthTokenPurpose, TeamMember, Error}
use devispropre.World.{World}
use devispropre.World.Action.{Action, gets, or_raise, pure, ◌>>=◌, ◌>>◌, modify}
use devispropre.Session.{
  SessionMeta, SessionUser, session_user, Payload, create_user_session, bump_user_session_version,
}

abbrev pub magic_link_ttl_ms : ℕ
magic_link_ttl_ms = 900000

abbrev pub verification_ttl_ms : ℕ
verification_ttl_ms = 86400000

abbrev pub resend_cooldown_ms : ℕ
resend_cooldown_ms = 60000

abbrev pub is_purpose : AuthTokenPurpose → AuthTokenPurpose → Bool
is_purpose AuthTokenPurpose.magic_link AuthTokenPurpose.magic_link = true
is_purpose AuthTokenPurpose.email_verification AuthTokenPurpose.email_verification = true
is_purpose _ _ = false

-- `{ userId, purpose, usedAt: null }`
abbrev pub is_unused : Text → AuthTokenPurpose → MagicLinkToken → Bool
is_unused user_id purpose t =
    text_eq t.user_id user_id && (is_purpose t.purpose purpose && is_none t.used_at)

-- such a token that can be opened, and was made in the last minute
abbrev pub is_recent_token : Text → AuthTokenPurpose → ℕ → MagicLinkToken → Bool
is_recent_token user_id purpose now t =
    is_unused user_id purpose t
    && (ltb now t.expires_at && ltb now (t.created_at + resend_cooldown_ms))

-- `{ tokenHash, purpose, usedAt: null, expiresAt: { gt: now } }`
abbrev pub is_usable : Text → AuthTokenPurpose → ℕ → MagicLinkToken → Bool
is_usable hash purpose now t =
    text_eq t.token_hash hash
    && (is_purpose t.purpose purpose && (is_none t.used_at && ltb now t.expires_at))

abbrev pub use_token : ℕ → MagicLinkToken → MagicLinkToken
use_token now t = record t { used_at = some now }

abbrev verify_once : ℕ → User → User
verify_once now u = record u {
  email_verified_at = elim u.email_verified_at [ none ↦ some now | some at ↦ some at ];
}

abbrev verify_now : ℕ → User → User
verify_now now u = record u { email_verified_at = some now }

-- an invitation that waits for this address
abbrev is_invite : Text → TeamMember → Bool
is_invite email m = text_eq m.email email && (not m.active && is_none m.user_id)

abbrev join : Text → ℕ → TeamMember → TeamMember
join user_id now m = record m { user_id = some user_id; active = true; accepted_at = some now }

-- where the browser is sent
pub data Landing : Type 0 where
  invalid expired : Landing
  dashboard : Payload → Landing

module _ {D : Type 0} where
  -- `userId` is unique among the members: a second one is refused, and the error is caught.
  abbrev accept : Text → ℕ → List TeamMember → Action D (Unit {0})
  accept user_id now [] = pure tt
  accept user_id now (invite ∷ _) = do
    taken ← gets (λ w. find_first (λ m. holds_on (λ u. text_eq u user_id) m.user_id) w.members)
    (if is_some taken
        then pure tt
        else modify (λ w. record w {
          members = update_many (λ m. text_eq m.id invite.id) (join user_id now) w.members;
        }))

  abbrev pub user_by_id : Text → World D → Option User
  user_by_id id w = find_first (λ u. text_eq u.id id) w.users

  abbrev set_user : Text → (User → User) → Action D (Unit {0})
  set_user id change =
      modify (λ w. record w { users = update_many (λ u. text_eq u.id id) change w.users })

  abbrev pub set_tokens : (List MagicLinkToken → List MagicLinkToken) → Action D (Unit {0})
  set_tokens f = modify (λ w. record w { tokens = f w.tokens })

  -- `createSession`: what the signed cookie says.
  unfoldable pub create_session : SessionUser → SessionMeta → Text → ℕ → Action D Payload
  create_session user meta id now = do
    (jti, sv) ← create_user_session user.id meta id now
    pure (record { sub = user.id; jti = jti; sv = sv })

  -- `updateMany` of the usable tokens, and its count
  unfoldable pub consume : Text → AuthTokenPurpose → ℕ → Action D ℕ
  consume hash purpose now = do
    n ← gets (λ w. count (is_usable hash purpose now) w.tokens)
    set_tokens (update_many (is_usable hash purpose now) (use_token now))
    pure n

  abbrev pub owner : Option MagicLinkToken → World D → Option User
  owner none w = none
  owner (some t) w = user_by_id t.user_id w

  abbrev pub sign_in : ℕ → Option User → Action D (Option SessionUser)
  sign_in now none = pure none
  sign_in now (some u) =
      if is_some u.deleted_at
      then pure none
      else (do set_user u.id (verify_once now); pure (some (session_user u)))

  abbrev pub open_link : Text → ℕ → ℕ → Action D (Option SessionUser)
  open_link hash now n = if n == 0 then pure none else (do
    found ← gets (λ w. find_first (λ t. text_eq t.token_hash hash) w.tokens)
    user ← gets (owner found)
    sign_in now user)

  -- the update of a user that is not there throws
  abbrev pub verify_email : ℕ → Option MagicLinkToken → Action D (Option Text)
  verify_email now none = pure none
  verify_email now (some t) = do
    user ← or_raise (← gets (user_by_id t.user_id)) Error.error
    set_user t.user_id (verify_now now)
    pure (some t.user_id)

  abbrev pub open_verification : Text → ℕ → ℕ → Action D (Option Text)
  open_verification hash now n = if n == 0 then pure none else (do
    found ← gets (λ w. find_first (λ t. text_eq t.token_hash hash) w.tokens)
    verify_email now found)

  -- `lower` is `toLowerCase`; `raw` is the token that `generateShareToken` draws. The result is the
  -- address and the token of the mail that is sent.
  module _ (p : Platform D) (lower : Text → Text) where
    unfoldable pub accept_team_invites : Text → Text → ℕ → Action D (Unit {0})
    accept_team_invites email user_id now = do
      pending ← gets (λ w. order_by (λ m. m.invited_at) (keep (is_invite (lower email)) w.members))
      accept user_id now pending

    abbrev issue_token : Text → AuthTokenPurpose → ℕ → Text → ℕ → Action D (Unit {0})
    issue_token user_id purpose ttl raw now = do
      set_tokens (delete_many (is_unused user_id purpose))
      set_tokens (λ table.
          table
          ++ (record {
            user_id = user_id;
            token_hash = p.sha256 raw;
            purpose = purpose;
            expires_at = now + ttl;
            used_at = none;
            created_at = now;
          })
            ∷ [])

    abbrev send_token :
        Text → Text → AuthTokenPurpose → ℕ → Text → ℕ → Bool → Action D (Option (Text × Text))
    send_token user_id email purpose ttl raw now true = pure none
    send_token user_id email purpose ttl raw now false = do
      issue_token user_id purpose ttl raw now
      pure (some (email, raw))

    abbrev has_recent : Text → AuthTokenPurpose → ℕ → World D → Bool
    has_recent user_id purpose now w =
        is_some (find_first (is_recent_token user_id purpose now) w.tokens)

    -- `{ email: email.toLowerCase().trim(), deletedAt: null }`
    abbrev user_by_email : Text → World D → Option User
    user_by_email email w =
        find_first (λ u. text_eq u.email (trim (lower email)) && is_none u.deleted_at) w.users

    abbrev mail_link : Text → ℕ → Option User → Action D (Option (Text × Text))
    mail_link raw now none = pure none
    mail_link raw now (some u) = do
      recent ← gets (has_recent u.id AuthTokenPurpose.magic_link now)
      send_token u.id u.email AuthTokenPurpose.magic_link magic_link_ttl_ms raw now recent

    unfoldable pub request_magic_link : Text → Text → ℕ → Action D (Option (Text × Text))
    request_magic_link email raw now = do user ← gets (user_by_email email); mail_link raw now user

    unfoldable pub send_email_verification :
        Text → Text → Text → ℕ → Action D (Option (Text × Text))
    send_email_verification user_id email raw now = do
      recent ← gets (has_recent user_id AuthTokenPurpose.email_verification now)
      send_token user_id email AuthTokenPurpose.email_verification verification_ttl_ms raw now
          recent

    abbrev mail_verification : Text → ℕ → Option User → Action D (Option (Text × Text))
    mail_verification raw now none = pure none
    mail_verification raw now (some u) =
        if is_some u.email_verified_at
        then pure none
        else send_email_verification u.id u.email raw now

    unfoldable pub request_email_verification : Text → Text → ℕ → Action D (Option (Text × Text))
    request_email_verification email raw now = do
      user ← gets (user_by_email email)
      mail_verification raw now user

    unfoldable pub consume_magic_link : Text → ℕ → Action D (Option SessionUser)
    consume_magic_link raw now = do
      n ← consume (p.sha256 (trim raw)) AuthTokenPurpose.magic_link now
      open_link (p.sha256 (trim raw)) now n

    unfoldable pub consume_email_verification : Text → ℕ → Action D (Option Text)
    consume_email_verification raw now = do
      n ← consume (p.sha256 (trim raw)) AuthTokenPurpose.email_verification now
      open_verification (p.sha256 (trim raw)) now n

    abbrev pub enter : SessionMeta → Text → ℕ → Option SessionUser → Action D Landing
    enter meta id now none = pure expired
    enter meta id now (some user) = do
      accept_team_invites user.email user.id now
      version ← bump_user_session_version user.id now
      cookie ← create_session user meta id now
      pure (dashboard cookie)

    -- `GET`; `id` is the identifier of the session that is made.
    unfoldable pub verify_magic_link : Option Text → SessionMeta → Text → ℕ → Action D Landing
    verify_magic_link none meta id now = pure invalid
    verify_magic_link (some token) meta id now =
        if is_empty (trim token)
        then pure invalid
        else (do user ← consume_magic_link token now; enter meta id now user)
