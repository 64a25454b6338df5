-- ===== src/Accounts.antt =====
-- The accounts that the services read (src/lib/plan-features.ts, src/lib/billing.ts,
-- prisma/schema.prisma), and the errors that they throw.
use devispropre.Base.{ℕ, Bool, true, false, ◌&&◌, Option, is_none}
use devispropre.Text.{Text, text_eq}

pub data Plan : Type 0 where
  free starter pro : Plan

pub record User : Type 0 where
  pub id : Text
  pub email : Text
  pub name : Text
  pub plan : Plan
  pub stripe_customer_id : Option Text
  pub subscription_past_due : Bool
  pub session_version : ℕ
  pub email_verified_at : Option ℕ
  pub deleted_at : Option ℕ
  pub phone : Option Text
  pub password_hash : Text

abbrev pub has_starter : Plan → Bool
has_starter free = false
has_starter starter = true
has_starter pro = true

abbrev pub has_pro : Plan → Bool
has_pro pro = true
has_pro _ = false

-- `{ id: userId, deletedAt: null }`
abbrev pub is_user : Text → User → Bool
is_user user_id u = text_eq u.id user_id && is_none u.deleted_at

-- A row of "UserSession".
pub record UserSession : Type 0 where
  pub id : Text
  pub user_id : Text
  pub expires_at : ℕ
  pub revoked_at : Option ℕ
  pub ip_address : Option Text
  pub user_agent : Option Text
  pub created_at : ℕ
  pub last_seen_at : ℕ

pub data AuthTokenPurpose : Type 0 where
  magic_link email_verification : AuthTokenPurpose

-- A row of "MagicLinkToken".
pub record MagicLinkToken : Type 0 where
  pub user_id : Text
  pub token_hash : Text
  pub purpose : AuthTokenPurpose
  pub expires_at : ℕ
  pub used_at : Option ℕ
  pub created_at : ℕ

pub record Team : Type 0 where
  pub id : Text
  pub owner_id : Text
  pub max_members : ℕ

-- A row of "TeamMember"; `active` says whether its status is "ACTIVE" or "PENDING".
pub record TeamMember : Type 0 where
  pub id : Text
  pub team_id : Text
  pub user_id : Option Text
  pub email : Text
  pub active : Bool
  pub invited_at : ℕ
  pub accepted_at : Option ℕ

-- A row of "StripeWebhookEvent".
pub record StripeWebhookEvent : Type 0 where
  pub event_id : Text
  pub processed_at : Option ℕ

-- A row of "IdempotencyRecord"; (userId, key) is its unique key, and `body` the JSON of the answer.
pub record IdempotencyRecord : Type 0 where
  pub user_id : Text
  pub key : Text
  pub status : ℕ
  pub body : Text
  pub expires_at : ℕ

-- The classes of errors: `error` is a plain `Error`, the others are the classes of
-- src/lib/errors.ts, immutability.ts, plan-limits.ts, plan-features.ts, billing-status.ts,
-- object-storage.ts, client-guard.ts, rate-limit.ts, csrf.ts and turnstile.ts; a `SignatureError`
-- stands three times, with each status that it is given. Messages are left out, but for the one
-- plain error whose message the webhook of src/app/api/stripe/webhook/route.ts reads.
pub data Error : Type 0 where
  error forbidden immutability plan_limit plan_feature billing_past_due signature object_storage
        client_archive incoherent_reference rate_limit csrf turnstile signature_locked
        signature_unavailable :
      Error
