-- ===== src/Api.antt =====
-- src/lib/api-helpers.ts and csrf.ts: what every route does before and after it calls a service.
pub mod Caught
pub mod Keeps
use devispropre.Base.{
  ℕ, ◌==◌, Bool, true, false, not, ◌&&◌, ◌||◌, Option, none, some, List, [], ◌∷◌, if◌then◌else◌,
  any, map, or_else, ◌⊎◌, inl, inr,
}
use devispropre.Text.{Text, codes, text_eq, trim, truthy, slice_to, is_empty}
use devispropre.Accounts.{Plan, Error}
use devispropre.RateLimit.{Limit, check_rate_limit}
use devispropre.Audit.{AuditContext}
use devispropre.World.{World}
use devispropre.World.Action.{
  Result, ok, err, Action, pure, raise, raise_if, gets, ◌>>=◌, ◌>>◌, modify, attempt,
}
use devispropre.Session.{Payload, SessionUser, get_session}
use devispropre.Access.{AccountContext, billing_user_id, get_account_context, can_start_trial}

-- What is read of a request: its method and its headers.
pub record Request : Type 0 where
  pub method : Text
  pub sec_fetch_site : Option Text
  pub origin : Option Text
  pub referer : Option Text
  pub real_ip : Option Text
  pub forwarded_for : Option Text
  pub user_agent : Option Text
  pub idempotency_key : Option Text
  -- the payload of the cookie, where its signature is right
  pub cookie : Option Payload

-- The environment, `toLowerCase`, and `new URL(…).origin`, which throws on a text that is no URL.
pub record Env : Type 0 where
  pub allowed_origins : List Text
  pub is_prod : Bool
  pub url_origin : Text → Option Text
  pub lower : Text → Text

-- a status and a body
abbrev pub Reply : Type 0
Reply = ℕ × Text

-- `url.replace(/\/$/, "")`
unfoldable pub normalize_origin : Text → Text
normalize_origin [] = []
normalize_origin (c ∷ s) =
    let rest = normalize_origin s in if c == b'/' && is_empty s then [] else c ∷ rest

abbrev pub is_allowed : Env → Text → Bool
is_allowed env url = any (text_eq (normalize_origin url)) (map normalize_origin env.allowed_origins)

abbrev pub is_text : Text → Option Text → Bool
is_text t none = false
is_text t (some s) = text_eq s t

-- the origin of the referer, or none where it is no URL
abbrev pub is_allowed_referer : Env → Option Text → Bool
is_allowed_referer env none = false
is_allowed_referer env (some origin) = is_allowed env origin

-- `assertSameOrigin`: whether it returns
abbrev pub from_page : Env → Option Text → Option Text → Option Text → Bool
from_page env site (some origin) referer = is_allowed env origin
from_page env site none (some referer) = is_allowed_referer env (env.url_origin referer)
from_page env site none none =
    is_text (codes "same-origin") site || is_text (codes "same-site") site || not env.is_prod

unfoldable pub is_same_origin : Env → Request → Bool
is_same_origin env request =
    not (is_text (codes "cross-site") request.sec_fetch_site)
    && from_page env request.sec_fetch_site (truthy request.origin) (truthy request.referer)

abbrev pub is_mutation : Text → Bool
is_mutation method =
    any (text_eq method) (codes "POST" ∷ codes "PUT" ∷ codes "PATCH" ∷ codes "DELETE" ∷ [])

-- `split(",")[0]`
abbrev pub until_comma : Text → Text
until_comma [] = []
until_comma (c ∷ s) = let rest = until_comma s in if c == b',' then [] else c ∷ rest

abbrev trimmed : Option Text → Option Text
trimmed none = none
trimmed (some s) = truthy (some (trim s))

abbrev first_ip : Option Text → Option Text → Option Text
first_ip (some ip) other = some (slice_to 45 ip)
first_ip none none = none
first_ip none (some ip) = some (slice_to 45 ip)

abbrev first_part : Option Text → Option Text
first_part none = none
first_part (some s) = some (until_comma s)

unfoldable pub get_trusted_client_ip : Request → Option Text
get_trusted_client_ip request =
    first_ip (trimmed request.real_ip) (trimmed (first_part request.forwarded_for))

abbrev pub ip_or_unknown : Request → Text
ip_or_unknown request = or_else (get_trusted_client_ip request) (codes "unknown")

-- `buildServiceContext`, with `getRequestMeta`
unfoldable pub build_service_context : Text → Option Text → Request → AuditContext
build_service_context workspace_user_id actor_user_id request = record {
  user_id = workspace_user_id;
  actor_user_id = actor_user_id;
  ip_address = get_trusted_client_ip request;
  user_agent = request.user_agent;
}

-- The status that an error is answered with.
unfoldable pub handle_service_error : Error → ℕ
handle_service_error Error.csrf = 403
handle_service_error Error.rate_limit = 429
handle_service_error Error.plan_limit = 402
handle_service_error Error.billing_past_due = 402
handle_service_error Error.plan_feature = 402
handle_service_error Error.forbidden = 403
handle_service_error Error.signature = 400
handle_service_error Error.signature_locked = 429
handle_service_error Error.signature_unavailable = 503
handle_service_error Error.immutability = 403
handle_service_error Error.object_storage = 503
handle_service_error Error.turnstile = 403
handle_service_error Error.client_archive = 409
handle_service_error Error.error = 400
handle_service_error Error.incoherent_reference = 400

-- `requireAuth`: the user of the request
pub record Auth : Type 0 where
  pub user : SessionUser
  pub workspace_user_id : Text
  pub plan : Plan
  pub is_team_member : Bool

abbrev pub reply_of : {B : Type 0} → B → Result (ℕ × B) → ℕ × B
reply_of empty (ok r) = r
reply_of empty (err e) = (handle_service_error e, empty)

abbrev pub auth_of : SessionUser → AccountContext → Auth
auth_of user account = record {
  user = user;
  workspace_user_id = account.workspace_user_id;
  plan = account.plan;
  is_team_member = account.is_team_member;
}

module _ {D : Type 0} where
  unfoldable pub assert_mutation_security : Env → Request → Action D (Unit {0})
  assert_mutation_security env request =
      raise_if (is_mutation request.method && not (is_same_origin env request)) Error.csrf

  -- `checkRateLimit`, which throws where a call is refused
  unfoldable pub limit_calls : Text → Limit → ℕ → Action D (Unit {0})
  limit_calls key limit now = do
    allowed ← gets (λ w. (check_rate_limit key limit now w.buckets).0)
    modify (λ w. record w { buckets = (check_rate_limit key limit now w.buckets).1 })
    raise_if (not allowed) Error.rate_limit

  -- The subscription is asked for unless it is skipped.
  abbrev pub choose_account : Bool → SessionUser → AccountContext → Action D (Auth ⊎ Reply)
  choose_account skip user account = do
    needs ←
        gets (
          can_start_trial
            (billing_user_id user.id account.workspace_user_id account.is_team_member))
    pure (if not skip && needs then inr (402, []) else inl (auth_of user account))

  abbrev pub with_account : Bool → SessionUser → Action D (Auth ⊎ Reply)
  with_account skip user = do
    account ← get_account_context user.id
    choose_account skip user account

  abbrev pub with_session : Bool → Option SessionUser → Action D (Auth ⊎ Reply)
  with_session skip none = pure (inr (401, []))
  with_session skip (some user) = with_account skip user

  -- the user, or the reply that the route gives at once
  unfoldable pub require_auth : Bool → Request → ℕ → Action D (Auth ⊎ Reply)
  require_auth skip request now = do user ← get_session request.cookie now; with_session skip user

-- `try { … } catch (e) { return handleServiceError(e) }`; the body of an error is left out.
unfoldable pub caught : {D B : Type 0} → B → Action D (ℕ × B) → Action D (ℕ × B)
caught empty m = do r ← attempt m; pure (reply_of empty r)
