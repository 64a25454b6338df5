-- ===== src/Password.antt =====
-- src/app/api/auth/route.ts: a user registers, signs in with a password, and changes it.
pub mod SignedIn
pub mod Changed
mod Form
unfoldable pub use Form.*
use devispropre.Base.{
  ℕ, ◌==◌, Bool, true, false, not, ◌&&◌, ◌||◌, Option, none, some, List, [], ◌∷◌, ◌++◌,
  if◌then◌else◌, leb, is_none, is_some, or_else, ◌⊎◌, inl, inr,
}
use devispropre.Text.{Text, codes, text_eq, trim, truthy, is_empty, units}
use devispropre.Table.{find_first, update_many}
use devispropre.Platform.{Platform}
use devispropre.Accounts.{free, is_user, User, Error}
use devispropre.Audit
use devispropre.Audit.{AuditParams}
use devispropre.RateLimit.{Limit}
use devispropre.World.{Company, World}
use devispropre.World.Action.{Action, pure, raise, raise_if, gets, ◌>>=◌, ◌>>◌, modify}
use devispropre.Services.{log, find_user}
use devispropre.Session.{SessionMeta, session_user, Payload, bump_user_session_version}
use devispropre.SignIn.{create_session, accept_team_invites, send_email_verification}
use devispropre.Api.{
  until_comma, Env, Request, Reply, Auth, ip_or_unknown, build_service_context,
  assert_mutation_security, require_auth, limit_calls, caught,
}

-- a status, and the cookie that is set
abbrev pub Answer : Type 0
Answer = ℕ × Option Payload

abbrev pub answer : ℕ → Answer
answer status = (status, none)

-- What a call takes from outside: `hash` is bcrypt's with the salt of this call, `verify` its
-- comparison, `is_email` the test of addresses of the library of schemas, `enforced` and `is_human`
-- what Turnstile is set to and answers; then the draws and identifiers of new rows.
pub record AuthInput : Type 0 where
  pub env : Env
  pub now : ℕ
  pub hash : Text → Text
  pub verify : Text → Text → Bool
  pub is_email : Text → Bool
  pub enforced : Bool
  pub is_human : Text → Bool
  pub user_id : Text
  pub company_id : Text
  pub session_id : Text
  pub drawn_password : Text
  pub raw_token : Text
  pub mail_throws : Bool

abbrev quarter_hour : ℕ → Limit
quarter_hour n = record { max_attempts = n; window_ms = 900000 }

abbrev an_hour : ℕ → Limit
an_hour n = record { max_attempts = n; window_ms = 3600000 }

abbrev new_user : AuthInput → RegisterForm → User
new_user input f = record {
  id = input.user_id;
  email = f.email;
  name = f.name;
  plan = free;
  stripe_customer_id = none;
  subscription_past_due = false;
  session_version = 0;
  email_verified_at = none;
  deleted_at = none;
  phone = f.phone;
  password_hash = input.hash (or_else (trimmed f.password) input.drawn_password);
}

abbrev new_company : AuthInput → RegisterForm → Company
new_company input f = record {
  id = input.company_id;
  user_id = input.user_id;
  raison_sociale = f.raison_sociale;
  siret = f.siret;
  adresse = f.adresse;
  code_postal = f.code_postal;
  ville = f.ville;
  tva_intracom = none;
  tva_applicable = true;
  rcs = none;
  capital_social = none;
  assurances = none;
  assurance_decennale_assureur = none;
  assurance_decennale_contrat = none;
  assurance_decennale_couverture = none;
  activite_btp = false;
  logo_url = none;
}

-- `sessionMetaFromRequest` takes the headers as they are.
abbrev raw_ip : Option Text → Option Text → Option Text
raw_ip (some ip) forwarded = some ip
raw_ip none none = none
raw_ip none (some ips) = some (trim (until_comma ips))

abbrev pub session_meta : Request → SessionMeta
session_meta request = record {
  ip_address = raw_ip request.real_ip request.forwarded_for;
  user_agent = request.user_agent;
}

-- `{ email, deletedAt: null }`
abbrev pub is_address : Text → User → Bool
is_address email u = text_eq u.email email && is_none u.deleted_at

module _ {D : Type 0} (p : Platform D) (input : AuthInput) (request : Request) where
  abbrev lower_trim : Text → Text
  lower_trim email = trim (input.env.lower email)

  -- `verifyTurnstileToken`
  unfoldable pub verify_turnstile_token : Option Text → Action D (Unit {0})
  verify_turnstile_token token =
      raise_if
        (input.enforced && (is_none (trimmed token) || not (input.is_human (or_else token []))))
        Error.turnstile

  abbrev registration : User → AuditParams D
  registration user = record {
    action = Audit.create;
    entity_type = codes "user";
    entity_id = user.id;
    devis_id = none;
    facture_id = none;
    metadata = (codes "email", Audit.text user.email) ∷ [];
    content_hash = none;
  }

  abbrev create_user : RegisterForm → Action D (Unit {0})
  create_user f = do
    modify (λ w. record w {
      users = w.users ++ new_user input f ∷ [];
      companies = w.companies ++ new_company input f ∷ [];
    })
    accept_team_invites p input.env.lower f.email input.user_id input.now
    log p (build_service_context input.user_id none request) (registration (new_user input f))
        input.now
    mail ← send_email_verification p input.env.lower input.user_id f.email input.raw_token input.now
    raise_if (input.mail_throws && is_some mail) Error.error

  -- the branch "register"
  unfoldable pub register_user : RegisterForm → Option Text → Action D Answer
  register_user f token = do
    limit_calls (codes "auth:ip:" ++ ip_or_unknown request) (an_hour 20) input.now
    (if is_valid_registration input.is_email f
        then (do
          limit_calls
              (codes "auth:register:" ++ (ip_or_unknown request ++ (b':' ∷ lower_trim f.email)))
              (an_hour 5) input.now
          verify_turnstile_token token
          taken ← gets (λ w. is_some (find_first (λ u. text_eq u.email f.email) w.users))
          (if taken then pure (answer 409) else create_user f >> pure (answer 201)))
        else pure (answer 400))

  abbrev pub open_session : User → Action D Answer
  open_session user = do
    cookie ← create_session (session_user user) (session_meta request) input.session_id input.now
    accept_team_invites p input.env.lower user.email user.id input.now
    pure (200, some cookie)

  abbrev pub check_password : Text → Option User → Action D Answer
  check_password password none = pure (answer 401)
  check_password password (some user) =
      if not (input.verify password user.password_hash)
      then pure (answer 401)
      else if is_none user.email_verified_at
      then pure (answer 403)
      else open_session user

  abbrev pub find_and_check : Text → Text → Action D Answer
  find_and_check email password = do
    user ← gets (λ w. find_first (is_address email) w.users)
    check_password password user

  -- the branch "login"
  unfoldable pub login_user : Text → Text → Option Text → Action D Answer
  login_user email password token =
      if input.is_email email && not (is_empty password)
      then (do
        limit_calls (codes "auth:password:ip:" ++ ip_or_unknown request) (quarter_hour 10) input.now
        limit_calls (codes "auth:login:" ++ (ip_or_unknown request ++ (b':' ∷ lower_trim email)))
            (quarter_hour 10) input.now
        verify_turnstile_token token
        find_and_check email password)
      else pure (answer 400)

  abbrev pub set_password : Text → User → User
  set_password password u = record u { password_hash = input.hash password }

  abbrev pub renew : User → Action D Answer
  renew user = do
    cookie ← create_session (session_user user) (session_meta request) input.session_id input.now
    pure (200, some cookie)

  abbrev pub set_and_renew : Text → User → Action D Answer
  set_and_renew new_password user = do
    modify (λ w. record w {
      users = update_many (λ u. text_eq u.id user.id) (set_password new_password) w.users;
    })
    renew user

  abbrev pub replace_password : Text → User → Action D Answer
  replace_password new_password user = do
    bump_user_session_version user.id input.now
    set_and_renew new_password user

  abbrev pub check_current : Text → Text → Option User → Action D Answer
  check_current current new_password none = pure (answer 401)
  check_current current new_password (some user) =
      if not (input.verify current user.password_hash)
      then pure (answer 401)
      else replace_password new_password user

  abbrev pub find_and_replace : Text → Text → Text → Action D Answer
  find_and_replace user_id current new_password = do
    user ← gets (find_user user_id)
    check_current current new_password user

  abbrev pub change_valid : Text → Text → Text → Action D Answer
  change_valid user_id current new_password =
      if not (is_empty current) && leb 8 (units new_password)
      then find_and_replace user_id current new_password
      else pure (answer 400)

  abbrev pub change_of : Text → Text → Auth ⊎ Reply → Action D Answer
  change_of current new_password (inr reply) = pure (answer reply.0)
  change_of current new_password (inl auth) = do
    limit_calls (codes "auth:password-change:ip:" ++ ip_or_unknown request) (quarter_hour 5)
        input.now
    change_valid auth.user.id current new_password

  -- the branch "change-password"
  unfoldable pub change_user_password : Text → Text → Action D Answer
  change_user_password current new_password = do
    auth ← require_auth true request input.now
    change_of current new_password auth

  abbrev pub act : AuthBody → Action D Answer
  act (register f token) = register_user f token
  act (login email password token) = login_user email password token
  act (change_password current new_password) = change_user_password current new_password
  act unknown_action = pure (answer 400)

  -- `POST`
  unfoldable pub post_auth : AuthBody → Action D Answer
  post_auth body = assert_mutation_security input.env request >> caught none (act body)
