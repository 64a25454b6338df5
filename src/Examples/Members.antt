-- ===== src/Examples/Members.antt =====
-- The theorems on teams and passwords at concrete inputs.
use devispropre.Table.{update_many}
use devispropre.Session.{bump_user_session_version, revoke_all_user_sessions}
use devispropre.Text.{units}
use devispropre.Table.{order_by}
use devispropre.SignIn.{accept_team_invites}
use devispropre.Services.{log}
use devispropre.Table.{count}
use devispropre.Team.{ensure_pro_team}
use devispropre.RateLimit.{check_rate_limit, use_bucket}
use devispropre.Access.{get_account_context}
use devispropre.Table.{find_first}
use devispropre.Session.{is_session_active}
use devispropre.Password.{change_user_password}
use devispropre.Api.{
  assert_mutation_security, caught, is_same_origin, limit_calls, normalize_origin, require_auth,
}
use devispropre.World.Action.{attempt, ◌>>=◌}
use devispropre.Session.{create_user_session}
use devispropre.SignIn.{create_session}
use devispropre.Table.{find_first}
use devispropre.RateLimit.{check_rate_limit, put, use_bucket}
use devispropre.Password.{login_user, verify_turnstile_token}
use devispropre.Api.{
  assert_mutation_security, caught, is_same_origin, limit_calls, normalize_origin,
}
use devispropre.World.Action.{attempt, ◌>>=◌}
use devispropre.Team.{invite}
use devispropre.Access.{billing_user_id, can_start_trial, get_account_context, has_active_paid_plan}
use devispropre.Table.{find_first}
use devispropre.Session.{is_session_active}
use devispropre.Api.{
  assert_mutation_security, caught, is_same_origin, normalize_origin, require_auth,
}
use devispropre.World.Action.{attempt, ◌>>=◌}
use devispropre.Base.{ℕ, ◌≡◌, refl, true, false, none, some, [], ◌∷◌}
use devispropre.Text.{codes, text_eq}
use devispropre.Accounts.{pro, UserSession}
use devispropre.World.{World}
use devispropre.World.Action.{ok}
use devispropre.Session.{Payload, get_session}
use devispropre.Api.{Request}
use devispropre.Accounts.{Team}
use devispropre.Team.{TeamInput, post_team}
use devispropre.Foreign.{mutations-foreign}
use devispropre.PublicDevis.{post_public_devis, post_otp}
use devispropre.Accounts.{Error}
use devispropre.World.Action.{err}
use devispropre.Team.{delete_team}
use devispropre.GuestClaim.{post_sign}
use devispropre.Team.Member.{IsSeated}
use devispropre.Team.Seats.{post_team-within_seats}
use devispropre.Password.{AuthInput, login, change_password, post_auth}
use devispropre.Password.SignedIn.{IsSignedIn, post_auth-IsSignedIn}
use devispropre.Password.Changed.{post_auth-changed}
use devispropre.GuestClaim.{GuestForm, ClaimInput, ClaimBody, sign_guest_draft_claim, post_claim}
use devispropre.Examples.{platform}
use devispropre.Examples.Service.{user, world}
use devispropre.Examples.Public.{outside, body, same, env, request}

abbrev old_cookie : Payload
old_cookie = record { sub = codes "u1"; jti = codes "s0"; sv = 0 }

abbrev session : UserSession
session = record {
  id = codes "s0";
  user_id = codes "u1";
  expires_at = 900;
  revoked_at = none;
  ip_address = none;
  user_agent = none;
  created_at = 1;
  last_seen_at = 1;
}

-- a user of the Pro plan who is signed in
abbrev open_world : World ℕ
open_world = record world {
  users = record user { plan = pro; stripe_customer_id = some (codes "cus") } ∷ [];
  sessions = session ∷ [];
}

abbrev signed_in : Request
signed_in = record request { cookie = some old_cookie }

abbrev team_input : TeamInput ℕ
team_input = record {
  now = 5;
  team_id = codes "t1";
  member_id = codes "m1";
  mail_throws = false;
  others = λ w. w;
}

invited : (post_team platform env team_input signed_in (codes "b@c.fr") open_world).0 ≡ ok (201, [])
unfolding post_team ◌>>=◌ assert_mutation_security text_eq is_same_origin normalize_origin
    require_auth get_session is_session_active find_first get_account_context can_start_trial
    billing_user_id has_active_paid_plan caught attempt invite limit_calls check_rate_limit
    use_bucket ensure_pro_team count log
invited = refl

post_team-within_seats_example :
    (payload : Payload) × (team : Team) × (signed_in.cookie ≡ some payload)
    × (team.owner_id ≡ payload.sub)
    × IsSeated
        (codes "b@c.fr")
        team
        (post_team platform env team_input signed_in (codes "b@c.fr") open_world).1
post_team-within_seats_example =
    post_team-within_seats platform env team_input signed_in (codes "b@c.fr") open_world (201, [])
      (λ v. (refl, refl)) refl invited

-- a stored hash is the password itself
abbrev auth_input : AuthInput
auth_input = record {
  env = env;
  now = 5;
  hash = same;
  verify = text_eq;
  is_email = λ s. true;
  enforced = false;
  is_human = λ s. true;
  user_id = codes "u2";
  company_id = codes "k2";
  session_id = codes "s1";
  drawn_password = codes "drawn";
  raw_token = codes "raw";
  mail_throws = false;
}

abbrev new_cookie : Payload
new_cookie = record { sub = codes "u1"; jti = codes "s1"; sv = 0 }

logged_in :
    (post_auth platform auth_input request (login (codes "a@b.fr") (codes "x") none) open_world).0
    ≡ ok (200, some new_cookie)
unfolding post_auth ◌>>=◌ assert_mutation_security text_eq is_same_origin normalize_origin caught
    attempt login_user limit_calls check_rate_limit use_bucket find_first put verify_turnstile_token
    create_session create_user_session accept_team_invites order_by
logged_in = refl

post_auth-IsSignedIn_example :
    IsSignedIn platform auth_input request (codes "a@b.fr") (codes "x") (some new_cookie) open_world
post_auth-IsSignedIn_example =
    post_auth-IsSignedIn platform auth_input request (codes "a@b.fr") (codes "x") none open_world
      (200, some new_cookie) refl logged_in

abbrev next_cookie : Payload
next_cookie = record { sub = codes "u1"; jti = codes "s1"; sv = 1 }

changed :
    (post_auth platform auth_input signed_in
      (change_password (codes "x") (codes "longer one"))
      open_world).0
    ≡ ok (200, some next_cookie)
unfolding post_auth ◌>>=◌ assert_mutation_security text_eq is_same_origin normalize_origin caught
    attempt change_user_password require_auth get_session is_session_active find_first
    get_account_context limit_calls check_rate_limit use_bucket units bump_user_session_version
    revoke_all_user_sessions create_session create_user_session update_many
changed = refl

post_auth-changed_example :
    (get_session
      (some old_cookie)
      8
      (post_auth platform auth_input signed_in
        (change_password (codes "x") (codes "longer one"))
        open_world).1).0
    ≡ ok none
unfolding text_eq
post_auth-changed_example =
    post_auth-changed platform auth_input signed_in (codes "x") (codes "longer one") open_world
      next_cookie old_cookie 8 changed refl refl

abbrev guest_draft : GuestForm ℕ
guest_draft = record {
  client_nom = codes "Durand";
  client_telephone = none;
  client_email = none;
  client_adresse = none;
  lignes = [];
  tva_applicable = none;
  valid_until = none;
  notes = none;
}

abbrev claim_input : ClaimInput ℕ
claim_input = record {
  env = env;
  mac = same;
  parse_date = λ s. some 3;
  parse_valid_until = λ s. none;
  clock = record { now = 5; year = 2026; month_start = 0; default_valid_until = 90 };
  draft_id = codes "g1";
  client_id = codes "c9";
  devis_id = codes "d9";
  others = λ w. w;
}

abbrev claim_body : ClaimBody ℕ
claim_body = record {
  draft = guest_draft;
  draft_id = codes "g1";
  claim_signature = sign_guest_draft_claim platform claim_input (codes "g1") guest_draft;
  signed_at = none;
}

abbrev foreign : Request
foreign = record signed_in { origin = some (codes "https://e.fr") }

mutations-foreign_example :
    (post_public_devis platform outside foreign (codes "devis-2026-0042") body open_world
      ≡ (ok (403, []), open_world))
    × (post_otp platform outside foreign
          (codes "devis-2026-0042")
          none
          (codes "o1")
          (codes "123456")
          true
          open_world
        ≡ (ok (403, []), open_world))
    × (post_team platform env team_input foreign (codes "b@c.fr") open_world
        ≡ (err Error.csrf, open_world))
    × (delete_team platform env team_input foreign (codes "m1") open_world
        ≡ (err Error.csrf, open_world))
    × (post_auth platform auth_input foreign
          (change_password (codes "x") (codes "longer one"))
          open_world
        ≡ (err Error.csrf, open_world))
    × (post_sign platform claim_input foreign none guest_draft open_world
        ≡ (err Error.csrf, open_world))
    × (post_claim platform claim_input foreign claim_body open_world ≡ (ok (403, []), open_world))
unfolding text_eq normalize_origin
mutations-foreign_example =
    mutations-foreign env foreign (codes "https://e.fr") (refl, refl, refl) platform open_world
      (codes "devis-2026-0042") (codes "o1") (codes "123456") (codes "m1") (codes "b@c.fr") none
      none true outside body team_input (change_password (codes "x") (codes "longer one"))
      auth_input claim_input claim_body refl refl refl
