-- ===== src/Team.antt =====
-- src/app/api/team/route.ts: the owner of a Pro account invites members and takes them off.
pub mod Seats
pub mod Member
use devispropre.Base.{
  ℕ, suc, ◌==◌, Bool, true, false, not, ◌&&◌, Option, none, some, List, [], ◌∷◌, ◌++◌,
  if◌then◌else◌, leb, is_some, holds_on, ◌⊎◌, inl, inr,
}
use devispropre.Text.{Text, codes, text_eq}
use devispropre.Table.{find_first, count, update_many, delete_many}
use devispropre.Platform.{Platform}
use devispropre.Accounts.{has_pro, User, Team, TeamMember, Error}
use devispropre.Audit
use devispropre.Audit.{AuditParams}
use devispropre.RateLimit.{Limit}
use devispropre.World.{World}
use devispropre.World.Action.{Action, pure, raise, raise_if, gets, ◌>>=◌, ◌>>◌, modify}
use devispropre.Services.{log, wait_for}
use devispropre.Api.{
  Env, Request, Reply, Auth, build_service_context, assert_mutation_security, require_auth,
  limit_calls, caught,
}

-- What a call takes from outside: the clock, the identifiers of new rows, and whether the call that
-- sends the mail throws.
-- `others` is what other requests do between the count of the members and the new row.
pub record TeamInput (D : Type 0) : Type 0 where
  pub now : ℕ
  pub team_id : Text
  pub member_id : Text
  pub mail_throws : Bool
  pub others : World D → World D

abbrev pub invite_limit : Limit
invite_limit = record { max_attempts = 20; window_ms = 3600000 }

abbrev pub is_owned_by : Text → Team → Bool
is_owned_by owner_id t = text_eq t.owner_id owner_id

abbrev pub is_in : Text → TeamMember → Bool
is_in team_id m = text_eq m.team_id team_id

abbrev pub is_of_user : Text → TeamMember → Bool
is_of_user user_id m = holds_on (λ u. text_eq u user_id) m.user_id

-- `{ teamId_email: { teamId, email } }`
abbrev pub is_invited : Text → Text → TeamMember → Bool
is_invited team_id email m = is_in team_id m && text_eq m.email email

abbrev id_of : Option User → Option Text
id_of none = none
id_of (some u) = some u.id

-- a new row: a user who is there is a member at once
abbrev pub new_member : {D : Type 0} → TeamInput D → Text → Text → Option User → TeamMember
new_member input team_id email existing = record {
  id = input.member_id;
  team_id = team_id;
  user_id = id_of existing;
  email = email;
  active = is_some existing;
  invited_at = input.now;
  accepted_at = if is_some existing then some input.now else none;
}

abbrev pub activate : Text → ℕ → TeamMember → TeamMember
activate user_id now m = record m { user_id = some user_id; active = true; accepted_at = some now }

module _ {D : Type 0} where
  abbrev pub found_or_new : Text → Text → Option Team → Action D Team
  found_or_new owner_id id (some team) = pure team
  found_or_new owner_id id none = do
    let team : Team = record { id = id; owner_id = owner_id; max_members = 5 }
    modify (λ w. record w { teams = w.teams ++ team ∷ [] })
    pure team

  -- `ensureProTeam`
  unfoldable pub ensure_pro_team : Text → Text → Action D Team
  ensure_pro_team owner_id id = do
    existing ← gets (λ w. find_first (is_owned_by owner_id) w.teams)
    found_or_new owner_id id existing

  abbrev pub is_taken : Option User → World D → Bool
  is_taken none w = false
  is_taken (some u) w = is_some (find_first (is_of_user u.id) w.members)

  -- `upsert`; `userId` is unique among the members
  abbrev pub upsert_member :
      TeamInput D → Text → Text → Option User → Option TeamMember → Action D TeamMember
  upsert_member input team_id email existing (some m) = pure m
  upsert_member input team_id email existing none = do
    taken ← gets (is_taken existing)
    raise_if taken Error.error
    modify (λ w. record w { members = w.members ++ new_member input team_id email existing ∷ [] })
    pure (new_member input team_id email existing)

  abbrev pub activate_member : ℕ → TeamMember → Option User → Action D (Unit {0})
  activate_member now member none = pure tt
  activate_member now member (some u) = if member.active then pure tt else (do
    taken ← gets (λ w.
        is_some (find_first (λ m. is_of_user u.id m && not (text_eq m.id member.id)) w.members))
    raise_if taken Error.error
    modify (λ w. record w {
      members = update_many (λ m. text_eq m.id member.id) (activate u.id now) w.members;
    }))

  abbrev pub is_member : Text → Option User → World D → Bool
  is_member team_id none w = false
  is_member team_id (some u) w =
      is_some (find_first (λ m. is_in team_id m && is_of_user u.id m) w.members)

  abbrev invitation : Text → Text → AuditParams D
  invitation member_id email = record {
    action = Audit.create;
    entity_type = codes "team_member";
    entity_id = member_id;
    devis_id = none;
    facture_id = none;
    metadata = (codes "email", Audit.text email) ∷ [];
    content_hash = none;
  }

  module _ (p : Platform D) (env : Env) (input : TeamInput D) where
    abbrev pub add_found :
        Request → Auth → Text → Text → Option User → Option TeamMember → Action D Reply
    add_found request auth team_id email existing found = do
      member ← upsert_member input team_id email existing found
      activate_member input.now member existing
      raise_if input.mail_throws Error.error
      log p (build_service_context auth.workspace_user_id (some auth.user.id) request)
          (invitation member.id email) input.now
      pure (201, [])

    abbrev pub add_member : Request → Auth → Text → Text → Option User → Action D Reply
    add_member request auth team_id email existing = do
      found ← gets (λ w. find_first (is_invited team_id email) w.members)
      add_found request auth team_id email existing found

    abbrev pub admit : Request → Auth → Text → Team → Action D Reply
    admit request auth email team = do
      n ← gets (λ w. count (is_in team.id) w.members)
      existing ← gets (λ w. find_first (λ u. text_eq u.email email) w.users)
      already ← gets (is_member team.id existing)
      (if leb team.max_members n
          then pure (402, [])
          else if already
          then pure (400, [])
          else wait_for input.others >> add_member request auth team.id email existing)

    abbrev pub invite_other : Request → Text → Auth → Action D Reply
    invite_other request email auth =
        if text_eq (env.lower email) (env.lower auth.user.email) then pure (400, []) else (do
          team ← ensure_pro_team auth.user.id input.team_id
          admit request auth (env.lower email) team)

    -- what `POST` does for a user who is signed in; the address is that of `inviteSchema`
    unfoldable pub invite : Request → Text → Auth → Action D Reply
    invite request email auth = do
      raise_if (not (has_pro auth.plan)) Error.plan_feature
      raise_if auth.is_team_member Error.forbidden
      limit_calls (codes "team:invite:" ++ auth.workspace_user_id) invite_limit input.now
      invite_other request email auth

    abbrev pub signed_in : (Auth → Action D Reply) → Auth ⊎ Reply → Action D Reply
    signed_in handler (inl auth) = caught [] (handler auth)
    signed_in handler (inr reply) = pure reply

    -- `POST`
    unfoldable pub post_team : Request → Text → Action D Reply
    post_team request email = do
      assert_mutation_security env request
      auth ← require_auth false request input.now
      signed_in (invite request email) auth

    -- The row is of the owner's team.
    unfoldable pub remove_member : Text → Auth → Action D Reply
    remove_member member_id auth = do
      raise_if (not (has_pro auth.plan)) Error.plan_feature
      raise_if auth.is_team_member Error.forbidden
      team ← ensure_pro_team auth.user.id input.team_id
      found ← gets (λ w. find_first (λ m. text_eq m.id member_id && is_in team.id m) w.members)
      (if is_some found
          then (do
            modify (λ w. record w { members = delete_many (λ m. text_eq m.id member_id) w.members })
            pure (200, []))
          else pure (404, []))

    abbrev remove : Text → Auth → Action D Reply
    remove [] auth = do
      raise_if (not (has_pro auth.plan)) Error.plan_feature
      raise_if auth.is_team_member Error.forbidden
      pure (400, [])
    remove (c ∷ id) auth = remove_member (c ∷ id) auth

    -- `DELETE`, of the member that the address names
    unfoldable pub delete_team : Request → Text → Action D Reply
    delete_team request member_id = do
      assert_mutation_security env request
      auth ← require_auth false request input.now
      signed_in (remove member_id) auth
