-- ===== src/Access.antt =====
-- Who may act for which account, and see what of it: src/lib/entity-access.ts, client-guard.ts,
-- billing.ts and `getAccountContext` of account-context.ts.
use devispropre.Base.{
  ◌≡◌, refl, Bool, true, false, not, ◌&&◌, ◌||◌, Option, none, some, List, [], ◌∷◌, if◌then◌else◌,
  ltb, is_some, is_none, holds_on, all, arith,
}
use devispropre.Text.{Text, codes, text_eq, truthy}
use devispropre.Table.{find_first, count}
use devispropre.Accounts.{Plan, free, starter, pro, User, Team, TeamMember, Error}
use devispropre.World.{FactureStatus, Facture, World}
use devispropre.World.Action.{err, Action, gets, or_raise, raise_if, raise, pure, ◌>>=◌}
use devispropre.World.Immutability.{facture_status_eq}
use devispropre.Services.{find_user, find_devis, find_facture, is_client, is_devis, is_facture}

pub record AccountContext : Type 0 where
  pub workspace_user_id : Text
  pub plan : Plan
  pub is_team_member : Bool
  pub is_team_owner : Bool
  pub team_id : Option Text

abbrev is_pro : Plan → Bool
is_pro pro = true
is_pro _ = false

-- `hasActivePaidPlan`
unfoldable pub has_active_paid_plan : Plan → Bool
has_active_paid_plan starter = true
has_active_paid_plan pro = true
has_active_paid_plan free = false

unfoldable pub billing_user_id : Text → Text → Bool → Text
billing_user_id user_id workspace_user_id is_team_member =
    if is_team_member then workspace_user_id else user_id

-- `userNeedsSubscriptionSetup` and `canStartTrial`, which read the same: the free plan, and no
-- customer of Stripe
abbrev never_subscribed : User → Bool
never_subscribed u = not (has_active_paid_plan u.plan) && is_none (truthy u.stripe_customer_id)

abbrev owner_context : User → Option Team → AccountContext
owner_context user team = record {
  workspace_user_id = user.id;
  plan = user.plan;
  is_team_member = false;
  is_team_owner = is_pro user.plan && is_some team;
  team_id = elim team [ none ↦ none | some t ↦ some t.id ];
}

-- every row with this identifier is another user's
module _ {A : Type 0} (id_of owner_of : A → Text) where
  abbrev pub is_foreign : Text → Text → List A → Bool
  is_foreign user_id id rows =
      all (λ r. not (text_eq (id_of r) id && text_eq (owner_of r) user_id)) rows

  none_found :
      (user_id id : Text) (test : A → Bool) (rows : List A)
      → ((r : A) → (text_eq (id_of r) id && text_eq (owner_of r) user_id) ≡ false → test r ≡ false)
      → is_foreign user_id id rows ≡ true
      → is_some (find_first test rows) ≡ false
  unfolding find_first
  none_found user_id id test [] k h = refl
  none_found user_id id test (r ∷ rows) k h =
      ground (arith, k r, h, none_found user_id id test rows k)

module _ {D : Type 0} where
  unfoldable pub can_start_trial : Text → World D → Bool
  can_start_trial user_id w =
      holds_on never_subscribed (find_first (λ u. text_eq u.id user_id) w.users)

  abbrev member_context : Option Team → Text → Action D AccountContext
  member_context none team_id = raise Error.error
  member_context (some team) team_id = do
    owner ←
        or_raise (← gets (λ w. find_first (λ u. text_eq u.id team.owner_id) w.users)) Error.error
    pure (record {
      workspace_user_id = team.owner_id;
      plan = owner.plan;
      is_team_member = true;
      is_team_owner = false;
      team_id = some team_id;
    })

  -- The relations of a member's row are there by its foreign keys; they throw otherwise.
  abbrev context_of : Text → Option TeamMember → Action D AccountContext
  context_of user_id (some membership) = do
    team ← gets (λ w. find_first (λ t. text_eq t.id membership.team_id) w.teams)
    member_context team membership.team_id
  context_of user_id none = do
    user ← or_raise (← gets (find_user user_id)) Error.error
    team ← gets (λ w. find_first (λ t. text_eq t.owner_id user.id) w.teams)
    pure (owner_context user team)

  unfoldable pub get_account_context : Text → Action D AccountContext
  get_account_context user_id = do
    membership ←
        gets
          (λ w. find_first (λ m. holds_on (λ u. text_eq u user_id) m.user_id && m.active) w.members)
    context_of user_id membership

  -- the invoices that keep a client
  abbrev keeps_client : Text → Text → Facture D → Bool
  keeps_client user_id client_id f =
      text_eq f.user_id user_id
      && (text_eq f.client_id client_id
          && (is_none f.deleted_at
              && (facture_status_eq f.status FactureStatus.emise
                  || facture_status_eq f.status FactureStatus.payee)))

  unfoldable pub assert_client_archivable : Text → Text → Action D (Unit {0})
  assert_client_archivable user_id client_id = do
    n ← gets (λ w. count (keeps_client user_id client_id) w.factures)
    raise_if (ltb 0 n) Error.client_archive

  -- whether the row of this type is there, with its owner
  abbrev pub is_owned : Text → Text → Text → World D → Bool
  is_owned user_id entity_type entity_id w =
      if text_eq entity_type (codes "devis")
      then is_some (find_devis entity_id user_id w)
      else if text_eq entity_type (codes "facture")
      then is_some (find_facture entity_id user_id w)
      else if text_eq entity_type (codes "client")
      then is_some (find_first (is_client entity_id user_id) w.clients)
      else if text_eq entity_type (codes "user")
      then text_eq entity_id user_id
      else text_eq entity_type (codes "company")
        && is_some
            (find_first (λ c. text_eq c.id entity_id && text_eq c.user_id user_id) w.companies)

  unfoldable pub assert_entity_owned_by_user : Text → Text → Text → Action D (Unit {0})
  assert_entity_owned_by_user user_id entity_type entity_id = do
    owned ← gets (is_owned user_id entity_type entity_id)
    raise_if (not owned) Error.forbidden

  -- A user who asks for the journal of an entity of which no row with its identifier is the user's is
  -- refused, whatever type the entity is said to have.
  pub assert_entity_owned_by_user-foreign :
      (user_id entity_type entity_id : Text) (w : World D)
      → is_foreign (λ d. d.id) (λ d. d.user_id) user_id entity_id w.devis ≡ true
      → is_foreign (λ f. f.id) (λ f. f.user_id) user_id entity_id w.factures ≡ true
      → is_foreign (λ c. c.id) (λ c. c.user_id) user_id entity_id w.clients ≡ true
      → is_foreign (λ c. c.id) (λ c. c.user_id) user_id entity_id w.companies ≡ true
      → text_eq entity_id user_id ≡ false
      → assert_entity_owned_by_user user_id entity_type entity_id w ≡ (err Error.forbidden, w)
  unfolding assert_entity_owned_by_user ◌>>=◌
  assert_entity_owned_by_user-foreign user_id entity_type entity_id w d f c k u =
      let no_devis =
        none_found (λ d. d.id) (λ d. d.user_id) user_id entity_id (is_devis entity_id user_id)
          w.devis (λ r e. ground (arith, e)) d in
      let no_facture =
        none_found (λ d. d.id) (λ d. d.user_id) user_id entity_id (is_facture entity_id user_id)
          w.factures (λ r e. ground (arith, e)) f in
      let no_client =
        none_found (λ d. d.id) (λ d. d.user_id) user_id entity_id (is_client entity_id user_id)
          w.clients (λ r e. ground (arith, e)) c in
      let no_company =
        none_found (λ d. d.id) (λ d. d.user_id) user_id entity_id
          (λ c. text_eq c.id entity_id && text_eq c.user_id user_id) w.companies (λ r e. e) k in
      let refused : is_owned user_id entity_type entity_id w ≡ false =
        ground (arith, no_devis, no_facture, no_client, no_company, u) in
      rw refused refl
