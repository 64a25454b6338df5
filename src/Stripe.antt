-- ===== src/Stripe.antt =====
-- src/lib/stripe-subscription.ts, stripe-webhook-handler.ts and stripe-webhook-idempotency.ts, with
-- what of billing-status.ts and account-context.ts they call, and the route
-- src/app/api/stripe/webhook/route.ts: the plans that Stripe's events give and take.
pub mod Webhook
pub mod Downgraded
pub mod Once
pub mod Retried
use devispropre.Base.{
  ℕ, Bool, true, false, not, ◌&&◌, ◌||◌, Option, none, some, List, [], ◌∷◌, ◌++◌, keep,
  if◌then◌else◌, is_some, holds_on,
}
use devispropre.Text.{Text, codes, text_eq, truthy}
use devispropre.Table.{find_first, update_many, delete_many}
use devispropre.Accounts.{Plan, free, starter, pro, User, Team, TeamMember, Error}
use devispropre.World.{World}
use devispropre.World.Action.{Action, gets, or_raise, raise_if, pure, ◌>>=◌, ◌>>◌, modify, for_each}

-- The prices of `env`.
pub record Prices : Type 0 where
  pub pro : Text
  pub starter : Text

-- What is read of a subscription of Stripe: the status is one of its texts.
pub record Subscription : Type 0 where
  pub customer : Text
  pub status : Text
  pub price_id : Option Text

-- A checkout session; `customer` and `subscription` where they are texts.
pub record CheckoutSession : Type 0 where
  pub client_reference_id : Option Text
  pub metadata_user_id : Option Text
  pub customer : Option Text
  pub subscription : Option Text

-- `event.type`, with the object of the event; of an invoice, its customer.
pub data Event : Type 0 where
  checkout_completed : CheckoutSession → Event
  subscription_deleted subscription_updated : Subscription → Event
  payment_failed invoice_paid : Option Text → Event
  other : Event

unfoldable pub plan_from_stripe_price : Prices → Text → Option Plan
plan_from_stripe_price prices price_id =
    if text_eq price_id prices.pro
    then some pro
    else if text_eq price_id prices.starter
    then some starter
    else none

unfoldable pub should_downgrade_to_free : Text → Bool
should_downgrade_to_free status =
    text_eq status (codes "canceled")
    || text_eq status (codes "unpaid")
    || text_eq status (codes "incomplete_expired")

-- `{ stripeCustomerId: customerId }`
abbrev pub has_customer : Text → User → Bool
has_customer customer u = holds_on (λ c. text_eq c customer) u.stripe_customer_id

abbrev is_paid_status : Text → Bool
is_paid_status status = text_eq status (codes "active") || text_eq status (codes "trialing")

abbrev pub set_past_due : Bool → User → User
set_past_due b u = record u { subscription_past_due = b }

abbrev pub lose_plan : User → User
lose_plan u = record u { plan = free; subscription_past_due = false }

abbrev set_plan : Plan → User → User
set_plan plan u = record u { plan = plan }

abbrev set_customer : Text → User → User
set_customer customer u = record u { stripe_customer_id = some customer }

abbrev is_pro : Plan → Bool
is_pro pro = true
is_pro _ = false

-- `session.client_reference_id ?? session.metadata?.userId ?? null`
abbrev reference : CheckoutSession → Option Text
reference session = elim session.client_reference_id [
  | none ↦ session.metadata_user_id
  | some id ↦ some id
]

-- both references are given, and differ
abbrev differ : Option Text → Option Text → Bool
differ (some a) (some b) = not (text_eq a b)
differ _ _ = false

abbrev price_plan : Prices → Option Text → Option Plan
price_plan prices none = none
price_plan prices (some id) = plan_from_stripe_price prices id

-- a member that has joined
abbrev pub is_joined : Text → TeamMember → Bool
is_joined team_id m = text_eq m.team_id team_id && is_some m.user_id

module _ {D : Type 0} where
  abbrev set_users : (User → Bool) → (User → User) → Action D (Unit {0})
  set_users test change = modify (λ w. record w { users = update_many test change w.users })

  unfoldable pub mark_customer_past_due : Text → Action D (Unit {0})
  mark_customer_past_due customer = set_users (has_customer customer) (set_past_due true)

  unfoldable pub clear_customer_past_due : Text → Action D (Unit {0})
  clear_customer_past_due customer = set_users (has_customer customer) (set_past_due false)

  abbrev pub suspend : Option Team → Action D (Unit {0})
  suspend none = pure tt
  suspend (some team) =
      modify (λ w. record w { members = delete_many (is_joined team.id) w.members })

  unfoldable pub suspend_pro_team_members : Text → Action D (Unit {0})
  suspend_pro_team_members owner_id = do
    team ← gets (λ w. find_first (λ t. text_eq t.owner_id owner_id) w.teams)
    suspend team

  abbrev pub create_team : Text → Text → Option Team → Action D (Unit {0})
  create_team id owner_id (some team) = pure tt
  create_team id owner_id none = modify (λ w. record w {
    teams = w.teams ++ (record { id = id; owner_id = owner_id; max_members = 5 }) ∷ [];
  })

  -- `ensureProTeam`; `new_id` is the identifier of a team that is made for an owner.
  unfoldable pub ensure_pro_team : (Text → Text) → Text → Action D (Unit {0})
  ensure_pro_team new_id owner_id = do
    team ← gets (λ w. find_first (λ t. text_eq t.owner_id owner_id) w.teams)
    create_team (new_id owner_id) owner_id team

  abbrev customers : Text → World D → List User
  customers customer w = keep (has_customer customer) w.users

  unfoldable pub downgrade_customer_to_free : Text → Action D (Unit {0})
  downgrade_customer_to_free customer = do
    users ← gets (customers customer)
    set_users (has_customer customer) lose_plan
    for_each (λ u. suspend_pro_team_members u.id) users

  -- the update of a user, who must be there, with a customer that nobody else has
  abbrev pub link_customer : Option Text → Option Text → Action D (Unit {0})
  link_customer (some user_id) (some customer) = do
    user ← or_raise (← gets (λ w. find_first (λ u. text_eq u.id user_id) w.users)) Error.error
    taken ←
        gets (λ w. find_first (λ u. has_customer customer u && not (text_eq u.id user_id)) w.users)
    raise_if (is_some taken) Error.error
    set_users (λ u. text_eq u.id user_id) (set_customer customer)
  link_customer _ _ = pure tt

  abbrev pub on_customer : (Text → Action D (Unit {0})) → Option Text → Action D (Unit {0})
  on_customer f none = pure tt
  on_customer f (some customer) = f customer

  module _ (prices : Prices) (new_id : Text → Text) where
    abbrev pub apply_plan : Text → Option Plan → Action D (Unit {0})
    apply_plan customer none = pure tt
    apply_plan customer (some plan) = do
      set_users (has_customer customer) (set_plan plan)
      users ← gets (customers customer)
      for_each
          (λ u. if is_pro plan then ensure_pro_team new_id u.id else suspend_pro_team_members u.id)
          users

    unfoldable pub sync_user_plan_from_subscription : Subscription → Action D (Unit {0})
    sync_user_plan_from_subscription s =
        if should_downgrade_to_free s.status
        then downgrade_customer_to_free s.customer
        else if text_eq s.status (codes "past_due")
        then mark_customer_past_due s.customer
        else if is_paid_status s.status
        then (do
          clear_customer_past_due s.customer
          apply_plan s.customer (price_plan prices (truthy s.price_id)))
        else pure tt

    abbrev pub give_team : Option Text → Option Text → Option Plan → Action D (Unit {0})
    give_team (some user_id) (some customer) (some plan) =
        if is_pro plan then ensure_pro_team new_id user_id else pure tt
    give_team _ _ _ = pure tt

    -- `retrieve` asks Stripe for a subscription, and may fail.
    abbrev pub complete_checkout :
        (Text → Option Subscription) → CheckoutSession → Option Text → Action D (Unit {0})
    complete_checkout retrieve session none = pure tt
    complete_checkout retrieve session (some id) = do
      s ← or_raise (retrieve id) Error.error
      sync_user_plan_from_subscription s
      give_team (truthy (reference session)) (truthy session.customer)
          (price_plan prices (truthy s.price_id))

    unfoldable pub process_stripe_webhook_event :
        (Text → Option Subscription) → Event → Action D (Unit {0})
    process_stripe_webhook_event retrieve (checkout_completed session) = do
      raise_if (differ (truthy session.client_reference_id) (truthy session.metadata_user_id))
          Error.incoherent_reference
      link_customer (truthy (reference session)) session.customer
      complete_checkout retrieve session (truthy session.subscription)
    process_stripe_webhook_event retrieve (subscription_deleted s) =
        downgrade_customer_to_free s.customer
    process_stripe_webhook_event retrieve (subscription_updated s) =
        sync_user_plan_from_subscription s
    process_stripe_webhook_event retrieve (payment_failed customer) =
        on_customer mark_customer_past_due (truthy customer)
    process_stripe_webhook_event retrieve (invoice_paid customer) =
        on_customer clear_customer_past_due (truthy customer)
    process_stripe_webhook_event retrieve other = pure tt
