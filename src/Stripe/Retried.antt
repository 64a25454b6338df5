-- ===== src/Stripe/Retried.antt =====
-- An event whose processing failed is processed at its next delivery.
use devispropre.Base.{
  ℕ, ◌≡◌, refl, true, Option, none, some, List, is_none, Bool-cases, Option-cases, inl, inr, keep,
}
use devispropre.Text.{Text, text_eq_refl}
use devispropre.Table.{find_first, find_first-append_new}
use devispropre.Accounts.{Plan, User, Team, TeamMember, StripeWebhookEvent}
use devispropre.World.{World}
use devispropre.World.Action.{Result, ok, err, ◌>>=◌, attempt, Action, continue}
use devispropre.World.Action.Keeps.{
  Keeps, Keeps-modify, Keeps-pure, Keeps-bind, Keeps-gets, Keeps-or_raise, Keeps-raise_if, Keeps-if,
  Keeps-for_each,
}
use devispropre.World.Action.Inversion.{of_ok}
use devispropre.Stripe.{
  Prices, Subscription, CheckoutSession, Event, checkout_completed, subscription_deleted,
  subscription_updated, payment_failed, invoice_paid, other, ensure_pro_team, create_team,
  suspend_pro_team_members, downgrade_customer_to_free, mark_customer_past_due,
  clear_customer_past_due, apply_plan, sync_user_plan_from_subscription, link_customer, give_team,
  complete_checkout, on_customer, process_stripe_webhook_event,
}
use devispropre.Stripe.Downgraded.{Keeps-suspend_pro}
use devispropre.Stripe.Webhook.{
  StripeClient, received, failed, duplicate, is_event, answer, claim_stripe_webhook_event,
  mark_stripe_webhook_event_processed, process, handle_event,
}

-- A property of the state that the events of Stripe do not touch.
record Apart {D : Type 0} (P : World D → Type 0) : Type 0 where
  on_users : (w : World D) (rows : List User) → P w → P (record w { users = rows })
  on_teams : (w : World D) (rows : List Team) → P w → P (record w { teams = rows })
  on_members : (w : World D) (rows : List TeamMember) → P w → P (record w { members = rows })

module _ {D : Type 0} {P : World D → Type 0} (h : Apart P) where
  Keeps-suspend : (id : Text) → Keeps P (suspend_pro_team_members id)
  Keeps-suspend = Keeps-suspend_pro (λ w q. h.on_members w (keep q w.members))

  Keeps-past_due : (customer : Text) → Keeps P (mark_customer_past_due customer)
  unfolding mark_customer_past_due
  Keeps-past_due customer = Keeps-modify _ (λ w. h.on_users w _)

  Keeps-clear : (customer : Text) → Keeps P (clear_customer_past_due customer)
  unfolding clear_customer_past_due
  Keeps-clear customer = Keeps-modify _ (λ w. h.on_users w _)

  Keeps-downgrade : (customer : Text) → Keeps P (downgrade_customer_to_free customer)
  unfolding downgrade_customer_to_free
  Keeps-downgrade customer = Keeps-bind _ _ (Keeps-gets _) (λ users.
      Keeps-bind _ _ (Keeps-modify _ (λ w. h.on_users w _))
        (λ _. Keeps-for_each _ users (λ u. Keeps-suspend u.id)))

  Keeps-create_team :
      (id owner_id : Text) (team : Option Team) → Keeps P (create_team id owner_id team)
  Keeps-create_team id owner_id none = Keeps-modify _ (λ w. h.on_teams w _)
  Keeps-create_team id owner_id (some _) = Keeps-pure tt

  module _ (prices : Prices) (new_id : Text → Text) where
    Keeps-ensure : (id : Text) → Keeps P (ensure_pro_team new_id id)
    unfolding ensure_pro_team
    Keeps-ensure id = Keeps-bind _ _ (Keeps-gets _) (Keeps-create_team (new_id id) id)

    Keeps-apply :
        (customer : Text) (plan : Option Plan) → Keeps P (apply_plan prices new_id customer plan)
    Keeps-apply customer none = Keeps-pure tt
    Keeps-apply customer (some plan) = Keeps-bind _ _ (Keeps-modify _ (λ w. h.on_users w _)) (λ _.
        Keeps-bind _ _ (Keeps-gets _) (λ users.
          Keeps-for_each _ users (λ u. Keeps-if _ _ _ (Keeps-ensure u.id) (Keeps-suspend u.id))))

    Keeps-sync : (s : Subscription) → Keeps P (sync_user_plan_from_subscription prices new_id s)
    unfolding sync_user_plan_from_subscription
    Keeps-sync s = Keeps-if _ _ _ (Keeps-downgrade s.customer) (
        Keeps-if _ _ _ (Keeps-past_due s.customer) (
          Keeps-if _ _ _ (Keeps-bind _ _ (Keeps-clear s.customer) (λ _. Keeps-apply s.customer _))
            (Keeps-pure tt)))

    Keeps-link : (user customer : Option Text) → Keeps P (link_customer user customer)
    Keeps-link none customer = Keeps-pure tt
    Keeps-link (some u) none = Keeps-pure tt
    Keeps-link (some u) (some c) = Keeps-bind _ _ (Keeps-gets _) (λ o.
        Keeps-bind _ _ (Keeps-or_raise o _) (λ _.
          Keeps-bind _ _ (Keeps-gets _)
            (λ t. Keeps-bind _ _ (Keeps-raise_if _ _) (λ _. Keeps-modify _ (λ w. h.on_users w _)))))

    Keeps-give :
        (user customer : Option Text) (plan : Option Plan)
        → Keeps P (give_team prices new_id user customer plan)
    Keeps-give none c plan = Keeps-pure tt
    Keeps-give (some u) none plan = Keeps-pure tt
    Keeps-give (some u) (some c) none = Keeps-pure tt
    Keeps-give (some u) (some c) (some plan) = Keeps-if _ _ _ (Keeps-ensure u) (Keeps-pure tt)

    Keeps-checkout :
        (retrieve : Text → Option Subscription) (session : CheckoutSession) (id : Option Text)
        → Keeps P (complete_checkout prices new_id retrieve session id)
    Keeps-checkout retrieve session none = Keeps-pure tt
    Keeps-checkout retrieve session (some id) =
        Keeps-bind _ _ (Keeps-or_raise _ _)
          (λ s. Keeps-bind _ _ (Keeps-sync s) (λ _. Keeps-give _ _ _))

    Keeps-customer :
        (f : Text → Action D (Unit {0})) (c : Option Text)
        → ((c : Text) → Keeps P (f c))
        → Keeps P (on_customer f c)
    Keeps-customer f none k = Keeps-pure tt
    Keeps-customer f (some c) k = k c

    Keeps-event :
        (retrieve : Text → Option Subscription) (event : Event)
        → Keeps P (process_stripe_webhook_event prices new_id retrieve event)
    unfolding process_stripe_webhook_event
    Keeps-event retrieve (checkout_completed session) =
        Keeps-bind _ _ (Keeps-raise_if _ _)
          (λ _. Keeps-bind _ _ (Keeps-link _ _) (λ _. Keeps-checkout retrieve session _))
    Keeps-event retrieve (subscription_deleted s) = Keeps-downgrade s.customer
    Keeps-event retrieve (subscription_updated s) = Keeps-sync s
    Keeps-event retrieve (payment_failed c) = Keeps-customer _ _ Keeps-past_due
    Keeps-event retrieve (invoice_paid c) = Keeps-customer _ _ Keeps-clear
    Keeps-event retrieve other = Keeps-pure tt

-- The event has been claimed, and not processed.
abbrev pub IsPending : {D : Type 0} → Text → World D → Type 0
IsPending event_id w =
    (e : StripeWebhookEvent) × (find_first (is_event event_id) w.stripe_events ≡ some e)
    × (is_none e.processed_at ≡ true)

not_failed : received ≡ failed → ⊥
not_failed h = cc

not_failed_either : duplicate ≡ failed → ⊥
not_failed_either h = cc

module _ {D : Type 0} (prices : Prices) (new_id : Text → Text) (client : StripeClient) where
  IsPending-Apart : (event_id : Text) → Apart {D = D} (IsPending event_id)
  IsPending-Apart event_id = record {
    on_users = λ w rows h. h;
    on_teams = λ w rows h. h;
    on_members = λ w rows h. h;
  }

  finished :
      (event_id : Text) (now : ℕ) (r : Result (Unit {0})) (w : World D)
      → IsPending event_id w
      → let (r', w') = continue r (λ _. mark_stripe_webhook_event_processed event_id now) w in
        answer r' ≡ failed → IsPending event_id w'
  unfolding mark_stripe_webhook_event_processed ◌>>=◌
  finished event_id now (ok _) w (e, found, open_) h = absurd (not_failed (rw found at h))
  finished event_id now (err _) w pending h = pending

  process-IsPending :
      (event_id : Text) (event : Event) (now : ℕ) (w : World D)
      → IsPending event_id w
      → (process prices new_id client now event_id event true w).0 ≡ ok failed
      → IsPending event_id (process prices new_id client now event_id event true w).1
  unfolding attempt ◌>>=◌
  process-IsPending event_id event now w pending h =
      let (r, w') = process_stripe_webhook_event prices new_id client.retrieve event w in
      finished event_id now r w'
        ((Keeps-event (IsPending-Apart event_id) prices new_id client.retrieve event).at w pending)
        (of_ok _ failed h)

  handle_event-IsPending :
      (event_id : Text) (event : Event) (now : ℕ) (w : World D)
      → (handle_event prices new_id client now (some (event_id, event)) w).0 ≡ ok failed
      → IsPending event_id (handle_event prices new_id client now (some (event_id, event)) w).1
  unfolding handle_event claim_stripe_webhook_event ◌>>=◌
  handle_event-IsPending event_id event now w h =
      elim (Option-cases (find_first (is_event event_id) w.stripe_events)) [
        | inl new ↦
            let row : StripeWebhookEvent = record { event_id = event_id; processed_at = none } in
            rw new (
              process-IsPending event_id event now _
                (
                  row,
                  find_first-append_new (is_event event_id) w.stripe_events row new
                      (text_eq_refl event_id),
                  refl,
                )
                (rw new at h))
        | inr (e, found) ↦ elim (Bool-cases (is_none e.processed_at)) [
          | inl again ↦
              rw (found, again)
                (process-IsPending event_id event now w (e, found, again) (rw (found, again) at h))
          | inr done ↦ absurd (not_failed_either (of_ok duplicate failed (rw (found, done) at h)))
        ]
      ]

  -- An event whose processing failed is not taken for a duplicate at its next delivery: it can be
  -- claimed again.
  pub handle_event-retried :
      (event_id : Text) (event : Event) (now : ℕ) (w : World D)
      → (handle_event prices new_id client now (some (event_id, event)) w).0 ≡ ok failed
      → (claim_stripe_webhook_event event_id
          (handle_event prices new_id client now (some (event_id, event)) w).1).0
        ≡ ok true
  unfolding claim_stripe_webhook_event ◌>>=◌
  handle_event-retried event_id event now w h =
      let (e, found, open_) = handle_event-IsPending event_id event now w h in
      rw (found, open_) refl
