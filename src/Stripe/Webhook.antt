-- ===== src/Stripe/Webhook.antt =====
-- src/lib/stripe-webhook-idempotency.ts and src/app/api/stripe/webhook/route.ts: an event is claimed,
-- processed and marked.
use devispropre.Base.{
  ℕ, Bool, true, false, not, Option, none, some, [], ◌∷◌, ◌++◌, if◌then◌else◌, is_none,
}
use devispropre.Text.{Text, text_eq, truthy}
use devispropre.Table.{find_first, update_many}
use devispropre.Accounts.{StripeWebhookEvent, Error}
use devispropre.World.Action.{
  Result, ok, err, Action, gets, or_raise, pure, ◌>>=◌, ◌>>◌, modify, transaction, attempt,
}
use devispropre.Stripe.{Prices, Subscription, Event, process_stripe_webhook_event}

-- What the route takes from the library of Stripe.
pub record StripeClient : Type 0 where
  pub configured : Bool
  -- `stripe.webhooks.constructEvent`, of a body and its signature: an identifier and an event
  pub construct_event : Text → Text → Option (Text × Event)
  pub retrieve : Text → Option Subscription

pub data Response : Type 0 where
  unconfigured missing_signature invalid_signature duplicate received incoherent failed : Response

abbrev pub status : Response → ℕ
status unconfigured = 503
status missing_signature = 400
status invalid_signature = 400
status duplicate = 200
status received = 200
status incoherent = 400
status failed = 500

abbrev pub is_event : Text → StripeWebhookEvent → Bool
is_event event_id e = text_eq e.event_id event_id

abbrev pub mark : ℕ → StripeWebhookEvent → StripeWebhookEvent
mark now e = record e { processed_at = some now }

abbrev pub is_incoherent : Error → Bool
is_incoherent Error.incoherent_reference = true
is_incoherent _ = false

abbrev pub answer : Result (Unit {0}) → Response
answer (ok _) = received
answer (err e) = if is_incoherent e then incoherent else failed

module _ {D : Type 0} where
  abbrev pub claim_found : Text → Option StripeWebhookEvent → Action D Bool
  claim_found event_id (some e) = pure (is_none e.processed_at)
  claim_found event_id none = do
    modify (λ w. record w {
      stripe_events = w.stripe_events ++ (record { event_id = event_id; processed_at = none }) ∷ [];
    })
    pure true

  unfoldable pub claim_stripe_webhook_event : Text → Action D Bool
  claim_stripe_webhook_event event_id =
      transaction
        do e ← gets (λ w. find_first (is_event event_id) w.stripe_events); claim_found event_id e

  unfoldable pub mark_stripe_webhook_event_processed : Text → ℕ → Action D (Unit {0})
  mark_stripe_webhook_event_processed event_id now = do
    e ← or_raise (← gets (λ w. find_first (is_event event_id) w.stripe_events)) Error.error
    modify (λ w. record w {
      stripe_events = update_many (is_event event_id) (mark now) w.stripe_events;
    })

  module _ (prices : Prices) (new_id : Text → Text) (client : StripeClient) (now : ℕ) where
    abbrev pub process : Text → Event → Bool → Action D Response
    process event_id event false = pure duplicate
    process event_id event true = do
      r ← attempt (
          process_stripe_webhook_event prices new_id client.retrieve event
          >> mark_stripe_webhook_event_processed event_id now)
      pure (answer r)

    -- the event, once the signature is checked
    unfoldable pub handle_event : Option (Text × Event) → Action D Response
    handle_event none = pure invalid_signature
    handle_event (some (event_id, event)) = do
      claimed ← claim_stripe_webhook_event event_id
      process event_id event claimed

    -- `POST`
    abbrev pub post_webhook : Text → Option Text → Action D Response
    post_webhook body sig = if not client.configured then pure unconfigured else elim (truthy sig) [
      | none ↦ pure missing_signature
      | some s ↦ handle_event (client.construct_event body s)
    ]
