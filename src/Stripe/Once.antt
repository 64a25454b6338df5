-- ===== src/Stripe/Once.antt =====
-- An event is processed once, and again only where processing it failed.
use devispropre.Base.{
  ℕ, ◌≡◌, refl, true, some, is_none, Bool-cases, Option-cases, inl, inr, if◌then◌else◌,
}
use devispropre.Text.{Text}
use devispropre.Table.{find_first, find_first_passes, find_first-update_many}
use devispropre.Accounts.{StripeWebhookEvent, Error}
use devispropre.World.{World}
use devispropre.World.Action.{Result, ok, err, ◌>>=◌, attempt, Action, continue}
use devispropre.World.Action.Inversion.{of_ok}
use devispropre.Stripe.{Prices, Event, process_stripe_webhook_event}
use devispropre.Stripe.Webhook.{
  StripeClient, received, duplicate, failed, incoherent, is_incoherent, is_event, mark, answer,
  claim_stripe_webhook_event, mark_stripe_webhook_event_processed, process, handle_event,
}

-- The event has been processed.
abbrev pub IsProcessed : {D : Type 0} → Text → World D → Type 0
IsProcessed event_id w =
    (e : StripeWebhookEvent) × (at : ℕ) × (find_first (is_event event_id) w.stripe_events ≡ some e)
    × (e.processed_at ≡ some at)

no_ok : (e : Error) → ◌≡◌ {A = Result (Unit {0})} (err e) (ok tt) → ⊥
no_ok e h = cc

not_received : (e : Error) → answer (err e) ≡ received → ⊥
not_received e h = elim (Bool-cases (is_incoherent e)) [
  | inl i ↦ unlike_incoherent (rw i at h)
  | inr i ↦ unlike_failed (rw i at h)
]
  where
    unlike_incoherent : incoherent ≡ received → ⊥
    unlike_incoherent h = cc

    unlike_failed : failed ≡ received → ⊥
    unlike_failed h = cc

received_ok : (r : Result (Unit {0})) → answer r ≡ received → r ≡ ok tt
received_ok (ok _) h = refl
received_ok (err e) h = absurd (not_received e h)

not_done : duplicate ≡ received → ⊥
not_done h = cc

module _ {D : Type 0} where
  marked :
      (event_id : Text) (now : ℕ) (w : World D)
      → (mark_stripe_webhook_event_processed event_id now w).0 ≡ ok tt
      → IsProcessed event_id (mark_stripe_webhook_event_processed event_id now w).1
  unfolding mark_stripe_webhook_event_processed ◌>>=◌
  marked event_id now w done =
      elim (Option-cases (find_first (is_event event_id) w.stripe_events)) [
        | inl missing ↦ absurd (no_ok Error.error (rw missing at done))
        | inr (e, found) ↦ rw found (
          (if is_event event_id e then mark now e else e),
          now,
          (rw found at (
              find_first-update_many (is_event event_id) (is_event event_id) (mark now)
                w.stripe_events (λ x h. refl))),
          rw (find_first_passes (is_event event_id) w.stripe_events e found) refl,
        )
      ]

  -- what comes last in a sequence that succeeds has succeeded
  last_ok :
      (r : Result (Unit {0})) (m : Action D (Unit {0})) (w : World D)
      → (continue r (λ _. m) w).0 ≡ ok tt
      → (continue r (λ _. m) w ≡ m w)
  last_ok (ok _) m w h = refl
  last_ok (err e) m w h = absurd (no_ok e h)

  module _ (prices : Prices) (new_id : Text → Text) (client : StripeClient) where
    processed :
        (event_id : Text) (event : Event) (now : ℕ) (w : World D)
        → (process prices new_id client now event_id event true w).0 ≡ ok received
        → IsProcessed event_id (process prices new_id client now event_id event true w).1
    unfolding attempt ◌>>=◌
    processed event_id event now w h =
        let (r, w') = process_stripe_webhook_event prices new_id client.retrieve event w in
        let rest = mark_stripe_webhook_event_processed event_id now in
        let done = received_ok _ (of_ok (answer (continue r (λ _. rest) w').0) received h) in
        let same = last_ok r rest w' done in rw same (marked event_id now w' (rw same at done))

    handled :
        (event_id : Text) (event : Event) (now : ℕ) (w : World D)
        → (handle_event prices new_id client now (some (event_id, event)) w).0 ≡ ok received
        → IsProcessed event_id (handle_event prices new_id client now (some (event_id, event)) w).1
    unfolding handle_event claim_stripe_webhook_event ◌>>=◌
    handled event_id event now w h =
        elim (Option-cases (find_first (is_event event_id) w.stripe_events)) [
          | inl new ↦ rw new (processed event_id event now _ (rw new at h))
          | inr (e, found) ↦ elim (Bool-cases (is_none e.processed_at)) [
            | inl again ↦
                rw (found, again) (processed event_id event now w (rw (found, again) at h))
            | inr done ↦ absurd (not_done (of_ok duplicate received (rw (found, done) at h)))
          ]
        ]

    repeated :
        (event_id : Text) (event : Event) (later : ℕ) (w : World D)
        → IsProcessed event_id w
        → handle_event prices new_id client later (some (event_id, event)) w ≡ (ok duplicate, w)
    unfolding handle_event claim_stripe_webhook_event ◌>>=◌
    repeated event_id event later w (e, at, found, done) = rw (found, done) refl

    -- An event that was received is not processed again: the same event at a later time is answered
    -- as a duplicate, and nothing changes.
    pub handle_event-again :
        (event_id : Text) (event : Event) (now later : ℕ) (w : World D)
        → (handle_event prices new_id client now (some (event_id, event)) w).0 ≡ ok received
        → let w' = (handle_event prices new_id client now (some (event_id, event)) w).1 in
          handle_event prices new_id client later (some (event_id, event)) w' ≡ (ok duplicate, w')
    handle_event-again event_id event now later w h =
        repeated event_id event later _ (handled event_id event now w h)
