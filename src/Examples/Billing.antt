-- ===== src/Examples/Billing.antt =====
-- The theorems on subscriptions, addresses, repeated requests and stored files at concrete inputs.
use devispropre.Base.{
  ℕ, ◌+◌, ◌≡◌, refl, true, false, Option, none, some, [], ◌∷◌, ◌++◌, arith, length, All,
  if◌then◌else◌,
}
use devispropre.Text.{Text, codes, text_eq}
use devispropre.Table.{find_first, update_many, count}
use devispropre.Accounts.{User, Team, starter}
use devispropre.World.{World}
use devispropre.World.Action.{ok, ◌>>=◌, Action, for_each, attempt, pure}
use devispropre.Stripe.{
  Prices, Subscription, Event, subscription_deleted, checkout_completed, should_downgrade_to_free,
  sync_user_plan_from_subscription, is_joined, process_stripe_webhook_event,
  downgrade_customer_to_free, suspend_pro_team_members,
}
use devispropre.Stripe.Webhook.{
  StripeClient, received, duplicate, failed, handle_event, claim_stripe_webhook_event,
  mark_stripe_webhook_event_processed,
}
use devispropre.Stripe.Downgraded.{keeps_some, sync-ended}
use devispropre.Stripe.Once.{handle_event-again}
use devispropre.Stripe.Retried.{handle_event-retried}
use devispropre.ShareSlug.{Kind, share_slug_exists, ensure_unique_share_slug}
use devispropre.ShareSlug.Found.{ensure_unique_share_slug-free}
use devispropre.Idempotency.{with_idempotency}
use devispropre.Idempotency.Replay.{with_idempotency-again}
use devispropre.ObjectStorage.{
  R2, Storage, PendingR2Upload, file, store_pdf, read_archived_pdf, upload_to_r2_with_retry,
  upload_from, remove_pending_r2_upload, sync_pending_r2_uploads, enqueue_pending_r2_upload,
}
use devispropre.ObjectStorage.Read.{stored_file, read_archived_pdf-store_pdf}
use devispropre.ObjectStorage.Outcome.{all_retried, all_buried, IsSent}
use devispropre.ObjectStorage.Queue.{
  IsRetryable, sync_pending_r2_uploads-counts, sync_pending_r2_uploads-lost,
}
use devispropre.Examples.Service.{user, world}

abbrev prices : Prices
prices = record { pro = codes "p2"; starter = codes "p1" }

abbrev own_id : Text → Text
own_id id = codes "t" ++ id

abbrev subscriber : User
subscriber = record user { plan = starter; stripe_customer_id = some (codes "cus1") }

abbrev team : Team
team = record { id = codes "t1"; owner_id = codes "u1"; max_members = 5 }

abbrev subscribed : World ℕ
subscribed = record world {
  users = subscriber ∷ [];
  teams = team ∷ [];
  members =
      record {
        id = codes "m1";
        team_id = codes "t1";
        user_id = some (codes "u2");
        email = codes "b@b.fr";
        active = true;
        invited_at = 1;
        accepted_at = some 2;
      }
      ∷ [];
}

abbrev canceled : Subscription
canceled = record { customer = codes "cus1"; status = codes "canceled"; price_id = none }

sync-ended_example :
    let w' = (sync_user_plan_from_subscription prices own_id canceled subscribed).1 in
    (find_first (keeps_some (codes "cus1")) w'.users ≡ none)
    × (find_first (is_joined (codes "t1")) w'.members ≡ none)
unfolding should_downgrade_to_free text_eq find_first
sync-ended_example = sync-ended prices own_id canceled subscriber team subscribed refl refl refl

abbrev stripe : StripeClient
stripe = record { configured = true; construct_event = λ body sig. none; retrieve = λ id. none }

first_delivery :
    (handle_event prices own_id stripe 5
      (some (codes "evt1", subscription_deleted canceled))
      subscribed).0
    ≡ ok received
unfolding handle_event claim_stripe_webhook_event mark_stripe_webhook_event_processed
    process_stripe_webhook_event downgrade_customer_to_free suspend_pro_team_members find_first
    update_many text_eq ◌>>=◌ for_each attempt
first_delivery = refl

handle_event-again_example :
    let event : Option (Text × Event) = some (codes "evt1", subscription_deleted canceled) in
    let w' = (handle_event prices own_id stripe 5 event subscribed).1 in
    handle_event prices own_id stripe 9 event w' ≡ (ok duplicate, w')
handle_event-again_example =
    handle_event-again prices own_id stripe (codes "evt1") (subscription_deleted canceled) 5 9
      subscribed first_delivery

-- Stripe does not answer when the subscription is asked for
abbrev checkout : Event
checkout = checkout_completed (record {
  client_reference_id = some (codes "u1");
  metadata_user_id = none;
  customer = none;
  subscription = some (codes "sub1");
})

failed_delivery :
    (handle_event prices own_id stripe 5 (some (codes "evt2", checkout)) subscribed).0 ≡ ok failed
unfolding handle_event claim_stripe_webhook_event process_stripe_webhook_event find_first text_eq
    ◌>>=◌ attempt
failed_delivery = refl

handle_event-retried_example :
    (claim_stripe_webhook_event
      (codes "evt2")
      (handle_event prices own_id stripe 5 (some (codes "evt2", checkout)) subscribed).1).0
    ≡ ok true
handle_event-retried_example =
    handle_event-retried prices own_id stripe (codes "evt2") checkout 5 subscribed failed_delivery

abbrev same : Text → Text
same s = s

abbrev sixteen : Text
sixteen = codes "0123456789abcdef"

-- a token of 64 digits
abbrev token : Text
token = sixteen ++ sixteen ++ sixteen ++ sixteen

ensure_unique_share_slug-free_example :
    (slug : Text) × (ensure_unique_share_slug same world 31 Kind.devis (codes "DEV-2026-0042") token
      ≡ some slug)
    × (share_slug_exists world slug ≡ false)
unfolding count
ensure_unique_share_slug-free_example =
    ensure_unique_share_slug-free same world Kind.devis (codes "DEV-2026-0042") token (omega arith)
      (omega arith)

abbrev answers : Text → Action ℕ (ℕ × Text)
answers body = pure (201, body)

with_idempotency-again_example :
    let w' =
      (with_idempotency (codes "u1") (some (codes "k")) 100 5 (answers (codes "a")) world).1 in
    with_idempotency (codes "u1") (some (codes "k")) 100 9 (answers (codes "b")) w'
    ≡ (ok (201, codes "a"), w')
unfolding with_idempotency find_first ◌>>=◌ pure
with_idempotency-again_example =
    with_idempotency-again (codes "u1") (codes "k") 5 9 100 100 (answers (codes "a"))
      (answers (codes "b")) world (201, codes "a") refl refl refl (omega arith)

-- the uploads of one key fail
abbrev r2 : R2
r2 = record {
  configured = true;
  readable = true;
  send = λ key attempt. if text_eq key (codes "k1") then some (codes "timeout") else none;
  deletes = λ key. true;
}

abbrev item : Text → ℕ → PendingR2Upload
item key n = record { key = key; fail_count = n; last_error = none; enqueued_at = 1 }

abbrev storage : Storage
storage = record {
  remote = [];
  local = (codes "k1", codes "one") ∷ (codes "k2", codes "two") ∷ [];
  pending = item (codes "k1") 0 ∷ item (codes "k2") 2 ∷ item (codes "k3") 1 ∷ [];
  dead = [];
}

abbrev after : Storage
after = record storage {
  remote = (codes "k4", codes "pdf") ∷ [];
  pending = item (codes "k1") 0 ∷ item (codes "k2") 2 ∷ item (codes "k3") 1 ∷ [];
}

stored : store_pdf r2 (codes "k4") (codes "pdf") 5 storage ≡ some after
unfolding store_pdf upload_from text_eq remove_pending_r2_upload
stored = refl

read_archived_pdf-store_pdf_example :
    read_archived_pdf r2 (codes "k4") after
    ≡ some
        (stored_file (upload_to_r2_with_retry r2 (codes "k4")) (codes "pdf") (file (codes "k4") []))
read_archived_pdf-store_pdf_example =
    read_archived_pdf-store_pdf r2 (codes "k4") (codes "pdf") 5 storage after stored

sync_pending_r2_uploads-counts_example :
    let (report, t) = sync_pending_r2_uploads r2 9 (λ t. t) storage in
    (report.synced + report.failed + report.dead_letter ≡ 3)
    × (length t.pending ≡ report.failed)
    × (length t.dead ≡ 0 + report.dead_letter)
    × All IsRetryable t.pending
    × (t.pending ≡ all_retried r2 9 storage.local storage.pending)
    × (t.dead ≡ storage.dead ++ all_buried r2 9 storage.local storage.pending)
    × (t.local ≡ storage.local)
    × All (IsSent r2 9 storage.local t.remote) storage.pending
sync_pending_r2_uploads-counts_example = sync_pending_r2_uploads-counts r2 9 storage refl

sync_pending_r2_uploads-lost_example :
    (sync_pending_r2_uploads r2 9
      (enqueue_pending_r2_upload (codes "k5") none 10)
      storage).1.pending
    ≡ (sync_pending_r2_uploads r2 9 (λ t. t) storage).1.pending
sync_pending_r2_uploads-lost_example =
    sync_pending_r2_uploads-lost r2 9 10 (codes "k5") none storage refl
