-- ===== src/Idempotency.antt =====
-- src/lib/idempotency.ts: a request that bears a key is carried out once, and answered again from
-- what was stored.
pub mod Replay
use devispropre.Base.{
  ℕ, ◌+◌, Bool, ◌&&◌, ◌||◌, Option, none, some, List, [], ◌∷◌, ◌++◌, ltb, length, if◌then◌else◌,
  is_some,
}
use devispropre.Text.{Text, text_eq, trim, is_empty, truthy}
use devispropre.Table.{find_first, update_many}
use devispropre.Accounts.{IdempotencyRecord}
use devispropre.World.{World}
use devispropre.World.Action.{Action, gets, pure, ◌>>=◌, ◌>>◌, modify}

abbrev pub default_ttl_ms : ℕ
default_ttl_ms = 86400000

-- The characters of a header are of one unit each.
unfoldable pub read_idempotency_key : Option Text → Option Text
read_idempotency_key none = none
read_idempotency_key (some header) =
    let raw = trim header in if is_empty raw || ltb 128 (length raw) then none else some raw

-- `{ userId_key: { userId, key } }`
abbrev pub is_record : Text → Text → IdempotencyRecord → Bool
is_record user_id key r = text_eq r.user_id user_id && text_eq r.key key

abbrev pub store : ℕ → Text → ℕ → IdempotencyRecord → IdempotencyRecord
store status body expires_at r = record r { status = status; body = body; expires_at = expires_at }

-- `upsert`
abbrev pub upsert :
    Text
    → Text
    → ℕ
    → Text
    → ℕ
    → List IdempotencyRecord
    → Option IdempotencyRecord
    → List IdempotencyRecord
upsert user_id key status body expires_at table none =
    table
    ++ record {
      user_id = user_id;
      key = key;
      status = status;
      body = body;
      expires_at = expires_at;
    }
      ∷ []
upsert user_id key status body expires_at table (some _) =
    update_many (is_record user_id key) (store status body expires_at) table

module _ {D : Type 0} where
  abbrev pub find_record : Text → Text → World D → Option IdempotencyRecord
  find_record user_id key w = find_first (is_record user_id key) w.idempotency

  -- the handler, and its answer stored; what the handler writes is not undone with the transaction
  abbrev pub run_and_store : Text → Text → ℕ → Action D (ℕ × Text) → Action D (ℕ × Text)
  run_and_store user_id key expires_at handler = do
    (status, body) ← handler
    modify (λ w. record w {
      idempotency =
          upsert user_id key status body expires_at w.idempotency (find_record user_id key w);
    })
    pure (status, body)

  abbrev pub replay :
      Text → Text → ℕ → ℕ → Action D (ℕ × Text) → Option IdempotencyRecord → Action D (ℕ × Text)
  replay user_id key ttl now handler none = run_and_store user_id key (now + ttl) handler
  replay user_id key ttl now handler (some r) =
      if ltb now r.expires_at
      then pure (r.status, r.body)
      else run_and_store user_id key (now + ttl) handler

  abbrev pub with_key : Text → Option Text → ℕ → ℕ → Action D (ℕ × Text) → Action D (ℕ × Text)
  with_key user_id none ttl now handler = handler
  with_key user_id (some key) ttl now handler = do
    existing ← gets (find_record user_id key)
    replay user_id key ttl now handler existing

  -- The lock of the key makes the requests with one key follow each other.
  unfoldable pub with_idempotency :
      Text → Option Text → ℕ → ℕ → Action D (ℕ × Text) → Action D (ℕ × Text)
  with_idempotency user_id key ttl now handler = with_key user_id (truthy key) ttl now handler
