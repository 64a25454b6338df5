-- ===== src/Idempotency/Replay.antt =====
-- A request that is sent again is not carried out again.
use devispropre.Base.{
  ℕ, ◌+◌, ◌<◌, ◌≡◌, refl, Bool, false, some, List, ltb, holds_on, Option-cases, inl, inr, subst,
  lt→ltb,
}
use devispropre.Text.{Text, text_eq_refl, is_empty}
use devispropre.Table.{find_first, find_first-update_many, find_first_passes, find_first-append_new}
use devispropre.Accounts.{IdempotencyRecord}
use devispropre.World.{World}
use devispropre.World.Action.{ok, Action, ◌>>=◌}
use devispropre.World.Action.Inversion.{bind_ok, of_ok}
use devispropre.Idempotency.{is_record, store, upsert, find_record, run_and_store, with_idempotency}

-- no answer is stored that still holds at this time
abbrev pub has_answer : {D : Type 0} → Text → Text → ℕ → World D → Bool
has_answer user_id key now w = holds_on (λ r. ltb now r.expires_at) (find_record user_id key w)

upsert-find :
    (user_id key : Text) (status : ℕ) (body : Text) (expires_at : ℕ)
    (table : List IdempotencyRecord)
    → (r : IdempotencyRecord) × (find_first (is_record user_id key) (
          upsert user_id key status body expires_at table
            (find_first (is_record user_id key) table))
        ≡ some r)
      × (r.status ≡ status)
      × (r.body ≡ body)
      × (r.expires_at ≡ expires_at)
upsert-find user_id key status body expires_at table =
    elim (Option-cases (find_first (is_record user_id key) table)) [
      | inl new ↦
          let row : IdempotencyRecord = record {
            user_id = user_id;
            key = key;
            status = status;
            body = body;
            expires_at = expires_at;
          } in
          rw new (
            row,
            find_first-append_new (is_record user_id key) table row new
                (rw (text_eq_refl user_id, text_eq_refl key) refl),
            refl,
            refl,
            refl,
          )
      | inr (r, found) ↦
          let mine = find_first_passes (is_record user_id key) table r found in
          let changed =
            find_first-update_many (is_record user_id key) (is_record user_id key)
              (store status body expires_at) table (λ x h. refl) in
          rw found (store status body expires_at r, rw (found, mine) at changed, refl, refl, refl)
    ]

module _ {D : Type 0} (user_id key : Text) where
  -- what a replay finds
  abbrev IsStored : ℕ × Text → ℕ → World D → Type 0
  IsStored (status, body) expires_at w =
      (r : IdempotencyRecord) × (find_record user_id key w ≡ some r)
      × (r.status ≡ status)
      × (r.body ≡ body)
      × (r.expires_at ≡ expires_at)

  stored :
      (expires_at : ℕ) (handler : Action D (ℕ × Text)) (w : World D) (answer : ℕ × Text)
      → (run_and_store user_id key expires_at handler w).0 ≡ ok answer
      → IsStored answer expires_at (run_and_store user_id key expires_at handler w).1
  unfolding ◌>>=◌
  stored expires_at handler w answer done =
      let (given, _, same) = bind_ok handler _ w answer done in
      let here : given ≡ answer = of_ok given answer (rw same at done) in
      let w1 = (handler w).1 in
      let put = upsert-find user_id key given.0 given.1 expires_at w1.idempotency in
      rw same (
        subst
          (λ a. IsStored a expires_at (record w1 {
            idempotency =
                upsert user_id key given.0 given.1 expires_at w1.idempotency
                  (find_record user_id key w1);
          }))
          here put)

  replayed :
      (expires_at later ttl : ℕ) (handler : Action D (ℕ × Text)) (w : World D) (answer : ℕ × Text)
      → IsStored answer expires_at w
      → later < expires_at
      → is_empty key ≡ false
      → with_idempotency user_id (some key) ttl later handler w ≡ (ok answer, w)
  unfolding with_idempotency ◌>>=◌
  replayed expires_at later ttl handler w (status, body) (r, found, s, b, e) soon given =
      rw (given, found, e, lt→ltb later expires_at soon, s, b) refl

  first_stored :
      (now ttl : ℕ) (handler : Action D (ℕ × Text)) (w : World D) (answer : ℕ × Text)
      → is_empty key ≡ false
      → has_answer user_id key now w ≡ false
      → (with_idempotency user_id (some key) ttl now handler w).0 ≡ ok answer
      → IsStored answer (now + ttl) (with_idempotency user_id (some key) ttl now handler w).1
  unfolding with_idempotency ◌>>=◌
  first_stored now ttl handler w answer given fresh done =
      elim (Option-cases (find_record user_id key w)) [
        | inl new ↦ rw (given, new) (stored (now + ttl) handler w answer (rw (given, new) at done))
        | inr (r, found) ↦
            let old : ltb now r.expires_at ≡ false = rw found at fresh in
            rw (given, found, old)
              (stored (now + ttl) handler w answer (rw (given, found, old) at done))
      ]

  -- While an answer is stored, the same request is answered with it and changes nothing, whatever its
  -- handler would do: that answer is the one that its first handler gave, where none was stored before.
  pub with_idempotency-again :
      (now later ttl ttl' : ℕ) (handler other : Action D (ℕ × Text)) (w : World D)
      (answer : ℕ × Text)
      → is_empty key ≡ false
      → has_answer user_id key now w ≡ false
      → (with_idempotency user_id (some key) ttl now handler w).0 ≡ ok answer
      → later < now + ttl
      → let w' = (with_idempotency user_id (some key) ttl now handler w).1 in
        with_idempotency user_id (some key) ttl' later other w' ≡ (ok answer, w')
  with_idempotency-again now later ttl ttl' handler other w answer given fresh done soon =
      replayed (now + ttl) later ttl' other _ answer
        (first_stored now ttl handler w answer given fresh done) soon given
