-- ===== src/Session/Limit.antt =====
-- A user has at most ten open sessions.
use devispropre.Base.{
  ℕ, suc, ◌+◌, ◌-◌, ◌≤◌, ◌≡◌, refl, sym, ap, ◌∙◌, Bool, true, false, ◌&&◌, List, [], ◌∷◌, ◌++◌, map,
  arith, ltb, take, keep, length, length-take, Bool-cases, inl, inr, Option-cases, zero, All,
  ltb→lt,
}
use devispropre.Text.{Text, text_eq_refl}
use devispropre.Table.{count, update_many, order_by, insert_by, count-append}
use devispropre.Accounts.{UserSession, Error}
use devispropre.World.{World}
use devispropre.World.Action.{Result, ok, err, ◌>>=◌}
use devispropre.Services.{find_user}
use devispropre.Session.{
  SessionMeta, is_open, revoke, has_id, make_room, max_active_sessions, new_session,
  create_user_session,
}

module _ {A : Type 0} where
  count-insert_by :
      (key : A → ℕ) (q : A → Bool) (x : A) (xs : List A)
      → count q (insert_by key x xs) ≡ count q (x ∷ xs)
  unfolding count insert_by
  count-insert_by key q x [] = refl
  count-insert_by key q x (y ∷ ys) = ground (arith, count-insert_by key q x ys)

  count-order_by :
      (key : A → ℕ) (q : A → Bool) (xs : List A) → count q (order_by key xs) ≡ count q xs
  unfolding count order_by
  count-order_by key q [] = refl
  count-order_by key q (x ∷ xs) =
      ground (arith, count-insert_by key q x (order_by key xs), count-order_by key q xs)

  count-keep : (p q : A → Bool) (xs : List A) → count q (keep p xs) ≡ count (λ x. p x && q x) xs
  unfolding count
  count-keep p q [] = refl
  count-keep p q (x ∷ xs) = ground (arith, count-keep p q xs)

  length-keep : (p : A → Bool) (xs : List A) → length (keep p xs) ≡ count p xs
  unfolding count
  length-keep p [] = refl
  length-keep p (x ∷ xs) = ground (arith, length-keep p xs)

  length-count : (xs : List A) → length xs ≡ count (λ x. true) xs
  unfolding count
  length-count [] = refl
  length-count (x ∷ xs) = ap suc (length-count xs)

  -- A change by which a row no longer passes.
  count-update_many_drop :
      (q p : A → Bool) (f : A → A) (xs : List A)
      → ((x : A) → q (f x) ≡ false)
      → count q (update_many p f xs) + count (λ x. q x && p x) xs ≡ count q xs
  unfolding count update_many
  count-update_many_drop q p f [] h = refl
  count-update_many_drop q p f (x ∷ xs) h = ground (arith, h x, count-update_many_drop q p f xs h)

  length-take_le_count :
      (q : A → Bool) (k : ℕ) (xs : List A)
      → All (λ x. q x ≡ true) (take k xs)
      → length (take k xs) ≤ count q xs
  unfolding count
  length-take_le_count q zero xs h = omega arith
  length-take_le_count q (suc k) [] h = omega arith
  length-take_le_count q (suc k) (x ∷ xs) (e, h) =
      rw e (omega (arith, length-take_le_count q k xs h))

count_le :
    (p q : UserSession → Bool) (xs : List UserSession)
    → ((s : UserSession) → p s ≡ true → q s ≡ true)
    → count p xs ≤ count q xs
unfolding count
count_le p q [] h = omega arith
count_le p q (x ∷ xs) h = ground (arith, h x, count_le p q xs h)

has_id-cons :
    (id : Text) (ids : List Text) (ys : List UserSession)
    → All (λ s. has_id ids s ≡ true) ys
    → All (λ s. has_id (id ∷ ids) s ≡ true) ys
has_id-cons id ids [] h = tt
has_id-cons id ids (y ∷ ys) (e, h) = (ground (arith, e), has_id-cons id ids ys h)

own_ids : (ys : List UserSession) → All (λ s. has_id (map (λ s. s.id) ys) s ≡ true) ys
own_ids [] = tt
own_ids (y ∷ ys) =
    (rw (text_eq_refl y.id) refl, has_id-cons y.id (map (λ s. s.id) ys) ys (own_ids ys))

revoked_closed :
    (user_id : Text) (now later : ℕ) (s : UserSession)
    → is_open user_id later (revoke now s) ≡ false
revoked_closed user_id now later s = ground arith

not_lt : (n : ℕ) → ltb max_active_sessions (n + 1) ≡ false → n ≤ 9
not_lt n h = ground arith

make_room-count :
    (user_id : Text) (now : ℕ) (table : List UserSession)
    → count (is_open user_id now) (make_room user_id now table) ≤ 9
unfolding make_room
make_room-count user_id now table =
    let open_ = is_open user_id now in
    let active = order_by (λ s. s.created_at) (keep open_ table) in
    let k = length active + 1 - max_active_sessions in
    let ids = map (λ s. s.id) (take k active) in
    let total : length active ≡ count open_ table =
      length-count active
      ∙ count-order_by (λ s. s.created_at) (λ s. true) (keep open_ table)
      ∙ sym (length-count (keep open_ table))
      ∙ length-keep open_ table in
    let dropped : count (λ s. open_ s && has_id ids s) table ≡ count (has_id ids) active =
      sym (count-keep open_ (has_id ids) table)
      ∙ sym (count-order_by (λ s. s.created_at) (has_id ids) (keep open_ table)) in
    let enough = length-take_le_count (has_id ids) k active (own_ids (take k active)) in
    let left =
      count-update_many_drop open_ (has_id ids) (revoke now) table
        (revoked_closed user_id now now) in
    elim (Bool-cases (ltb max_active_sessions (length active + 1))) [
      | inl full ↦ rw full (
          omega (
            arith,
            total,
            dropped,
            enough,
            left,
            length-take k active,
            ltb→lt max_active_sessions (length active + 1) full,
          ))
      | inr room ↦ rw room (omega (arith, total, not_lt (length active) room))
    ]

err_no_ok : (e : Error) (r : Text × ℕ) → ◌≡◌ {A = Result (Text × ℕ)} (err e) (ok r) → ⊥
err_no_ok e r h = cc

open_later :
    (user_id : Text) (now later : ℕ) (s : UserSession)
    → now ≤ later
    → is_open user_id later s ≡ true
    → is_open user_id now s ≡ true
open_later user_id now later s h e = ground (arith, h, e)

one_more :
    (user_id id : Text) (meta : SessionMeta) (now later : ℕ) (table : List UserSession)
    → now ≤ later
    → count
        (is_open user_id later)
        (make_room user_id now table ++ new_session id user_id meta now ∷ [])
      ≤ max_active_sessions
unfolding count
one_more user_id id meta now later table h =
    let room = make_room-count user_id now table in
    let fewer =
      count_le (is_open user_id later) (is_open user_id now) (make_room user_id now table)
        (λ s e. open_later user_id now later s h e) in
    let split =
      count-append (is_open user_id later) (make_room user_id now table)
        (new_session id user_id meta now ∷ []) in
    rw split (elim (Bool-cases (is_open user_id later (new_session id user_id meta now))) [
      | inl e ↦ rw e (omega (arith, room, fewer))
      | inr e ↦ rw e (omega (arith, room, fewer))
    ])

-- After a session is created the user has at most ten open sessions, whatever sessions there were:
-- at that time and at any later time, until another is created.
pub create_user_session-bound :
    {D : Type 0} (user_id id : Text) (meta : SessionMeta) (now later : ℕ) (w : World D)
    (r : Text × ℕ)
    → (create_user_session user_id meta id now w).0 ≡ ok r
    → now ≤ later
    → count (is_open user_id later) (create_user_session user_id meta id now w).1.sessions
      ≤ max_active_sessions
unfolding create_user_session ◌>>=◌
create_user_session-bound user_id id meta now later w r done h =
    elim (Option-cases (find_user user_id w)) [
      | inl missing ↦ absurd (err_no_ok Error.error r (rw missing at done))
      | inr (u, found) ↦ rw found (one_more user_id id meta now later _ h)
    ]
