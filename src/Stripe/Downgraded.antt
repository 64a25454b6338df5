-- ===== src/Stripe/Downgraded.antt =====
-- What a lost subscription takes away.
use devispropre.Base.{
  ◌≡◌, refl, Bool, true, false, not, ◌&&◌, ◌||◌, Option, none, some, List, ◌∷◌, keep, arith,
}
use devispropre.Text.{Text, text_eq}
use devispropre.Table.{
  find_first, update_many, find_first-delete_many, find_first-keep-none, keep-find_first,
}
use devispropre.Accounts.{Plan, free, User, Team, TeamMember}
use devispropre.World.{World}
use devispropre.World.Action.{◌>>=◌, for_each}
use devispropre.World.Action.Keeps.{
  Keeps, Keeps-modify, Keeps-pure, Keeps-bind, Keeps-gets, Keeps-for_each,
}
use devispropre.Session.Revoked.{find_first-update_many-none}
use devispropre.Stripe.{
  Prices, Subscription, has_customer, lose_plan, should_downgrade_to_free, is_joined, suspend,
  suspend_pro_team_members, downgrade_customer_to_free, sync_user_plan_from_subscription,
}

abbrev pub is_free : Plan → Bool
is_free free = true
is_free _ = false

-- a user of the customer with something of a subscription left
abbrev pub keeps_some : Text → User → Bool
keeps_some customer u = has_customer customer u && (not (is_free u.plan) || u.subscription_past_due)

module _ {D : Type 0} {P : World D → Type 0}
    (drop : (w : World D) (q : TeamMember → Bool)
      → P w
      → P (record w { members = keep q w.members })) where
  Keeps-suspend : (team : Option Team) → Keeps P (suspend team)
  Keeps-suspend none = Keeps-pure tt
  Keeps-suspend (some t) = Keeps-modify _ (λ w. drop w _)

  pub Keeps-suspend_pro : (owner_id : Text) → Keeps P (suspend_pro_team_members owner_id)
  unfolding suspend_pro_team_members
  Keeps-suspend_pro owner_id = Keeps-bind _ _ (Keeps-gets _) Keeps-suspend

  Keeps-suspend_all :
      (users : List User) → Keeps P (for_each (λ u. suspend_pro_team_members u.id) users)
  Keeps-suspend_all users = Keeps-for_each _ users (λ u. Keeps-suspend_pro u.id)

has_customer-lost : (customer : Text) (u : User) → keeps_some customer (lose_plan u) ≡ false
has_customer-lost customer u = ground arith

has_customer-none :
    (customer : Text) (u : User) → has_customer customer u ≡ false → keeps_some customer u ≡ false
has_customer-none customer u h = rw h refl

none_left :
    (customer : Text) (users : List User)
    → find_first (keeps_some customer) (update_many (has_customer customer) lose_plan users) ≡ none
none_left customer users =
    find_first-update_many-none (keeps_some customer) (has_customer customer) lose_plan users
      (λ u e. has_customer-lost customer u) (has_customer-none customer)

module _ {D : Type 0} where
  suspended :
      (u : User) (rest : List User) (t : Team) (w : World D)
      → find_first (λ x. text_eq x.owner_id u.id) w.teams ≡ some t
      → find_first
          (is_joined t.id)
          (for_each (λ v. suspend_pro_team_members v.id) (u ∷ rest) w).1.members
        ≡ none
  unfolding for_each suspend_pro_team_members ◌>>=◌
  suspended u rest t w found = rw found (
      (Keeps-suspend_all (λ w' q h. find_first-keep-none (is_joined t.id) q w'.members h) rest).at _
        (find_first-delete_many (is_joined t.id) w.members))

  -- After Stripe ends a subscription, no user of the customer has a paid plan or a payment that is
  -- due, and the user's team has no member that has joined.
  pub sync-ended :
      (prices : Prices) (new_id : Text → Text) (s : Subscription) (u : User) (t : Team)
      (w : World D)
      → should_downgrade_to_free s.status ≡ true
      → find_first (has_customer s.customer) w.users ≡ some u
      → find_first (λ x. text_eq x.owner_id u.id) w.teams ≡ some t
      → let w' = (sync_user_plan_from_subscription prices new_id s w).1 in
        (find_first (keeps_some s.customer) w'.users ≡ none)
        × (find_first (is_joined t.id) w'.members ≡ none)
  unfolding sync_user_plan_from_subscription downgrade_customer_to_free ◌>>=◌
  sync-ended prices new_id s u t w ended found team =
      let (rest, users) = keep-find_first (has_customer s.customer) w.users u found in
      let us = update_many (has_customer s.customer) lose_plan w.users in
      let kept =
        (Keeps-suspend_all {P = λ w'. w'.users ≡ us} (λ w' q h. h) (u ∷ rest)).at
          (record w { users = us }) refl in
      rw (ended, users)
        (rw kept (none_left s.customer w.users), suspended u rest t (record w { users = us }) team)
