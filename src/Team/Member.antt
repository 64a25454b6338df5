-- ===== src/Team/Member.antt =====
-- The row of an invited member, within the seats of the team.
use devispropre.Base.{
  ℕ, suc, ◌≤◌, ◌<◌, ◌==◌, ◌≡◌, refl, Bool, true, false, Option, none, some, List, [], ◌∷◌, ◌++◌,
  inl, inr, arith, Bool-cases, Option-cases,
}
use devispropre.Text.{Text, text_eq, text_eq_refl}
use devispropre.Table.{
  find_first, find_first_passes, find_first-count, count, count-append, count-update_many,
}
use devispropre.Platform.{Platform}
use devispropre.Accounts.{User, Team, TeamMember, Error}
use devispropre.Audit.{AuditContext, AuditParams}
use devispropre.World.{World}
use devispropre.World.Action.{Result, ok, err, ◌>>=◌}
use devispropre.World.Action.Keeps.{
  Keeps, Keeps-modify, Keeps-pure, Keeps-gets, Keeps-bind, Keeps-if, Keeps-raise_if,
}
use devispropre.Services.{log}
use devispropre.Team.{
  TeamInput, is_owned_by, is_in, is_invited, is_taken, new_member, activate, upsert_member,
  activate_member,
}

refused : {A : Type 0} (e : Error) (a : A) → ◌≡◌ {A = Result A} (err e) (ok a) → ⊥
refused e a h = cc

one_more :
    {A : Type 0} (p : A → Bool) (xs : List A) (x : A)
    → p x ≡ true
    → count p (xs ++ x ∷ []) ≡ suc (count p xs)
unfolding count
one_more p xs x h = ground (arith, count-append p xs (x ∷ []), h)

module _ {D : Type 0} where
  -- the team that is its owner's, with the invited address in it and within its seats
  abbrev pub IsSeated : Text → Team → World D → Type 0
  IsSeated email team w =
      (find_first (is_owned_by team.owner_id) w.teams ≡ some team)
      × ((count (is_invited team.id email) w.members == 0) ≡ false)
      × (count (is_in team.id) w.members ≤ team.max_members)

  pub upsert-IsSeated :
      (input : TeamInput D) (email : Text) (team : Team) (existing : Option User) (w : World D)
      (m : TeamMember)
      → find_first (is_owned_by team.owner_id) w.teams ≡ some team
      → count (is_in team.id) w.members < team.max_members
      → (upsert_member input team.id email existing
          (find_first (is_invited team.id email) w.members)
          w).0
        ≡ ok m
      → IsSeated email team
          (upsert_member input team.id email existing
            (find_first (is_invited team.id email) w.members)
            w).1
  unfolding ◌>>=◌
  upsert-IsSeated input email team existing w m owned room h =
      elim (Option-cases (find_first (is_invited team.id email) w.members)) [
        | inr (row, found) ↦ rw found (
          owned,
          find_first-count (is_invited team.id email) (is_invited team.id email) w.members row found
              (find_first_passes (is_invited team.id email) w.members row found),
          omega (arith, room),
        )
        | inl new ↦ elim (Bool-cases (is_taken existing w)) [
          | inl taken ↦ absurd (refused Error.error m (rw (new, taken) at h))
          | inr free ↦
              rw (new, free)
                (
                  owned,
                  rw
                      (one_more (is_invited team.id email) w.members
                        (new_member input team.id email existing)
                        (rw (text_eq_refl team.id, text_eq_refl email) refl))
                      (ground arith),
                  rw
                      (one_more (is_in team.id) w.members (new_member input team.id email existing)
                        (text_eq_refl team.id))
                      (omega (arith, room)),
                )
        ]
      ]

  pub Keeps-activate :
      (email : Text) (team : Team) (now : ℕ) (m : TeamMember) (existing : Option User)
      → Keeps (IsSeated email team) (activate_member now m existing)
  Keeps-activate email team now m none = Keeps-pure tt
  Keeps-activate email team now m (some u) = Keeps-if m.active _ _ (Keeps-pure tt) (
      Keeps-bind _ _ (Keeps-gets _) (λ taken. Keeps-bind _ _ (Keeps-raise_if _ _) (λ _.
        Keeps-modify _ (λ w (owned, there, room). (
          owned,
          rw
              (count-update_many (is_invited team.id email) (λ r. text_eq r.id m.id)
                (activate u.id now) w.members (λ r _. refl))
              there,
          rw
              (count-update_many (is_in team.id) (λ r. text_eq r.id m.id) (activate u.id now)
                w.members (λ r _. refl))
              room,
        )))))

  pub Keeps-log :
      (p : Platform D) (email : Text) (team : Team) (ctx : AuditContext) (params : AuditParams D)
      (now : ℕ)
      → Keeps (IsSeated email team) (log p ctx params now)
  unfolding log
  Keeps-log p email team ctx params now = Keeps-modify _ (λ w seated. seated)
