-- ===== src/Team/Seats.antt =====
-- The seats of a team.
use devispropre.Base.{
  ◌<◌, ◌≡◌, refl, ◌∙◌, false, Option, some, [], ◌∷◌, ◌++◌, ◌⊎◌, inl, inr, arith, Bool-cases,
  Option-cases, leb, subst, sym,
}
use devispropre.Text.{Text, text_eq, text_eq_refl, text_eq_sound}
use devispropre.Table.{find_first, find_first_passes, find_first-append_new, count}
use devispropre.Platform.{Platform}
use devispropre.Accounts.{User, Team}
use devispropre.World.{World}
use devispropre.World.Action.{ok, pure, raise_if, ◌>>=◌}
use devispropre.World.Action.Inversion.{of_ok}
use devispropre.World.Action.Keeps.{Keeps-pure, Keeps-bind, Keeps-raise_if}
use devispropre.Api.{Env, Request, Reply, Auth, assert_mutation_security, require_auth, limit_calls}
use devispropre.Api.Keeps.{after}
use devispropre.Api.Caught.{caught-ok, require_auth-refused, require_auth-sub, same_status}
use devispropre.Session.{Payload}
use devispropre.Team.Member.{IsSeated, upsert-IsSeated, Keeps-activate, Keeps-log}
use devispropre.Team.{
  TeamInput, is_owned_by, is_in, is_invited, ensure_pro_team, upsert_member, activate_member,
  add_found, is_member, admit, invite_other, invite, signed_in, post_team,
}

module _ {D : Type 0} where
  module _ (p : Platform D) (env : Env) (input : TeamInput D) where
    add_found-IsSeated :
        (request : Request) (auth : Auth) (email : Text) (team : Team) (existing : Option User)
        (w : World D) (a : Reply)
        → find_first (is_owned_by team.owner_id) w.teams ≡ some team
        → count (is_in team.id) w.members < team.max_members
        → (add_found p env input request auth team.id email existing
            (find_first (is_invited team.id email) w.members)
            w).0
          ≡ ok a
        → IsSeated email team
            (add_found p env input request auth team.id email existing
              (find_first (is_invited team.id email) w.members)
              w).1
    add_found-IsSeated request auth email team existing w a owned room h =
        after
          (upsert_member input team.id email existing
            (find_first (is_invited team.id email) w.members))
          _ w a (IsSeated email team) h
          (λ m done _.
            (Keeps-bind (activate_member input.now m existing) _
                (Keeps-activate email team input.now m existing)
                (λ _.
                  Keeps-bind _ _ (Keeps-raise_if _ _)
                    (λ _. Keeps-bind _ _ (Keeps-log p email team _ _ _) (λ _. Keeps-pure _)))).at
              _ (upsert-IsSeated input email team existing w m owned room done))

    -- what runs while the row waits leaves the members and the teams as they are
    abbrev Quiet : Type 0
    Quiet =
        (w : World D) → ((input.others w).members ≡ w.members) × ((input.others w).teams ≡ w.teams)

    admit-IsSeated :
        (request : Request) (auth : Auth) (email : Text) (team : Team) (w : World D) (a : Reply)
        → Quiet
        → a.0 ≡ 201
        → find_first (is_owned_by team.owner_id) w.teams ≡ some team
        → (admit p env input request auth email team w).0 ≡ ok a
        → IsSeated email team (admit p env input request auth email team w).1
    unfolding ◌>>=◌
    admit-IsSeated request auth email team w a quiet status owned h =
        elim (Bool-cases (leb team.max_members (count (is_in team.id) w.members))) [
          | inl full ↦ absurd (ground (arith, status, same_status (rw full at h)))
          | inr room ↦
              elim (Bool-cases
                (is_member team.id (find_first (λ u. text_eq u.email email) w.users) w)) [
                  | inl already ↦
                      absurd (ground (arith, status, same_status (rw (room, already) at h)))
                  | inr absent ↦
                      rw (room, absent)
                        (add_found-IsSeated request auth email team _ (input.others w) a
                          (rw ((quiet w).1) owned) (rw ((quiet w).0) (ground (arith, room)))
                          (rw (room, absent) at h))
                ]
        ]

    ensure_pro_team-owned :
        (owner_id id : Text) (w : World D) (team : Team)
        → (ensure_pro_team owner_id id w).0 ≡ ok team
        → (find_first (is_owned_by team.owner_id) (ensure_pro_team owner_id id w).1.teams
            ≡ some team)
          × (team.owner_id ≡ owner_id)
    unfolding ensure_pro_team ◌>>=◌
    ensure_pro_team-owned owner_id id w team h =
        elim (Option-cases (find_first (is_owned_by owner_id) w.teams)) [
          | inl new ↦
              let row : Team = record { id = id; owner_id = owner_id; max_members = 5 } in
              let here =
                find_first-append_new (is_owned_by owner_id) w.teams row new
                  (text_eq_refl owner_id) in
              rw new (
                subst
                  (λ t.
                    (find_first (is_owned_by t.owner_id) (w.teams ++ row ∷ []) ≡ some t)
                    × (t.owner_id ≡ owner_id))
                  (of_ok row team (rw new at h)) (here, refl))
          | inr (t, found) ↦
              let mine =
                text_eq_sound t.owner_id owner_id
                  (find_first_passes (is_owned_by owner_id) w.teams t found) in
              rw found (
                subst
                  (λ x.
                    (find_first (is_owned_by x.owner_id) w.teams ≡ some x)
                    × (x.owner_id ≡ owner_id))
                  (of_ok t team (rw found at h))
                  (subst (λ o. find_first (is_owned_by o) w.teams ≡ some t) (sym mine) found, mine))
        ]

    -- a team of this owner, with the address in it
    Seated : Text → Text → World D → Type 0
    Seated owner_id email w = (team : Team) × (team.owner_id ≡ owner_id) × IsSeated email team w

    invite_other-IsSeated :
        (request : Request) (email : Text) (auth : Auth) (w : World D) (a : Reply)
        → Quiet
        → a.0 ≡ 201
        → (invite_other p env input request email auth w).0 ≡ ok a
        → Seated auth.user.id (env.lower email) (invite_other p env input request email auth w).1
    unfolding pure Seated
    invite_other-IsSeated request email auth w a quiet status h =
        elim (Bool-cases (text_eq (env.lower email) (env.lower auth.user.email))) [
          | inl self ↦ absurd (ground (arith, status, same_status (rw self at h)))
          | inr others ↦ rw others (
              after (ensure_pro_team auth.user.id input.team_id)
                (admit p env input request auth (env.lower email)) w a
                (Seated auth.user.id (env.lower email)) (rw others at h)
                (λ team made h'.
                  let (found, mine) =
                    ensure_pro_team-owned auth.user.id input.team_id w team made in
                  (
                    team,
                    mine,
                    admit-IsSeated request auth (env.lower email) team _ a quiet status found h',
                  )))
        ]

    invite-IsSeated :
        (request : Request) (email : Text) (auth : Auth) (w : World D) (a : Reply)
        → Quiet
        → a.0 ≡ 201
        → (invite p env input request email auth w).0 ≡ ok a
        → Seated auth.user.id (env.lower email) (invite p env input request email auth w).1
    unfolding invite Seated
    invite-IsSeated request email auth w a quiet status h =
        let Q = Seated auth.user.id (env.lower email) in
        after (raise_if _ _) _ w a Q h (λ _ _ h1. after (raise_if _ _) _ _ a Q h1 (λ _ _ h2.
          after (limit_calls _ _ _) _ _ a Q h2
            (λ _ _ h3. invite_other-IsSeated request email auth _ a quiet status h3)))

    -- a team of the user of the cookie, with the address in it
    InvitedBy : Option Payload → Text → World D → Type 0
    InvitedBy cookie email w =
        (payload : Payload) × (team : Team) × (cookie ≡ some payload)
        × (team.owner_id ≡ payload.sub)
        × IsSeated email team w

    signed_in-IsSeated :
        (request : Request) (email : Text) (auth : Auth ⊎ Reply) (w w' : World D) (a : Reply)
        → Quiet
        → a.0 ≡ 201
        → (require_auth false request input.now w).0 ≡ ok auth
        → (signed_in p env input (invite p env input request email) auth w').0 ≡ ok a
        → InvitedBy request.cookie
            (env.lower email)
            (signed_in p env input (invite p env input request email) auth w').1
    unfolding pure Seated InvitedBy
    signed_in-IsSeated request email (inl auth) w w' a quiet status known h =
        let (done, same) =
          caught-ok [] (invite p env input request email auth) w' a (omega (arith, status)) h in
        let (payload, shown, mine) = require_auth-sub false request input.now w auth known in
        let (team, owner, seated) = invite-IsSeated request email auth w' a quiet status done in
        (payload, team, shown, owner ∙ mine, rw same seated)
    signed_in-IsSeated request email (inr reply) w w' a quiet status known h = absurd (
        ground (
          arith,
          status,
          same_status h,
          require_auth-refused false request input.now w reply known,
        ))

    -- An invitation that is answered with 201 leaves a team that belongs to the user of the session's
    -- cookie, in which the invited address is, and in which there are no more members and invitations
    -- than it has seats: provided that what other requests do between the count and the new row
    -- leaves the members and the teams as they are.
    pub post_team-within_seats :
        (request : Request) (email : Text) (w : World D) (a : Reply)
        → ((v : World D)
            → ((input.others v).members ≡ v.members) × ((input.others v).teams ≡ v.teams))
        → a.0 ≡ 201
        → (post_team p env input request email w).0 ≡ ok a
        → (payload : Payload) × (team : Team) × (request.cookie ≡ some payload)
          × (team.owner_id ≡ payload.sub)
          × IsSeated (env.lower email) team (post_team p env input request email w).1
    unfolding post_team InvitedBy
    post_team-within_seats request email w a quiet status h =
        let Q = InvitedBy request.cookie (env.lower email) in
        after (assert_mutation_security env request) _ w a Q h (λ _ _ h1.
          after (require_auth false request input.now) _ _ a Q h1
            (λ auth known h2. signed_in-IsSeated request email auth _ _ a quiet status known h2))
