-- ===== src/Foreign.antt =====
-- What a request from another site does to the routes that change the state.
use devispropre.Base.{◌≡◌, refl, Bool, true, false, ◌&&◌, Option, some, []}
use devispropre.Text.{Text, truthy}
use devispropre.Platform.{Platform}
use devispropre.Accounts.{Error}
use devispropre.World.{World}
use devispropre.World.Action.{ok, err, attempt, ◌>>=◌}
use devispropre.Api.{
  Env, Request, is_mutation, is_allowed, is_same_origin, assert_mutation_security,
  handle_service_error, caught,
}
use devispropre.Team.{TeamInput, post_team, delete_team}
use devispropre.Password.{AuthInput, AuthBody, post_auth}
use devispropre.PublicDevis.{StatusBody, Outside, post_public_devis, post_otp}
use devispropre.GuestClaim.{ClaimInput, ClaimBody, post_claim, post_sign}

-- a request that would change the state, from a page of an origin that is not one of the program's
abbrev pub IsForeign : Env → Request → Text → Type 0
IsForeign env request origin =
    (is_mutation request.method ≡ true)
    × (truthy request.origin ≡ some origin)
    × (is_allowed env origin ≡ false)

and_false : (b : Bool) → (b && false) ≡ false
and_false true = refl
and_false false = refl

module _ (env : Env) (request : Request) (origin : Text)
    (foreign : IsForeign env request origin) where
  is_same_origin-foreign : is_same_origin env request ≡ false
  unfolding is_same_origin
  is_same_origin-foreign = let (_, sent, refused) = foreign in rw (sent, refused) (and_false _)

  -- A request that would change the state, and whose header names an origin that is not allowed, leaves
  -- the state as it is, whichever of these routes it is sent to: the decision on a quote, the code for it, the
  -- invitation and the removal of a member, registration and passwords, the signature and the claim of a
  -- draft. It is answered with 403, or the error goes through.
  pub mutations-foreign :
      {D : Type 0}
      → (p : Platform D) (w : World D) (ref id code member_id email : Text)
        (declared given : Option Text) (delivered : Bool) (o : Outside D) (body : StatusBody)
        (team_input : TeamInput D) (auth_body : AuthBody) (auth_input : AuthInput)
        (claim_input : ClaimInput D) (claim_body : ClaimBody D)
      → o.env ≡ env
      → auth_input.env ≡ env
      → claim_input.env ≡ env
      → (post_public_devis p o request ref body w ≡ (ok (403, []), w))
        × (post_otp p o request ref declared id code delivered w ≡ (ok (403, []), w))
        × (post_team p env team_input request email w ≡ (err Error.csrf, w))
        × (delete_team p env team_input request member_id w ≡ (err Error.csrf, w))
        × (post_auth p auth_input request auth_body w ≡ (err Error.csrf, w))
        × (post_sign p claim_input request given claim_body.draft w ≡ (err Error.csrf, w))
        × (post_claim p claim_input request claim_body w ≡ (ok (403, []), w))
  unfolding post_public_devis post_otp post_team delete_team post_auth post_sign post_claim caught
      attempt assert_mutation_security handle_service_error ◌>>=◌
  mutations-foreign p w ref id code member_id email declared given delivered o body team_input
        auth_body auth_input claim_input claim_body e1 e2 e3 =
      let (mutation, _, _) = foreign in
      rw (e1, e2, e3, mutation, is_same_origin-foreign) (refl, refl, refl, refl, refl, refl, refl)
