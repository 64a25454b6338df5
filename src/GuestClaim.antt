-- ===== src/GuestClaim.antt =====
-- src/lib/guest-draft-claim.ts, and the routes src/app/api/devis/guest-draft/sign/route.ts and
-- claim-draft/route.ts: the server signs the draft of a guest, who claims it once there is an account.
use devispropre.Base.{
  ℕ, ◌-◌, Bool, true, false, not, ◌&&◌, Option, none, some, List, [], ◌∷◌, ◌++◌, if◌then◌else◌, leb,
  or_else, ◌⊎◌, inl, inr,
}
use devispropre.Text.{Text, codes, text_eq, truthy, is_empty}
use devispropre.Platform.{Platform}
use devispropre.Json.{
  Value, Items, Fields, bool, num, str, arr, obj, nil, cons, end, field, canonicalize,
}
use devispropre.Tva.{LigneInput}
use devispropre.RateLimit.{Limit}
use devispropre.World.{World}
use devispropre.World.Action.{Action, pure, ◌>>=◌, ◌>>◌}
use devispropre.Devis.Draft.{GuestDraft, Clock, claim_guest_draft_as_devis}
use devispropre.Api.{
  Env, Request, Reply, Auth, ip_or_unknown, build_service_context, assert_mutation_security,
  require_auth, limit_calls, caught,
}

abbrev pub claim_ttl_ms : ℕ
claim_ttl_ms = 604800000

-- a draft, as `guestDevisDraftSchema` lets it through
pub record GuestForm (D : Type 0) : Type 0 where
  pub client_nom : Text
  pub client_telephone : Option Text
  pub client_email : Option Text
  pub client_adresse : Option Text
  pub lignes : List (LigneInput D)
  pub tva_applicable : Option Bool
  pub valid_until : Option Text
  pub notes : Option Text

-- the body of a claim, as `claimGuestDraftSchema` lets it through
pub record ClaimBody (D : Type 0) : Type 0 where
  pub draft : GuestForm D
  pub draft_id : Text
  pub claim_signature : Text
  pub signed_at : Option Text

-- What a call takes from outside: `mac` is the HMAC under the server's key, `parse_date` is
-- `Date.parse`, with none for `NaN`, `parse_valid_until` the date that devis-defaults.ts makes of an
-- input in the server's time zone; then the identifiers of new rows, and what other requests do at the point where the claim waits.
pub record ClaimInput (D : Type 0) : Type 0 where
  pub env : Env
  pub mac : Text → Text
  pub parse_date : Text → Option ℕ
  pub parse_valid_until : Text → Option ℕ
  pub clock : Clock
  pub draft_id : Text
  pub client_id : Text
  pub devis_id : Text
  pub others : World D → World D

abbrev sign_limit : Limit
sign_limit = record { max_attempts = 30; window_ms = 3600000 }

abbrev pub claim_limit : Limit
claim_limit = record { max_attempts = 5; window_ms = 60000 }

-- the identifier, the signature and the date that the guest keeps
abbrev pub SignedDraft : Type 0
SignedDraft = Text × Text × Text

module _ {D : Type 0} where
  -- a field that the object has only where it is given
  abbrev pub optional {ℓ} : {A : Type ℓ} → Text → (A → Value D) → Option A → Fields D → Fields D
  optional key value none rest = rest
  optional key value (some a) rest = field key (value a) rest

  unfoldable pub ligne_value : LigneInput D → Value D
  ligne_value l = obj (
      field (codes "description") (str l.description) (
        field (codes "quantite") (num l.quantite) (
          field (codes "prixUnitaireHT") (num l.prix_unitaire_ht)
            (optional (codes "tva") num l.tva end))))

  unfoldable pub lignes_value : List (LigneInput D) → Items D
  lignes_value [] = nil
  lignes_value (l ∷ lignes) = cons (ligne_value l) (lignes_value lignes)

  -- the object that the schema gives, in the order of the schema
  unfoldable pub draft_value : GuestForm D → Value D
  draft_value d = obj (
      field (codes "clientNom") (str d.client_nom) (
        optional (codes "clientTelephone") str d.client_telephone (
          optional (codes "clientEmail") str d.client_email (
            optional (codes "clientAdresse") str d.client_adresse (
              field (codes "lignes") (arr (lignes_value d.lignes)) (
                optional (codes "tvaApplicable") bool d.tva_applicable (
                  optional (codes "validUntil") str d.valid_until
                    (optional (codes "notes") str d.notes end))))))))

module _ {D : Type 0} (p : Platform D) (input : ClaimInput D) where
  abbrev now : ℕ
  now = input.clock.now

  abbrev pub claim_payload : Text → GuestForm D → Text
  claim_payload draft_id draft = draft_id ++ (b':' ∷ canonicalize p.number (draft_value draft))

  unfoldable pub sign_guest_draft_claim : Text → GuestForm D → Text
  sign_guest_draft_claim draft_id draft = input.mac (claim_payload draft_id draft)

  unfoldable pub verify_guest_draft_claim : Text → GuestForm D → Text → Bool
  verify_guest_draft_claim draft_id draft claim_signature =
      (not (is_empty draft_id) && not (is_empty claim_signature))
      && text_eq (sign_guest_draft_claim draft_id draft) claim_signature

  abbrev is_fresh_date : Option ℕ → Bool
  is_fresh_date none = false
  is_fresh_date (some at) = leb (now - at) claim_ttl_ms

  -- A date that is to come is fresh, as a negative difference is below the limit.
  unfoldable pub is_guest_draft_signature_fresh : Option Text → Bool
  is_guest_draft_signature_fresh signed_at = elim (truthy signed_at) [
    | none ↦ true
    | some s ↦ is_fresh_date (input.parse_date s)
  ]

  -- `POST` of guest-draft/sign
  unfoldable pub post_sign : Request → Option Text → GuestForm D → Action D (ℕ × Option SignedDraft)
  post_sign request given draft = do
    assert_mutation_security input.env request
    caught none do
      limit_calls (codes "guest-draft-sign:" ++ ip_or_unknown request) sign_limit now
      let draft_id = or_else given input.draft_id
      pure (200, some (draft_id, sign_guest_draft_claim draft_id draft, p.iso_string now))

  -- the draft that `claimGuestDraftAsDevis` is given, with its date read
  abbrev pub draft_of : GuestForm D → GuestDraft D
  draft_of d = record {
    client_nom = d.client_nom;
    client_telephone = d.client_telephone;
    client_email = d.client_email;
    client_adresse = d.client_adresse;
    lignes = d.lignes;
    tva_applicable = d.tva_applicable;
    valid_until = elim (truthy d.valid_until) [ none ↦ none | some s ↦ input.parse_valid_until s ];
    notes = d.notes;
  }

  abbrev pub claim_verified : Request → ClaimBody D → Auth → Action D Reply
  claim_verified request body auth =
      if is_guest_draft_signature_fresh body.signed_at
      then (do
        devis ←
            claim_guest_draft_as_devis p
              (build_service_context auth.workspace_user_id (some auth.user.id) request)
              (draft_of body.draft) input.clock input.client_id input.devis_id input.others
        pure (200, devis.numero))
      else pure (403, [])

  abbrev pub claim_checked : Request → ClaimBody D → Auth → Action D Reply
  claim_checked request body auth =
      if verify_guest_draft_claim body.draft_id body.draft body.claim_signature
      then claim_verified request body auth
      else pure (403, [])

  abbrev pub claim_of : Request → ClaimBody D → Auth ⊎ Reply → Action D Reply
  claim_of request body (inr reply) = pure reply
  claim_of request body (inl auth) = do
    limit_calls (codes "devis:claim-draft:" ++ (auth.workspace_user_id ++ (b':' ∷ body.draft_id)))
        claim_limit now
    claim_checked request body auth

  abbrev pub claim_signed_in : Request → ClaimBody D → Action D Reply
  claim_signed_in request body = do auth ← require_auth true request now; claim_of request body auth

  -- `POST` of claim-draft
  unfoldable pub post_claim : Request → ClaimBody D → Action D Reply
  post_claim request body =
      caught [] do assert_mutation_security input.env request; claim_signed_in request body
