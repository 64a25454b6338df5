-- ===== src/Account.antt =====
-- `softDeleteAccount` of src/lib/services/account.ts: the account is made anonymous, and its
-- issued invoices stay.
pub mod LockedOut
use devispropre.Base.{
  ℕ, ◌≡◌, Bool, not, ◌&&◌, ◌||◌, Option, none, some, List, [], ◌∷◌, ◌++◌, is_some, is_none, false,
}
use devispropre.Text.{Text, codes, text_eq}
use devispropre.Table.{find_first, update_many, delete_many}
use devispropre.Platform.{Platform}
use devispropre.Accounts.{User, MagicLinkToken, Error}
use devispropre.Audit
use devispropre.Audit.{AuditContext, AuditParams}
use devispropre.World.{FactureStatus, Facture, World}
use devispropre.World.Action.{Action, gets, or_raise, pure, ◌>>=◌, ◌>>◌, modify, transaction}
use devispropre.World.Immutability.{facture_status_eq}
use devispropre.Services.{find_user, log}
use devispropre.Session.{bump_user_session_version}

-- `deleted-${user.id}@anonymized.local`
abbrev anonymized_email : Text → Text
anonymized_email id = codes "deleted-" ++ (id ++ codes "@anonymized.local")

-- The row of a deleted account; `hash` is the hash of a random password.
unfoldable pub anonymize : Text → ℕ → User → User
anonymize hash now u = record u {
  deleted_at = some now;
  email = anonymized_email u.id;
  name = codes "Compte supprimé";
  phone = none;
  password_hash = hash;
  stripe_customer_id = none;
  subscription_past_due = false;
}

abbrev pub is_kept_facture : {D : Type 0} → Text → Facture D → Bool
is_kept_facture user_id f =
    text_eq f.user_id user_id
    && ((facture_status_eq f.status FactureStatus.emise
          || facture_status_eq f.status FactureStatus.payee)
        && is_none f.deleted_at)

abbrev pub is_token_of : Text → MagicLinkToken → Bool
is_token_of user_id t = text_eq t.user_id user_id

module _ {D : Type 0} (p : Platform D) where
  -- the transaction
  unfoldable pub erase : Text → Text → ℕ → Action D (Unit {0})
  erase user_id hash now = transaction do
    modify (λ w. record w {
      users = update_many (λ u. text_eq u.id user_id) (anonymize hash now) w.users;
    })
    modify (λ w. record w { tokens = delete_many (is_token_of user_id) w.tokens })

  abbrev deletion : Text → Bool → AuditParams D
  deletion user_id had_issued = record {
    action = Audit.soft_delete;
    entity_type = codes "user";
    entity_id = user_id;
    devis_id = none;
    facture_id = none;
    metadata = (codes "hadIssuedFactures", Audit.boolean had_issued) ∷ [];
    content_hash = none;
  }

  unfoldable pub soft_delete_account : AuditContext → Text → ℕ → Action D (Unit {0})
  soft_delete_account ctx hash now = do
    user ← or_raise (← gets (find_user ctx.user_id)) Error.error
    kept ← gets (λ w. find_first (is_kept_facture ctx.user_id) w.factures)
    erase user.id hash now
    version ← bump_user_session_version user.id now
    log p ctx (deletion user.id (is_some kept)) now
