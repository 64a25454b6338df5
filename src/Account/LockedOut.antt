-- ===== src/Account/LockedOut.antt =====
-- What a deleted account leaves behind: nothing that opens a session.
use devispropre.Base.{ℕ, ◌≡◌, sym, none, some, Option-cases, inl, inr, &&-true, subst}
use devispropre.Text.{Text, text_eq, text_eq_sound}
use devispropre.Table.{
  find_first-delete_many, find_first, find_first_passes, update_many, delete_many,
}
use devispropre.Platform.{Platform}
use devispropre.Accounts.{User, is_user, Error}
use devispropre.Audit.{AuditContext}
use devispropre.World.{World}
use devispropre.World.Action.{Result, ok, err, ◌>>=◌}
use devispropre.Services.{find_user, log}
use devispropre.Session.{
  Payload, bump_user_session_version, revoke_all_user_sessions, get_session, is_revocable, revoke,
}
use devispropre.Session.Revoked.{get_session-IsLoggedOut, IsLoggedOut, revoked-IsLoggedOut}
use devispropre.Account.{soft_delete_account, erase, anonymize, is_token_of}

no_ok : (e : Error) → ◌≡◌ {A = Result (Unit {0})} (err e) (ok tt) → ⊥
no_ok e h = cc

module _ {D : Type 0} (p : Platform D) where
  -- The user has no session and no sign-in link in this state.
  abbrev pub IsLockedOut : Text → World D → Type 0
  IsLockedOut id w = IsLoggedOut id w.sessions × (find_first (is_token_of id) w.tokens ≡ none)

  same_user :
      (user_id : Text) (w : World D) (u : User) → find_user user_id w ≡ some u → u.id ≡ user_id
  same_user user_id w u found =
      text_eq_sound u.id user_id
        (&&-true (text_eq u.id user_id) _ (find_first_passes (is_user user_id) w.users u found)).0

  soft_delete_account-IsLockedOut :
      (ctx : AuditContext) (hash : Text) (now : ℕ) (w : World D)
      → (soft_delete_account p ctx hash now w).0 ≡ ok tt
      → IsLockedOut ctx.user_id (soft_delete_account p ctx hash now w).1
  unfolding soft_delete_account erase bump_user_session_version revoke_all_user_sessions log ◌>>=◌
  soft_delete_account-IsLockedOut ctx hash now w done =
      elim (Option-cases (find_user ctx.user_id w)) [
        | inl missing ↦ absurd (no_ok Error.error (rw missing at done))
        | inr (u, found) ↦
            let own = same_user ctx.user_id w u found in
            elim (Option-cases (
              find_first (λ v. text_eq v.id u.id)
                (update_many (λ v. text_eq v.id u.id) (anonymize hash now) w.users))) [
                  | inl gone ↦ absurd (no_ok Error.error (rw (found, gone) at done))
                  | inr (v, there) ↦
                      rw (found, there)
                        (
                          subst
                              (λ id.
                                IsLoggedOut id
                                  (update_many (is_revocable u.id none) (revoke now) w.sessions))
                              own (revoked-IsLoggedOut u.id now w.sessions),
                          subst
                              (λ id.
                                find_first (is_token_of id)
                                  (delete_many (is_token_of u.id) w.tokens)
                                ≡ none)
                              own (find_first-delete_many (is_token_of u.id) w.tokens),
                        )
                ]
      ]

  -- Once an account is deleted, no cookie of its user is accepted at any time, and no sign-in
  -- link of the user is left.
  pub soft_delete_account-locked_out :
      (ctx : AuditContext) (hash : Text) (now later : ℕ) (payload : Payload) (w : World D)
      → (soft_delete_account p ctx hash now w).0 ≡ ok tt
      → payload.sub ≡ ctx.user_id
      → ((get_session (some payload) later (soft_delete_account p ctx hash now w).1).0 ≡ ok none)
        × (find_first (is_token_of ctx.user_id) (soft_delete_account p ctx hash now w).1.tokens
            ≡ none)
  soft_delete_account-locked_out ctx hash now later payload w done own =
      let (out, gone) = soft_delete_account-IsLockedOut ctx hash now w done in
      (
        get_session-IsLoggedOut payload later _ (
            subst (λ id. IsLoggedOut id (soft_delete_account p ctx hash now w).1.sessions) (sym own)
              out),
        gone,
      )
