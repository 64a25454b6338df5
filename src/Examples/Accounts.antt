-- ===== src/Examples/Accounts.antt =====
-- The theorems on accounts, sessions and links at concrete inputs.
use devispropre.Base.{ℕ, ◌≤◌, ◌≡◌, refl, false, true, none, some, [], ◌∷◌, arith}
use devispropre.Text.{Text, codes, text_eq, trim}
use devispropre.Table.{find_first, update_many, count, order_by}
use devispropre.Accounts.{MagicLinkToken, AuthTokenPurpose, Error, starter}
use devispropre.World.{World, DevisStatus}
use devispropre.World.Action.{ok, err, ◌>>=◌}
use devispropre.Session.{
  SessionMeta, Payload, is_open, max_active_sessions, create_user_session, get_session,
  revoke_all_user_sessions, bump_user_session_version,
}
use devispropre.Session.Limit.{create_user_session-bound}
use devispropre.Services.{log}
use devispropre.Account.{soft_delete_account, erase, anonymize, is_token_of}
use devispropre.Account.LockedOut.{soft_delete_account-locked_out}
use devispropre.SignIn.{
  consume_magic_link, consume, consume_email_verification, verify_magic_link, dashboard,
  create_session, accept_team_invites,
}
use devispropre.SignIn.Once.{consume-once}
use devispropre.SignIn.Alone.{verify_magic_link-alone}
use devispropre.Access.{assert_entity_owned_by_user, assert_entity_owned_by_user-foreign}
use devispropre.Reminders.{Due, Reminder, ReminderInput, remind}
use devispropre.Reminders.Once.{remind-once}
use devispropre.Examples.{platform, artisan}
use devispropre.Examples.Service.{user, client, draft, world}

abbrev browser : SessionMeta
browser = record { ip_address = none; user_agent = some (codes "b") }

abbrev token : MagicLinkToken
token = record {
  user_id = codes "u1";
  token_hash = codes "#t";
  purpose = AuthTokenPurpose.magic_link;
  expires_at = 900;
  used_at = none;
  created_at = 1;
}

abbrev linked : World ℕ
linked = record world { tokens = token ∷ [] }

abbrev old_cookie : Payload
old_cookie = record { sub = codes "u1"; jti = codes "s0"; sv = 0 }

made : (create_user_session (codes "u1") browser (codes "s1") 5 linked).0 ≡ ok (codes "s1", 0)
unfolding create_user_session ◌>>=◌ find_first text_eq
made = refl

create_user_session-bound_example :
    count
      (is_open (codes "u1") 7)
      (create_user_session (codes "u1") browser (codes "s1") 5 linked).1.sessions
    ≤ max_active_sessions
create_user_session-bound_example =
    create_user_session-bound (codes "u1") (codes "s1") browser 5 7 linked (codes "s1", 0) made
      (omega arith)

deleted : (soft_delete_account platform artisan (codes "x") 5 linked).0 ≡ ok tt
unfolding soft_delete_account ◌>>=◌ find_first text_eq erase bump_user_session_version
    revoke_all_user_sessions update_many anonymize log
deleted = refl

soft_delete_account-locked_out_example :
    let w = (soft_delete_account platform artisan (codes "x") 5 linked).1 in
    ((get_session (some old_cookie) 8 w).0 ≡ ok none)
    × (find_first (is_token_of (codes "u1")) w.tokens ≡ none)
soft_delete_account-locked_out_example =
    soft_delete_account-locked_out platform artisan (codes "x") 5 8 old_cookie linked deleted refl

abbrev same : Text → Text
same s = s

consume-once_example :
    let w' = (consume_magic_link platform same (codes "t") 5 linked).1 in
    let w'' = (consume_email_verification platform same (codes "t") 5 linked).1 in
    (consume_magic_link platform same (codes "t") 6 w' ≡ (ok none, w'))
    × (consume_email_verification platform same (codes "t") 6 w'' ≡ (ok none, w''))
consume-once_example = consume-once platform same (codes "t") 5 6 linked (omega arith)

abbrev new_cookie : Payload
new_cookie = record { sub = codes "u1"; jti = codes "s1"; sv = 1 }

signed_in :
    (verify_magic_link platform same (some (codes "t")) browser (codes "s1") 5 linked).0
    ≡ ok (dashboard new_cookie)
unfolding verify_magic_link ◌>>=◌ find_first text_eq trim consume_magic_link consume update_many
    count accept_team_invites bump_user_session_version revoke_all_user_sessions create_session
    create_user_session order_by
signed_in = refl

verify_magic_link-alone_example :
    (get_session
      (some old_cookie)
      8
      (verify_magic_link platform same (some (codes "t")) browser (codes "s1") 5 linked).1).0
    ≡ ok none
unfolding text_eq
verify_magic_link-alone_example =
    verify_magic_link-alone platform same (codes "t") browser (codes "s1") 5 8 linked new_cookie
      old_cookie signed_in refl refl

assert_entity_owned_by_user-foreign_example :
    assert_entity_owned_by_user (codes "u2") (codes "devis") (codes "d1") world
    ≡ (err Error.forbidden, world)
unfolding text_eq
assert_entity_owned_by_user-foreign_example =
    assert_entity_owned_by_user-foreign (codes "u2") (codes "devis") (codes "d1") world refl refl
      refl refl refl

-- The quote was sent on day 2, and the mail to the client fails.
abbrev waiting : Due ℕ
waiting = record {
  devis = record draft { status = DevisStatus.envoye; locked_at = some 2; sent_at = some 2 };
  client = record client { email = some (codes "c@d.fr") };
  user = record user { plan = starter };
}

abbrev reminder_input : ReminderInput ℕ
reminder_input = record {
  now = 9;
  cutoff = 6;
  share_url = λ d. codes "/devis/x";
  mail_client = λ d c email. record { sent = false; reason = some (codes "refused") };
  mail_artisan = λ d u. record { sent = true; reason = none };
  others = λ w. w;
}

abbrev sent_reminder : Reminder
sent_reminder = record {
  devis_id = codes "d1";
  client = record { sent = false; reason = some (codes "refused") };
  artisan = record { sent = true; reason = none };
}

abbrev awaiting : World ℕ
awaiting = record world {
  devis = waiting.devis ∷ [];
  users = waiting.user ∷ [];
  clients = waiting.client ∷ [];
}

claimed : (remind platform artisan reminder_input waiting awaiting).0 ≡ ok (some sent_reminder)
unfolding remind ◌>>=◌ count text_eq log
claimed = refl

remind-once_example :
    let w = (remind platform artisan reminder_input waiting awaiting).1 in
    remind platform artisan reminder_input waiting w ≡ (ok none, w)
remind-once_example =
    remind-once platform artisan reminder_input reminder_input waiting awaiting sent_reminder
      claimed refl
