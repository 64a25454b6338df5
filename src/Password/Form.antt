-- ===== src/Password/Form.antt =====
-- The bodies of the route of passwords, and `registerSchema` of src/lib/schemas/forms.ts.
use devispropre.Base.{ℕ, Bool, true, ◌&&◌, ◌||◌, Option, none, some, leb}
use devispropre.Text.{Text, trim, truthy, is_empty, units}

pub record RegisterForm : Type 0 where
  pub email : Text
  pub password : Option Text
  pub name : Text
  pub phone : Option Text
  pub raison_sociale : Text
  pub siret : Text
  pub adresse : Text
  pub code_postal : Text
  pub ville : Text

pub data AuthBody : Type 0 where
  register : RegisterForm → Option Text → AuthBody
  login : Text → Text → Option Text → AuthBody
  change_password : Text → Text → AuthBody
  unknown_action : AuthBody

-- from so many units to so many
abbrev is_between : ℕ → ℕ → Text → Bool
is_between low high s = leb low (units s) && leb (units s) high

abbrev phone_fits : Option Text → Bool
phone_fits none = true
phone_fits (some s) = leb (units s) 30

-- an empty password is as none
abbrev password_fits : Option Text → Bool
password_fits none = true
password_fits (some s) = is_empty s || leb 8 (units s)

abbrev pub trimmed : Option Text → Option Text
trimmed none = none
trimmed (some s) = truthy (some (trim s))

-- `registerSchema`
unfoldable pub is_valid_registration : (Text → Bool) → RegisterForm → Bool
is_valid_registration is_email f =
    is_email f.email
    && password_fits f.password
    && is_between 2 120 f.name
    && phone_fits f.phone
    && is_between 2 200 f.raison_sociale
    && is_between 9 20 f.siret
    && is_between 2 300 f.adresse
    && is_between 4 10 f.code_postal
    && is_between 2 100 f.ville
