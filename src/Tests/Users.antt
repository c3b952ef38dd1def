-- ===== src/Tests/Users.antt =====
-- The administration of users (backend/cmd/server/main.go) on a table of two users.
use call_recorder.Prelude.{refl, true, false, Bool, some, [], ◌∷◌, ◌≡◌, arith}
use call_recorder.Prelude.Text.{Text, codes, text_eq, is_empty, trim_space, equal_fold}
use call_recorder.Prelude.Dict.{get, has}
use call_recorder.Server.Users.{
  UserRow, Accounts, UserCall, Caller, administer, act, delete, one_if_admin, enabled_admins,
  last_administrator,
}
use call_recorder.Server.Users.Administrator.{HasAdministrator, administer-HasAdministrator}

abbrev row_of : Text → UserRow
row_of role = record { password_hash = []; role = role; enabled = true }

abbrev accounts : Accounts
accounts = record {
  users = (codes "ann", row_of (codes "admin")) ∷ (codes "bob", row_of (codes "viewer")) ∷ [];
  sessions = record { username = codes "bob"; revoked = false } ∷ [];
}

-- An administrator who is no longer in the table, as in a request that came before the deletion.
abbrev administrator : Caller
administrator = record { user = codes "eve"; role = codes "admin" }

abbrev no_failure : UserCall → Bool
no_failure call = false

abbrev no_hash : Text → Text
no_hash password = password

last_stays :
    (administer no_failure no_hash (some administrator) (delete (codes "ann")) accounts).0
    ≡ last_administrator
unfolding administer text_eq is_empty trim_space equal_fold get
last_stays = refl

other_goes :
    (administer no_failure no_hash
      (some administrator)
      (act (codes "bob") (codes "disable"))
      accounts).1.sessions
    ≡ record { username = codes "bob"; revoked = true } ∷ []
unfolding administer text_eq is_empty equal_fold get
other_goes = refl

administer-HasAdministrator_example :
    HasAdministrator
      (administer no_failure no_hash (some administrator) (delete (codes "bob")) accounts).1
unfolding HasAdministrator enabled_admins one_if_admin text_eq has
administer-HasAdministrator_example =
    administer-HasAdministrator no_failure no_hash (some administrator) (delete (codes "bob"))
      accounts ((refl, (refl, tt)), omega arith)
