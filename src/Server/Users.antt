-- ===== src/Server/Users.antt =====
-- The administration of users in backend/cmd/server/main.go: `adminOnly`, `adminCreateUser`,
-- `adminUserAction`, `adminChangePassword` and `adminDeleteUser` on the tables users and user_sessions.
-- The advisory lock makes the transactions that test for the last administrator one step each; the audit
-- log is not part of the state.
pub mod Count
pub mod Administrator
use call_recorder.Prelude.{
  ℕ, ◌+◌, Bool, true, false, not, ◌&&◌, ◌||◌, Option, none, some, List, [], ◌∷◌, length, ltb, leb,
  if◌then◌else◌,
}
use call_recorder.Prelude.Text.{Text, text_eq, is_empty, codes, has_byte, trim_space, equal_fold}
use call_recorder.Prelude.Dict.{Dict, get, put, has, remove}

-- A row of users.
pub record UserRow : Type 0 where
  pub password_hash : Text
  pub role : Text
  pub enabled : Bool

-- A row of user_sessions.
pub record Session : Type 0 where
  pub username : Text
  pub revoked : Bool

pub record Accounts : Type 0 where
  pub users : Dict UserRow
  pub sessions : List Session

-- The headers that `adminOK` sets where it accepts a request.
pub record Caller : Type 0 where
  pub user : Text
  pub role : Text

pub data UserReply : Type 0 where
  sign_in_required access_denied bad_form unknown_user own_account last_administrator : UserReply
  name_taken internal redirected : UserReply

-- The calls that may fail; where a statement of a transaction does, nothing is changed.
pub data UserCall : Type 0 where
  hash_password insert_user begin select_user count_admins update_user revoke_sessions : UserCall
  delete_user commit : UserCall

unfoldable pub one_if_admin : UserRow → ℕ
one_if_admin u = if text_eq u.role (codes "admin") && u.enabled then 1 else 0

-- SELECT count(*) FROM users WHERE role='admin' AND enabled
unfoldable pub enabled_admins : Dict UserRow → ℕ
unfolding one_if_admin
enabled_admins [] = 0
enabled_admins ((k, u) ∷ m) = one_if_admin u + enabled_admins m

-- The user may not lose the last administrator's rights.
unfoldable pub is_last : UserRow → Dict UserRow → Bool
unfolding enabled_admins
is_last u users = text_eq u.role (codes "admin") && u.enabled && leb (enabled_admins users) 1

unfoldable pub revoke : Text → List Session → List Session
revoke name [] = []
revoke name (x ∷ xs) =
    let rest = revoke name xs in
    if text_eq x.username name then (record x { revoked = true }) ∷ rest else x ∷ rest

-- The foreign key of user_sessions deletes a user's sessions with the row.
unfoldable pub drop_sessions : Text → List Session → List Session
drop_sessions name [] = []
drop_sessions name (x ∷ xs) =
    let rest = drop_sessions name xs in if text_eq x.username name then rest else x ∷ rest

-- `adminOnly`, in front of a handler.
unfoldable pub admin_only :
    Option Caller → (Caller → Accounts → UserReply × Accounts) → Accounts → UserReply × Accounts
admin_only none next s = (sign_in_required, s)
admin_only (some c) next s = if text_eq c.role (codes "admin") then next c s else (access_denied, s)

unfoldable pub is_bad_password : Text → Bool
is_bad_password password = ltb (length password) 12 || ltb 1024 (length password)

-- A role that is none of the three is that of a viewer.
unfoldable pub known_role : Text → Text
known_role role =
    if text_eq role (codes "admin")
      || text_eq role (codes "editor")
      || text_eq role (codes "viewer")
    then role
    else codes "viewer"

-- `hash` is `hashAPIKey`.
module _ (fails : UserCall → Bool) (hash : Text → Text) where
  -- `adminCreateUser` behind `adminOnly`, with a form that was parsed.
  unfoldable pub create_user : Text → Text → Text → Caller → Accounts → UserReply × Accounts
  unfolding is_bad_password known_role
  create_user form_name password role c s =
      let name = trim_space form_name in
      if is_empty name || has_byte b':' name || ltb 100 (length name) || is_bad_password password
      then (bad_form, s)
      else if fails hash_password
      then (internal, s)
      else if has s.users name
      then (name_taken, s)
      else if fails insert_user
      then (internal, s)
      else (
        redirected,
        record s {
          users =
              put s.users name
                (record { password_hash = hash password; role = known_role role; enabled = true });
        },
      )

  -- The transaction of `adminUserAction` for disable, with the row of the user.
  unfoldable pub disable_row : Text → UserRow → Accounts → UserReply × Accounts
  unfolding is_last revoke
  disable_row name u s =
      if text_eq u.role (codes "admin") && u.enabled && fails count_admins
      then (internal, s)
      else if is_last u s.users
      then (last_administrator, s)
      else if fails update_user || fails revoke_sessions || fails commit
      then (internal, s)
      else (
        redirected,
        record {
          users = put s.users name (record u { enabled = false });
          sessions = revoke name s.sessions;
        },
      )

  unfoldable pub disable_user : Text → Accounts → UserReply × Accounts
  unfolding disable_row
  disable_user name s =
      if fails select_user
      then (unknown_user, s)
      else elim (get s.users name) [ none ↦ (unknown_user, s) | some u ↦ disable_row name u s ]

  unfoldable pub enable_user : Text → Accounts → UserReply × Accounts
  enable_user name s = if fails update_user then (internal, s) else elim (get s.users name) [
    | none ↦ (unknown_user, s)
    | some u ↦
        if fails commit
        then (internal, s)
        else (redirected, record s { users = put s.users name (record u { enabled = true }) })
  ]

  -- `adminUserAction` behind `adminOnly`.
  unfoldable pub user_action : Text → Text → Caller → Accounts → UserReply × Accounts
  unfolding disable_user enable_user
  user_action name action c s =
      if is_empty name
      then (bad_form, s)
      else if text_eq action (codes "disable") && equal_fold name c.user
      then (own_account, s)
      else if not (text_eq action (codes "enable")) && not (text_eq action (codes "disable"))
      then (bad_form, s)
      else if fails begin
      then (internal, s)
      else if text_eq action (codes "disable")
      then disable_user name s
      else enable_user name s

  -- `adminChangePassword` behind `adminOnly`: an error of the sessions is dropped.
  unfoldable pub change_password : Text → Text → Caller → Accounts → UserReply × Accounts
  unfolding is_bad_password revoke
  change_password name password c s =
      if is_empty name || is_bad_password password
      then (bad_form, s)
      else if fails hash_password || fails update_user
      then (internal, s)
      else elim (get s.users name) [
        | none ↦ (unknown_user, s)
        | some u ↦ (
          redirected,
          record {
            users = put s.users name (record u { password_hash = hash password });
            sessions = if fails revoke_sessions then s.sessions else revoke name s.sessions;
          },
        )
      ]

  -- `adminDeleteUser` behind `adminOnly`.
  unfoldable pub delete_row : Text → UserRow → Accounts → UserReply × Accounts
  unfolding is_last drop_sessions
  delete_row name u s =
      if text_eq u.role (codes "admin") && u.enabled && fails count_admins
      then (internal, s)
      else if is_last u s.users
      then (last_administrator, s)
      else if fails delete_user || fails commit
      then (internal, s)
      else (
        redirected,
        record { users = remove s.users name; sessions = drop_sessions name s.sessions },
      )

  unfoldable pub delete_account : Text → Caller → Accounts → UserReply × Accounts
  unfolding delete_row
  delete_account form_name c s =
      let name = trim_space form_name in
      if is_empty name
      then (bad_form, s)
      else if equal_fold name c.user
      then (own_account, s)
      else if fails begin || fails select_user
      then (internal, s)
      else elim (get s.users name) [ none ↦ (unknown_user, s) | some u ↦ delete_row name u s ]

-- A request to one of the four handlers, with what `adminOK` makes of it.
pub data UserRequest : Type 0 where
  create : Text → Text → Text → UserRequest
  act : Text → Text → UserRequest
  change : Text → Text → UserRequest
  delete : Text → UserRequest

unfoldable pub handle_user :
    (UserCall → Bool) → (Text → Text) → UserRequest → Caller → Accounts → UserReply × Accounts
unfolding create_user user_action change_password delete_account
handle_user fails hash (create name password role) = create_user fails hash name password role
handle_user fails hash (act name action) = user_action fails hash name action
handle_user fails hash (change name password) = change_password fails hash name password
handle_user fails hash (delete name) = delete_account fails hash name

-- A handler behind `adminOnly`.
unfoldable pub administer :
    (UserCall → Bool)
    → (Text → Text)
    → Option Caller
    → UserRequest
    → Accounts
    → UserReply × Accounts
unfolding admin_only handle_user
administer fails hash caller request s = admin_only caller (handle_user fails hash request) s
