-- ===== src/Server/Users/Administrator.antt =====
-- The last administrator (backend/cmd/server/main.go): no request takes the rights of the only enabled one.
use call_recorder.Prelude.{
  ℕ, ◌+◌, ◌≡◌, ◌≤◌, Bool, true, false, ◌&&◌, Option, none, some, List, inl, inr, leb, arith,
  Bool-cases, Option-cases, if◌then◌else◌,
}
use call_recorder.Prelude.Text.{Text, text_eq, codes, trim_space}
use call_recorder.Prelude.Dict.{Dict, get, put, has, remove}
use call_recorder.Prelude.Dict.Distinct.{IsDistinct, put-IsDistinct, remove-IsDistinct}
use call_recorder.Server.Users.{
  UserRow, Session, Accounts, Caller, UserCall, UserRequest, create, act, change, delete,
  one_if_admin, enabled_admins, revoke, drop_sessions, revoke_sessions, known_role, is_last,
  admin_only, create_user, disable_row, disable_user, enable_user, user_action, change_password,
  delete_row, delete_account, handle_user, administer,
}
use call_recorder.Server.Users.Count.{admins-put, admins-insert, admins-remove}

-- No name stands twice in the table, and one of its administrators at least is enabled.
unfoldable pub HasAdministrator : Accounts → Type 0
HasAdministrator s = IsDistinct s.users × (1 ≤ enabled_admins s.users)

-- A row that is not the last administrator's may be given up.
others_left :
    (m : Dict UserRow) (u : UserRow) (rest : ℕ)
    → is_last u m ≡ false
    → enabled_admins m ≤ rest + one_if_admin u
    → 1 ≤ enabled_admins m
    → 1 ≤ rest
unfolding is_last one_if_admin
others_left m u rest not_last count h =
    elim (Bool-cases (text_eq u.role (codes "admin") && u.enabled)) [
      | inl admin ↦
          let more : leb (enabled_admins m) 1 ≡ false = rw admin at not_last in
          let sum : enabled_admins m ≤ rest + 1 = rw admin at count in ground arith
      | inr other ↦ let sum : enabled_admins m ≤ rest + 0 = rw other at count in omega arith
    ]

-- The four ways in which the table changes.
module _ (xs : List Session) (s : Accounts) (k : Text) (h : HasAdministrator s) where
  kept_insert :
      (new : UserRow)
      → has s.users k ≡ false
      → HasAdministrator (record { users = put s.users k new; sessions = xs })
  unfolding HasAdministrator
  kept_insert new free =
      let count = admins-insert s.users k new free in
      let some_left = h.1 in (put-IsDistinct s.users k new h.0, omega arith)

  -- The new row has the rights that the old one had.
  kept_put :
      (old new : UserRow)
      → get s.users k ≡ some old
      → one_if_admin old ≤ one_if_admin new
      → HasAdministrator (record { users = put s.users k new; sessions = xs })
  unfolding HasAdministrator
  kept_put old new at_key more =
      let count = admins-put s.users k old new at_key in
      let some_left = h.1 in (put-IsDistinct s.users k new h.0, omega arith)

  kept_put_other :
      (old new : UserRow)
      → get s.users k ≡ some old
      → is_last old s.users ≡ false
      → HasAdministrator (record { users = put s.users k new; sessions = xs })
  unfolding HasAdministrator
  kept_put_other old new at_key not_last =
      let count = admins-put s.users k old new at_key in
      (
        put-IsDistinct s.users k new h.0,
        others_left s.users old (enabled_admins (put s.users k new)) not_last (omega arith) h.1,
      )

  kept_remove :
      (old : UserRow)
      → get s.users k ≡ some old
      → is_last old s.users ≡ false
      → HasAdministrator (record { users = remove s.users k; sessions = xs })
  unfolding HasAdministrator
  kept_remove old at_key not_last =
      let count = admins-remove s.users k old h.0 at_key in
      (
        remove-IsDistinct s.users k h.0,
        others_left s.users old (enabled_admins (remove s.users k)) not_last (omega arith) h.1,
      )

new_password :
    (u : UserRow) (hash : Text) → one_if_admin u ≤ one_if_admin (record u { password_hash = hash })
unfolding one_if_admin
new_password u hash = omega arith

enabled_row : (u : UserRow) → one_if_admin u ≤ one_if_admin (record u { enabled = true })
unfolding one_if_admin
enabled_row u = ground arith

module _ (fails : UserCall → Bool) (hash : Text → Text) (c : Caller) (s : Accounts)
    (h : HasAdministrator s) where
  create-HasAdministrator :
      (name password role : Text)
      → HasAdministrator (create_user fails hash name password role c s).1
  unfolding create_user
  create-HasAdministrator name password role =
      let row : UserRow = record {
        password_hash = hash password;
        role = known_role role;
        enabled = true;
      } in
      ground (arith, h, kept_insert s.sessions s (trim_space name) h row)

  disable_row_lem :
      (name : Text) (u : UserRow)
      → get s.users name ≡ some u
      → HasAdministrator (disable_row fails hash name u s).1
  unfolding disable_row
  disable_row_lem name u at_name = ground (
    arith,
    h,
    kept_put_other (revoke name s.sessions) s name h u (record u { enabled = false }) at_name,
  )

  enable-HasAdministrator : (name : Text) → HasAdministrator (enable_user fails hash name s).1
  unfolding enable_user
  enable-HasAdministrator name = elim (Option-cases (get s.users name)) [
    | inl missing ↦ rw missing (ground (arith, h))
    | inr (u, at_name) ↦
        let more =
          kept_put s.sessions s name h u (record u { enabled = true }) at_name (enabled_row u) in
        rw at_name (ground (arith, h, more))
  ]

  disable-HasAdministrator : (name : Text) → HasAdministrator (disable_user fails hash name s).1
  unfolding disable_user
  disable-HasAdministrator name = elim (Option-cases (get s.users name)) [
    | inl missing ↦ rw missing (ground (arith, h))
    | inr (u, at_name) ↦ rw at_name (ground (arith, h, disable_row_lem name u at_name))
  ]

  action-HasAdministrator :
      (name action : Text) → HasAdministrator (user_action fails hash name action c s).1
  unfolding user_action
  action-HasAdministrator name action =
      ground (arith, h, disable-HasAdministrator name, enable-HasAdministrator name)

  change-HasAdministrator :
      (name password : Text) → HasAdministrator (change_password fails hash name password c s).1
  unfolding change_password
  change-HasAdministrator name password = elim (Option-cases (get s.users name)) [
    | inl missing ↦ rw missing (ground (arith, h))
    | inr (u, at_name) ↦
        let ended = if fails revoke_sessions then s.sessions else revoke name s.sessions in
        let new : UserRow = record u { password_hash = hash password } in
        rw at_name (
          ground (arith, h, kept_put ended s name h u new at_name (new_password u (hash password))))
  ]

  delete_row_lem :
      (name : Text) (u : UserRow)
      → get s.users name ≡ some u
      → HasAdministrator (delete_row fails hash name u s).1
  unfolding delete_row
  delete_row_lem name u at_name =
      ground (arith, h, kept_remove (drop_sessions name s.sessions) s name h u at_name)

  delete-HasAdministrator : (name : Text) → HasAdministrator (delete_account fails hash name c s).1
  unfolding delete_account
  delete-HasAdministrator name = elim (Option-cases (get s.users (trim_space name))) [
    | inl missing ↦ rw missing (ground (arith, h))
    | inr (u, at_name) ↦ rw at_name (ground (arith, h, delete_row_lem (trim_space name) u at_name))
  ]

  handle-HasAdministrator :
      (request : UserRequest) → HasAdministrator (handle_user fails hash request c s).1
  unfolding handle_user
  handle-HasAdministrator (create name password role) = create-HasAdministrator name password role
  handle-HasAdministrator (act name action) = action-HasAdministrator name action
  handle-HasAdministrator (change name password) = change-HasAdministrator name password
  handle-HasAdministrator (delete name) = delete-HasAdministrator name

-- Where no name stands twice in the table of users and one of its administrators is enabled, this is so
-- after any request to create, disable, enable or delete a user or to change a password, whoever sends it
-- and whichever calls fail.
pub administer-HasAdministrator :
    (fails : UserCall → Bool) (hash : Text → Text) (caller : Option Caller) (request : UserRequest)
    (s : Accounts)
    → HasAdministrator s
    → HasAdministrator (administer fails hash caller request s).1
unfolding administer admin_only
administer-HasAdministrator fails hash none request s h = h
administer-HasAdministrator fails hash (some c) request s h =
    ground (arith, h, handle-HasAdministrator fails hash c s h request)
