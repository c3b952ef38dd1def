-- ===== src/Server/Login.antt =====
-- `adminLogin` of backend/cmd/server/main.go, with the table of failures.
pub mod Lockout
use call_recorder.Prelude.{
  ℕ, Bool, true, false, not, ◌&&◌, ◌||◌, Option, none, some, [], ◌∷◌, length, if◌then◌else◌, ltb,
}
use call_recorder.Prelude.Text.{Text, is_empty, trim_space, has_prefix, contains_any, codes}
use call_recorder.Prelude.Dict.{Dict}
use call_recorder.Server.Limits.{
  LoginFailure, login_blocked, record_login_failure, clear_login_failures,
}

-- A row of the table users.
pub record User : Type 0 where
  pub password_hash : Text
  pub enabled : Bool

-- What the handler answers.
pub data Reply : Type 0 where
  proxy_login form bad_form missing_fields too_many invalid internal_error : Reply
  signed_in : Text → Text → Reply

-- The request: what the proxy, the method and the form say.
pub record LoginRequest : Type 0 where
  pub from_proxy : Bool
  pub is_get : Bool
  pub form_ok : Bool
  pub remote : Text
  pub username : Text
  pub password : Text
  pub return_url : Text

abbrev pub max_password_bytes : ℕ
max_password_bytes = 1024

-- The page to go to: what the form says, if that begins with one slash and is a single line.
unfoldable pub safe_return : Text → Text → Text
safe_return url fallback =
    if has_prefix url (codes "/")
      && not (has_prefix url (codes "//"))
      && not (contains_any url (13 ∷ 10 ∷ []))
    then url
    else fallback

-- The account's hash, or a dummy one, so that the slow test is made for every name.
unfoldable pub hash_to_check : Text → Option User → Text
hash_to_check dummy none = dummy
hash_to_check dummy (some u) = u.password_hash

unfoldable pub is_enabled : Option User → Bool
is_enabled none = false
is_enabled (some u) = u.enabled

-- The password test is `verifyAPIKey`, on argon2; `users` is the query of the table, and `session`
-- tells whether `createSession` succeeds.
module _ (verify : Text → Text → Bool) (dummy : Text) (users : Text → Option User) where
  -- Behind the tests of the form: the lock, the password, and the table that is left.
  unfoldable pub check_password :
      ℕ → Bool → LoginRequest → Dict LoginFailure → Reply × Dict LoginFailure
  check_password now session r fails =
      let name = trim_space r.username in
      let locked = login_blocked now r.remote name fails in
      if locked.0
      then (too_many, locked.1)
      else if not (is_enabled (users name))
          || not (verify (hash_to_check dummy (users name)) r.password)
      then (invalid, record_login_failure now r.remote name locked.1)
      else if session
      then (
        signed_in name (safe_return r.return_url (codes "/")),
        clear_login_failures r.remote name locked.1,
      )
      else (internal_error, clear_login_failures r.remote name locked.1)

  -- `adminLogin`
  unfoldable pub admin_login :
      ℕ → Bool → LoginRequest → Dict LoginFailure → Reply × Dict LoginFailure
  admin_login now session r fails =
      if r.from_proxy
      then (proxy_login, fails)
      else if r.is_get
      then (form, fails)
      else if not r.form_ok
      then (bad_form, fails)
      else if is_empty (trim_space r.username)
          || is_empty r.password
          || ltb max_password_bytes (length r.password)
      then (missing_fields, fails)
      else check_password now session r fails
