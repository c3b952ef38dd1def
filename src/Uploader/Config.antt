-- ===== src/Uploader/Config.antt =====
-- uploader/proscan-windows/config.go: the configuration, its defaults, its tests and the credentials.
-- `getenv` is os.Getenv, `read_file` os.ReadFile, `parse_url` url.Parse with the scheme, the host and
-- the host name, `loopback_ip` net.ParseIP with IsLoopback.
pub mod Usable
use call_recorder.Prelude.{
  ℕ, suc, ◌+◌, ◌*◌, ◌==◌, Bool, true, false, not, ◌&&◌, ◌||◌, Option, none, some, List, [], ◌∷◌,
  ◌++◌, map, if◌then◌else◌, ltb, leb,
}
use call_recorder.Prelude.Int.{ℤ, pos, is_zero, is_outside_range}
use call_recorder.Prelude.Text.{
  Text, text_eq, codes, is_empty, trim_space, trim_right, to_lower, equal_fold, contains_any,
  has_prefix,
}
use call_recorder.Prelude.Dict.{member}
use call_recorder.Prelude.Result.{Result, ok, err, in_front}

pub record LoggerConfig : Type 0 where
  pub url : Text
  pub sender_id : Text
  pub api_key : Text
  pub api_key_file : Text
  pub api_key_environment : Text
  pub request_timeout_seconds : ℤ

pub record WatchConfig : Type 0 where
  pub path : Text
  pub system_id : Text
  pub system_name : Text
  pub receiver_id : Text
  pub sender_id : Text
  pub api_key_file : Text
  pub recursive : Option Bool
  pub use_tpe2_radio_id : Option Bool
  pub proscan_system_as_site : Option Bool
  pub conventional_id_prefix : Text

pub record Config : Type 0 where
  pub version : ℤ
  pub logger : LoggerConfig
  pub spool_directory : Text
  pub timezone : Text
  pub settle_seconds : ℤ
  pub rescan_seconds : ℤ
  pub upload_workers : ℤ
  pub max_audio_bytes : ℤ
  pub include_existing : Option Bool
  pub completed_directory : Text
  pub delete_uploaded_files : Option Bool
  pub log_file : Text
  pub watch_directories : List WatchConfig

unfoldable pub or_number : ℕ → ℤ → ℤ
or_number default n = if is_zero n then pos default else n

unfoldable pub or_text : Text → Text → Text
or_text default t = if is_empty t then default else t

-- What `applyDefaults` does to a watch.
unfoldable pub watch_defaults : WatchConfig → WatchConfig
unfolding or_text
watch_defaults w = record w {
  system_name = or_text w.system_id w.system_name;
  conventional_id_prefix = or_text (codes "CONV") w.conventional_id_prefix;
}

-- `applyDefaults`
unfoldable pub apply_defaults : Config → Config
unfolding or_number or_text watch_defaults
apply_defaults c = record c {
  version = or_number 1 c.version;
  timezone = or_text (codes "America/Toronto") c.timezone;
  settle_seconds = or_number 3 c.settle_seconds;
  rescan_seconds = or_number 30 c.rescan_seconds;
  upload_workers = or_number 2 c.upload_workers;
  max_audio_bytes = or_number (100 * 1024 * 1024) c.max_audio_bytes;
  logger = record (c.logger) {
    request_timeout_seconds = or_number 60 c.logger.request_timeout_seconds;
    api_key_environment = or_text (codes "CALL_LOGGER_API_KEY") c.logger.api_key_environment;
  };
  watch_directories = map watch_defaults c.watch_directories;
}

unfoldable pub is_letter : ℕ → Bool
is_letter c = (leb b'A' c && leb c b'Z') || (leb b'a' c && leb c b'z')

-- X:\ or X:/
unfoldable pub is_drive : Text → Bool
unfolding is_letter
is_drive (a ∷ b ∷ c ∷ rest) = is_letter a && b == b':' && (c == b'\\' || c == b'/')
is_drive _ = false

-- `is_abs` is filepath.IsAbs and `path_join` filepath.Join, of the operating system.
module _ (is_abs : Text → Bool) (path_join : Text → Text → Text) where
  -- `configuredPathIsAbs`
  unfoldable pub configured_path_is_abs : Text → Bool
  unfolding is_drive
  configured_path_is_abs path = is_abs path || is_drive path || has_prefix path (codes "\\\\")

  unfoldable pub resolved : Text → Text → Text
  resolved base target =
      if is_empty target || configured_path_is_abs target then target else path_join base target

  -- `resolveRelativePaths`
  unfoldable pub resolve_relative_paths : Text → Config → Config
  unfolding resolved
  resolve_relative_paths base c = record c {
    spool_directory = resolved base c.spool_directory;
    completed_directory = resolved base c.completed_directory;
    log_file = resolved base c.log_file;
    logger = record (c.logger) { api_key_file = resolved base c.logger.api_key_file };
    watch_directories =
        map (λ (w : WatchConfig). record w { api_key_file = resolved base w.api_key_file })
          c.watch_directories;
  }

pub data ConfigError : Type 0 where
  unsupported_version bad_url not_https several_keys plaintext_key no_spool bad_interval :
      ConfigError
  bad_workers bad_audio_limit no_watch watch_incomplete watch_twice watch_control : ConfigError
  half_credentials no_credentials no_sender : ConfigError

unfoldable pub is_blank : Text → Bool
is_blank t = is_empty (trim_space t)

unfoldable pub one_if : Bool → ℕ
one_if true = 1
one_if false = 0

-- A path as the key of a watch.
unfoldable pub watch_key : Text → Text
watch_key path = to_lower (trim_right (λ c. c == b'\\' || c == b'/') path)

-- The loop over the watches; `seen` are the keys of those before.
unfoldable pub check_watches : List Text → List WatchConfig → Option ConfigError
unfolding is_blank watch_key
check_watches seen [] = none
check_watches seen (w ∷ ws) =
    let rest = check_watches (watch_key w.path ∷ seen) ws in
    if is_blank w.path || is_blank w.system_id
    then some watch_incomplete
    else if member seen (watch_key w.path)
    then some watch_twice
    else if contains_any (w.system_id ++ w.receiver_id ++ w.sender_id) (0 ∷ 13 ∷ 10 ∷ [])
    then some watch_control
    else if (is_blank w.sender_id && not (is_blank w.api_key_file))
        || (not (is_blank w.sender_id) && is_blank w.api_key_file)
    then some half_credentials
    else rest

-- Every watch has credentials of its own.
unfoldable pub all_own_credentials : List WatchConfig → Bool
unfolding is_blank
all_own_credentials [] = true
all_own_credentials (w ∷ ws) =
    not (is_blank w.sender_id || is_blank w.api_key_file) && all_own_credentials ws

unfoldable pub is_loopback_host : (Text → Bool) → Text → Bool
is_loopback_host loopback_ip host = equal_fold host (codes "localhost") || loopback_ip host

unfoldable pub has_no_element : List WatchConfig → Bool
has_no_element [] = true
has_no_element _ = false

-- The scheme, the host and the host name.
abbrev pub Url : Type 0
Url = Text × Text × Text

-- The first error of two tests.
abbrev pub or_else : Option ConfigError → Option ConfigError → Option ConfigError
or_else (some e) later = some e
or_else none later = later

unfoldable pub key_of_content : Text → Result Text → Result Text
key_of_content name (err e) = err (codes "read " ++ name ++ codes ": " ++ e)
key_of_content name (ok raw) =
    if is_empty (trim_space raw) then err (name ++ codes " is empty") else ok (trim_space raw)

-- The content of a key file, trimmed.
unfoldable pub key_of_file : (Text → Result Text) → Text → Text → Result Text
unfolding key_of_content
key_of_file read_file name path = key_of_content name (read_file path)

module _ (parse_url : Text → Option Url) (loopback_ip : Text → Bool) where
  unfoldable pub check_url : Text → Option ConfigError
  unfolding is_loopback_host
  check_url url = elim (parse_url (trim_right (λ c. c == b'/') (trim_space url))) [
    | none ↦ some bad_url
    | some (scheme, host, hostname) ↦
        if is_empty scheme || is_empty host
        then some bad_url
        else if not (text_eq scheme (codes "https"))
            && not (text_eq scheme (codes "http") && is_loopback_host loopback_ip hostname)
        then some not_https
        else none
  ]

unfoldable pub with_sender : Text → Result Text → Result (Text × Text)
with_sender sender (ok key) = ok (sender, key)
with_sender sender (err e) = err e

module _ (getenv : Text → Text) where
  unfoldable pub credential_sources : Config → ℕ
  unfolding is_blank one_if
  credential_sources c =
      one_if (not (is_blank c.logger.api_key))
      + one_if (not (is_blank c.logger.api_key_file))
      + one_if (not (is_blank (getenv c.logger.api_key_environment)))

  -- The tests behind those of the address and the watches.
  unfoldable pub check_credentials : Config → Option ConfigError
  unfolding is_blank all_own_credentials
  check_credentials c =
      let sources = credential_sources c in
      let global = is_blank c.logger.sender_id in
      if sources == 0 && global && not (all_own_credentials c.watch_directories)
      then some no_credentials
      else if ltb 0 sources && global
      then some no_sender
      else none

  unfoldable pub check_values : Config → Option ConfigError
  unfolding is_blank has_no_element
  check_values c =
      if ltb 1 (credential_sources c)
      then some several_keys
      else if not (is_blank c.logger.api_key)
      then some plaintext_key
      else if is_empty c.spool_directory
      then some no_spool
      else if is_outside_range 1 300 c.settle_seconds || is_outside_range 2 3600 c.rescan_seconds
      then some bad_interval
      else if is_outside_range 1 16 c.upload_workers
      then some bad_workers
      else if is_outside_range 1024 (2 * 1024 * 1024 * 1024) c.max_audio_bytes
      then some bad_audio_limit
      else if has_no_element c.watch_directories
      then some no_watch
      else none

  module _ (parse_url : Text → Option Url) (loopback_ip : Text → Bool) where
    -- `validate`
    unfoldable pub validate : Config → Option ConfigError
    validate c =
        if is_outside_range 1 1 c.version
        then some unsupported_version
        else or_else (check_url parse_url loopback_ip c.logger.url) (
            or_else (check_values c)
              (or_else (check_watches [] c.watch_directories) (check_credentials c)))

  module _ (read_file : Text → Result Text) where
    -- `apiKey`
    unfoldable pub api_key : Config → Result Text
    api_key c =
        let plain = trim_space c.logger.api_key in
        let environment = trim_space (getenv c.logger.api_key_environment) in
        if not (is_empty plain)
        then ok plain
        else if not (is_empty environment)
        then ok environment
        else key_of_file read_file (codes "API key file") c.logger.api_key_file

    -- `credentialsForWatch`
    unfoldable pub credentials_for_watch : Config → WatchConfig → Result (Text × Text)
    unfolding is_blank
    credentials_for_watch c w =
        let sender =
          if is_blank w.sender_id then trim_space c.logger.sender_id else trim_space w.sender_id in
        if is_empty sender
        then err (codes "sender_id is required")
        else if is_blank w.api_key_file
        then with_sender sender (api_key c)
        else with_sender sender (key_of_file read_file (codes "watch API key file") w.api_key_file)

-- `includeExisting`, `recursive`, `useTPE2RadioID`, `proScanSystemAsSite`: true where nothing is said.
unfoldable pub or_true : Option Bool → Bool
or_true none = true
or_true (some b) = b

-- `deleteUploadedFiles`
unfoldable pub is_set : Option Bool → Bool
is_set none = false
is_set (some b) = b
