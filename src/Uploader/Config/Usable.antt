-- ===== src/Uploader/Config/Usable.antt =====
-- What a configuration that passes `validate` of uploader/proscan-windows/config.go can do.
use call_recorder.Prelude.{
  ◌≡◌, refl, Bool, true, false, Option, none, some, List, [], ◌∷◌, ◌++◌, ltb, inl, inr, arith,
  Bool-cases,
}
use call_recorder.Prelude.Text.{Text, codes, is_empty, trim_space}
use call_recorder.Prelude.Result.{Result, ok}
use call_recorder.Uploader.Config.{
  Config, WatchConfig, ConfigError, Url, is_blank, one_if, watch_key, check_watches,
  all_own_credentials, credential_sources, check_url, check_credentials, check_values, validate,
  or_else, key_of_content, key_of_file, api_key, with_sender, credentials_for_watch,
}

-- A watch that was tested names a sender exactly where it names a key file.
check_watches-paired :
    (seen : List Text) (before : List WatchConfig) (w : WatchConfig) (after : List WatchConfig)
    → check_watches seen (before ++ w ∷ after) ≡ none
    → is_blank w.sender_id ≡ is_blank w.api_key_file
unfolding check_watches
check_watches-paired seen [] w after h = ground arith
check_watches-paired seen (v ∷ before) w after h =
    check_watches-paired (watch_key v.path ∷ seen) before w after (ground arith)

all_own_credentials-each :
    (before : List WatchConfig) (w : WatchConfig) (after : List WatchConfig)
    → all_own_credentials (before ++ w ∷ after) ≡ true
    → is_blank w.sender_id ≡ false
unfolding all_own_credentials
all_own_credentials-each [] w after h = ground arith
all_own_credentials-each (v ∷ before) w after h =
    all_own_credentials-each before w after (ground arith)

or_else-none : (a b : Option ConfigError) → or_else a b ≡ none → (a ≡ none) × (b ≡ none)
or_else-none none b h = (refl, h)
or_else-none (some e) b h = absurd (cc)

-- The groups of tests have all passed.
validate-parts :
    (getenv : Text → Text) (parse_url : Text → Option Url) (loopback_ip : Text → Bool) (c : Config)
    → validate getenv parse_url loopback_ip c ≡ none
    → (check_values getenv c ≡ none)
      × (check_watches [] c.watch_directories ≡ none)
      × (check_credentials getenv c ≡ none)
unfolding validate
validate-parts getenv parse_url loopback_ip c h =
    let tail : or_else (check_url parse_url loopback_ip c.logger.url) (
          or_else (check_values getenv c)
            (or_else (check_watches [] c.watch_directories) (check_credentials getenv c)))
        ≡ none =
      ground arith in
    let (url, rest) = or_else-none _ _ tail in
    let (values, rest') = or_else-none _ _ rest in
    let (watches, credentials) = or_else-none _ _ rest' in (values, watches, credentials)

key_of_file-ok :
    (read_file : Text → Result Text) (name path raw : Text)
    → read_file path ≡ ok raw
    → is_blank raw ≡ false
    → key_of_file read_file name path ≡ ok (trim_space raw)
unfolding key_of_file key_of_content is_blank
key_of_file-ok read_file name path raw e filled = rw e (ground arith)

-- A file whose name is not blank can be read, and has a key.
abbrev pub Reads : (Text → Result Text) → Text → Type 0
Reads read_file path = (raw : Text) × (read_file path ≡ ok raw) × (is_blank raw ≡ false)

-- A sender and a key that are not empty.
abbrev pub Gives : Result (Text × Text) → Type 0
Gives r =
    (sender : Text) × (key : Text) × (r ≡ ok (sender, key))
    × (is_empty sender ≡ false)
    × (is_empty key ≡ false)

module _ (getenv : Text → Text) (read_file : Text → Result Text) (c : Config) where
  -- The key of the whole configuration.
  api_key-ok :
      check_values getenv c ≡ none
      → ltb 0 (credential_sources getenv c) ≡ true
      → (is_blank c.logger.api_key_file ≡ false → Reads read_file c.logger.api_key_file)
      → (key : Text) × (api_key getenv read_file c ≡ ok key) × (is_empty key ≡ false)
  unfolding check_values credential_sources api_key is_blank one_if
  api_key-ok values sources reads =
      let environment = trim_space (getenv c.logger.api_key_environment) in
      let plain : is_empty (trim_space c.logger.api_key) ≡ true = ground arith in
      elim (Bool-cases (is_empty environment)) [
        | inr given ↦ (environment, rw (plain, given) refl, given)
        | inl missing ↦
            let (raw, e, filled) = reads (ground arith) in
            (
              trim_space raw,
              rw (plain, missing)
                  (key_of_file-ok read_file (codes "API key file") c.logger.api_key_file raw e
                    filled),
              filled,
            )
      ]

  own_credentials :
      (w : WatchConfig) (key : Text)
      → is_blank w.sender_id ≡ false
      → is_blank w.api_key_file ≡ false
      → key_of_file read_file (codes "watch API key file") w.api_key_file ≡ ok key
      → credentials_for_watch getenv read_file c w ≡ ok (trim_space w.sender_id, key)
  unfolding credentials_for_watch with_sender is_blank
  own_credentials w key own named e = rw (named, e) (ground arith)

  shared_credentials :
      (w : WatchConfig) (key : Text)
      → is_blank w.sender_id ≡ true
      → is_blank w.api_key_file ≡ true
      → is_blank c.logger.sender_id ≡ false
      → api_key getenv read_file c ≡ ok key
      → credentials_for_watch getenv read_file c w ≡ ok (trim_space c.logger.sender_id, key)
  unfolding credentials_for_watch with_sender is_blank
  shared_credentials w key shared unnamed global e = rw (unnamed, e) (ground arith)

  -- In a configuration that passes the tests, each watch gets a sender and a key when the uploader
  -- starts, if the key files that are named can be read and are not blank, the environment does not
  -- change, and a global sender comes with a global key.
  pub credentials-Gives :
      (parse_url : Text → Option Url) (loopback_ip : Text → Bool) (before : List WatchConfig)
      (w : WatchConfig) (after : List WatchConfig)
      → validate getenv parse_url loopback_ip c ≡ none
      → c.watch_directories ≡ before ++ w ∷ after
      → (is_blank c.logger.sender_id ≡ false → ltb 0 (credential_sources getenv c) ≡ true)
      → (is_blank c.logger.api_key_file ≡ false → Reads read_file c.logger.api_key_file)
      → (is_blank w.api_key_file ≡ false → Reads read_file w.api_key_file)
      → Gives (credentials_for_watch getenv read_file c w)
  unfolding check_credentials is_blank
  credentials-Gives parse_url loopback_ip before w after valid watches key_with_sender reads
        reads_own =
      let (values, tested, credentials) = validate-parts getenv parse_url loopback_ip c valid in
      let paired = check_watches-paired [] before w after (rw watches at tested) in
      elim (Bool-cases (is_blank w.sender_id)) [
        | inr own ↦
            let named : is_blank w.api_key_file ≡ false = ground arith in
            let (raw, e, filled) = reads_own named in
            let key =
              key_of_file-ok read_file (codes "watch API key file") w.api_key_file raw e filled in
            (
              trim_space w.sender_id,
              trim_space raw,
              own_credentials w (trim_space raw) own named key,
              own,
              filled,
            )
        | inl shared ↦
            let unnamed : is_blank w.api_key_file ≡ true = ground arith in
            let no_own : all_own_credentials c.watch_directories ≡ false =
              elim (Bool-cases (all_own_credentials c.watch_directories)) [
                | inr some_shared ↦ some_shared
                | inl all ↦
                    let each = all_own_credentials-each before w after (rw watches at all) in
                    absurd (ground arith)
              ] in
            let sources : ltb 0 (credential_sources getenv c) ≡ true = ground arith in
            let global : is_blank c.logger.sender_id ≡ false = ground arith in
            let (key, e, filled) = api_key-ok values sources reads in
            (
              trim_space c.logger.sender_id,
              key,
              shared_credentials w key shared unnamed global e,
              global,
              filled,
            )
      ]
