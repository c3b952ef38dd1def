-- ===== src/Uploader/App/Observe.antt =====
-- uploader/proscan-windows/app.go: `addWatch`, `addDirectoryTree`, `scanDirectory`, `handleEvent` and
-- `observe`. What the file system holds comes as a tree, in the order of filepath.WalkDir.
pub mod Scans
use call_recorder.Prelude.{
  ℕ, ◌==◌, Bool, true, false, not, ◌&&◌, ◌||◌, Option, none, some, List, [], ◌∷◌, if◌then◌else◌,
}
use call_recorder.Prelude.Text.{Text}
use call_recorder.Prelude.Dict.{Dict, get, put, remove, member, add}
use call_recorder.Uploader.Effects.{
  Exit, returned, refused, crashed, io_error, Exec, ◌>>=◌, ◌>>◌, modify, Plan,
}
use call_recorder.Uploader.Config.{WatchConfig, or_true, is_set}
use call_recorder.Uploader.Fingerprint.{FileInfo, source_fingerprint}
use call_recorder.Uploader.Spool.State.{Spool}
use call_recorder.Uploader.Spool.Methods.{remember}
use call_recorder.Uploader.App.Paths.{normalize_path, is_supported_recording, watch_for_path}

-- Times in nanoseconds; those that are not set are 0.
pub record ObservedFile : Type 0 where
  pub path : Text
  pub watch : WatchConfig
  pub size : ℕ
  pub modified : ℕ
  pub stable_since : ℕ
  pub next_try : ℕ
  pub last_error : Text

-- The state of `uploaderApplication` that changes.
pub record Watching : Type 0 where
  pub observations : Dict ObservedFile
  pub watched_dirs : List Text
  pub spool : Spool

-- An entry of a directory: what cannot be read, a file with what its stat gives, or a directory.
mutual
  pub data Entry : Type 0 where
    unreadable : Entry
    file_at : Text → Option FileInfo → Entry
    directory_at : Text → Entries → Entry

  pub data Entries : Type 0 where
    no_entries : Entries
    then_entry : Entry → Entries → Entries

-- os.Stat behind an event.
pub data Found : Type 0 where
  nothing : Found
  a_file : FileInfo → Found
  a_directory : Entry → Found

-- The operations of a file event that the code asks for.
pub record Event : Type 0 where
  pub name : Text
  pub is_create : Bool
  pub is_write : Bool
  pub is_remove : Bool
  pub is_rename : Bool

-- A file that is new, with the values that `observe` begins with.
unfoldable pub observed : Text → WatchConfig → FileInfo → ℕ → ObservedFile
observed path watch info now = record {
  path = path;
  watch = watch;
  size = info.size;
  modified = info.modified;
  stable_since = now;
  next_try = 0;
  last_error = [];
}

-- The size or the time of the file is another.
unfoldable pub is_changed : ObservedFile → FileInfo → Bool
is_changed o info = not (o.size == info.size) || not (o.modified == info.modified)

unfoldable pub observe_again : FileInfo → ℕ → ObservedFile → ObservedFile
unfolding is_changed
observe_again info now o =
    if is_changed o info
    then record o {
      size = info.size;
      modified = info.modified;
      stable_since = now;
      next_try = 0;
      last_error = [];
    }
    else o

unfoldable pub observe_at :
    Text → Text → WatchConfig → FileInfo → ℕ → Dict ObservedFile → Dict ObservedFile
unfolding observed observe_again
observe_at key path watch info now m = elim (get m key) [
  | none ↦ put m key (observed path watch info now)
  | some o ↦ put m key (observe_again info now o)
]

-- A method of the spool.
abbrev pub in_spool : {A : Type 0} → Exec Spool A → Exec Watching A
in_spool m a = ((m a.spool).0, record a { spool = (m a.spool).1 })

-- `absolute` is filepath.Abs with filepath.Clean; `add_ok` says whether the notifier takes a directory.
module _ (separator : ℕ) (sha256 absolute : Text → Text) (add_ok : Text → Bool) where
  -- `observe`
  unfoldable pub observe : Text → WatchConfig → FileInfo → ℕ → Watching → Watching
  unfolding observe_at normalize_path
  observe path watch info now a = record a {
    observations = observe_at (normalize_path absolute path) path watch info now a.observations;
  }

  -- `addWatch`
  unfoldable pub add_watch : Text → Exec Watching (Unit {0})
  unfolding normalize_path
  add_watch path a =
      if member a.watched_dirs (normalize_path absolute path)
      then (returned tt, a)
      else if add_ok path
      then (
        returned tt,
        record a { watched_dirs = add a.watched_dirs (normalize_path absolute path) },
      )
      else (refused io_error, a)

  unfoldable mutual
    -- The walk of `addDirectoryTree`.
    pub add_tree : Entry → Exec Watching (Unit {0})
    add_tree unreadable a = (refused io_error, a)
    add_tree (file_at path info) a = (returned tt, a)
    add_tree (directory_at path entries) a = (add_watch path >> add_trees entries) a

    pub add_trees : Entries → Exec Watching (Unit {0})
    add_trees no_entries a = (returned tt, a)
    add_trees (then_entry e es) a = (add_tree e >> add_trees es) a

  -- `addDirectoryTree`
  unfoldable pub add_directory_tree : Text → Entry → WatchConfig → Exec Watching (Unit {0})
  unfolding add_tree
  add_directory_tree root tree watch a =
      if or_true watch.recursive then add_tree tree a else add_watch root a

  -- What the watch, the clock and `includeExisting` are during a scan; a plan for each file.
  module _ (watch : WatchConfig) (now : ℕ) (plan : Text → Plan)
      (initial include_existing : Bool) where
    -- A file that the scan comes to.
    unfoldable pub scan_file : Text → Option FileInfo → Exec Watching (Unit {0})
    unfolding is_supported_recording source_fingerprint observe remember
    scan_file path info a =
        if not (is_supported_recording separator path) then (returned tt, a) else elim info [
          | none ↦ (refused io_error, a)
          | some i ↦
              if initial && not include_existing
              then in_spool
                  (remember (plan path) now (source_fingerprint sha256 absolute path i) path) a
              else (returned tt, observe path watch i now a)
        ]

    unfoldable mutual
      -- Below the directory of the watch.
      pub scan_entry : Entry → Exec Watching (Unit {0})
      scan_entry unreadable a = (refused io_error, a)
      scan_entry (file_at path info) a = scan_file path info a
      scan_entry (directory_at path entries) a =
          if not (or_true watch.recursive)
          then (returned tt, a)
          else (add_watch path >> scan_entries entries) a

      pub scan_entries : Entries → Exec Watching (Unit {0})
      scan_entries no_entries a = (returned tt, a)
      scan_entries (then_entry e es) a = (scan_entry e >> scan_entries es) a

    -- `scanDirectory`: the directory of the watch itself is never skipped.
    unfoldable pub scan_directory : Entry → Exec Watching (Unit {0})
    unfolding scan_entry or_true add_watch
    scan_directory unreadable a = (refused io_error, a)
    scan_directory (file_at path info) a = scan_file path info a
    scan_directory (directory_at path entries) a =
        if or_true watch.recursive
        then (add_watch path >> scan_entries entries) a
        else scan_entries entries a

  -- Behind the guards of `handleEvent`. An error of the tree is only logged.
  unfoldable pub handle_found : Event → WatchConfig → Found → ℕ → Watching → Watching
  unfolding add_directory_tree is_supported_recording observe or_true
  handle_found event watch nothing now a = a
  handle_found event watch (a_directory tree) now a =
      if or_true watch.recursive then (add_directory_tree event.name tree watch a).1 else a
  handle_found event watch (a_file info) now a =
      if is_supported_recording separator event.name then observe event.name watch info now a else a

  -- `handleEvent`
  unfoldable pub handle_event : List WatchConfig → Event → Found → ℕ → Watching → Watching
  unfolding handle_found watch_for_path normalize_path
  handle_event watches event found now a =
      elim (watch_for_path separator absolute watches event.name) [
        | none ↦ a
        | some watch ↦
            if event.is_remove || event.is_rename
            then record a {
              observations = remove a.observations (normalize_path absolute event.name);
            }
            else if event.is_create || event.is_write
            then handle_found event watch found now a
            else a
      ]
