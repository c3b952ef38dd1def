-- ===== src/Uploader/App/Source.antt =====
-- `copyUploadedSource`, `filesHaveSameSHA256` and `deleteUploadedSource` of
-- uploader/proscan-windows/app.go. The files of the directory of completed recordings stand by their names.
pub mod Copies
use call_recorder.Prelude.{
  ℕ, ◌-◌, Bool, true, false, ◌&&◌, Option, none, some, List, [], ◌∷◌, ◌++◌, if◌then◌else◌, ltb,
  take, length,
}
use call_recorder.Prelude.Text.{Text, text_eq, codes}
use call_recorder.Prelude.Dict.{Dict, get, put, has, remove}
use call_recorder.Uploader.Effects.{
  Outcome, done, Exit, returned, refused, crashed, io_error, Exec, ◌>>=◌, ◌>>◌, attempt,
}
use call_recorder.Uploader.Fingerprint.{FileInfo, source_fingerprint}
use call_recorder.Uploader.Spool.Disk.{SpoolItem}
use call_recorder.Uploader.App.Paths.{base, ext}

abbrev pub Files : Type 0
Files = Dict Text

-- The calls of a copy. `stat_wanted` and `stat_other` are its two calls of os.Lstat; `compare_wanted` and
-- `compare_other` read the two files that are compared.
pub data CopyCall : Type 0 where
  make_completed stat_wanted stat_other compare_wanted compare_other open_source create_partial
        copy_partial :
      CopyCall
  sync_partial close_partial rename_partial remove_partial : CopyCall

abbrev pub CopyPlan : Type 0
CopyPlan = CopyCall → Outcome

unfoldable pub is_done : Outcome → Bool
is_done done = true
is_done _ = false

-- The file that os.Lstat finds: where the call fails, for whatever reason, the name is taken for free.
unfoldable pub lstat : Outcome → Text → Files → Option Text
unfolding is_done
lstat o name files = if is_done o then get files name else none

-- strings.TrimSuffix of the extension, which is the end of the name.
unfoldable pub stem : ℕ → Text → Text
unfolding ext
stem separator name = take (length name - length (ext separator name)) name

unfoldable pub other_name : ℕ → Text → Text → Text
unfolding stem ext
other_name separator short name = stem separator name ++ codes "-" ++ short ++ ext separator name

unfoldable pub partial_name : Text → Text → Text
partial_name short destination = destination ++ (codes ".partial-" ++ short)

-- os.Rename of the partial file.
unfoldable pub rename_file : Text → Text → Files → Files
rename_file old new files = elim (get files old) [
  | some bytes ↦ put (remove files old) new bytes
  | none ↦ files
]

-- The deferred os.Remove, whose error is dropped; it is not run where the process dies.
unfoldable pub with_cleanup : {A : Type 0} → CopyPlan → Text → Exit A × Files → Exit A × Files
unfolding is_done
with_cleanup plan temporary (crashed, files) = (crashed, files)
with_cleanup plan temporary (returned a, files) =
    (returned a, (if is_done (plan remove_partial) then remove files temporary else files))
with_cleanup plan temporary (refused e, files) =
    (refused e, (if is_done (plan remove_partial) then remove files temporary else files))

-- From io.Copy to os.Rename.
unfoldable pub fill_partial : CopyPlan → Text → Text → Text → Exec Files Text
unfolding attempt rename_file
fill_partial plan temporary destination audio = do
  attempt (plan copy_partial) (λ files. put files temporary audio) (λ files. put files temporary [])
  attempt (plan sync_partial) (λ files. files) (λ files. files)
  attempt (plan close_partial) (λ files. files) (λ files. files)
  attempt (plan rename_partial) (rename_file temporary destination) (λ files. files)
  λ files. (returned destination, files)

-- From os.OpenFile on, which takes no file that is there.
unfoldable pub create_copy : CopyPlan → Text → Text → Text → Exec Files Text
unfolding attempt fill_partial with_cleanup
create_copy plan temporary destination audio files =
    if has files temporary
    then (refused io_error, files)
    else (attempt (plan create_partial) (λ t. put t temporary []) (λ t. t) >> λ t.
          with_cleanup plan temporary (fill_partial plan temporary destination audio t))
        files

-- item.ID[:12]: on a shorter id the slice panics, which ends the process.
unfoldable pub with_slice : {A : Type 0} → Text → (Text → Exec Files A) → Exec Files A
with_slice id m files = if ltb (length id) 12 then (crashed, files) else m (take 12 id) files

-- `audio` is the content of the spooled file, if it is there.
module _ (separator : ℕ) (sha256 : Text → Text) (plan : CopyPlan) (audio : Option Text) where
  -- `filesHaveSameSHA256` with its error as a difference.
  unfoldable pub same_digest : Outcome → Text → Bool
  unfolding is_done
  same_digest o content = elim audio [
    | none ↦ false
    | some bytes ↦ if is_done o then text_eq (sha256 content) (sha256 bytes) else false
  ]

  -- The part behind the choice of the destination.
  unfoldable pub copy_to : Text → Text → Exec Files Text
  unfolding create_copy partial_name with_slice
  copy_to id destination files = elim audio [
    | none ↦ (refused io_error, files)
    | some bytes ↦
        (attempt (plan open_source) (λ t. t) (λ t. t)
            >> with_slice id
                λ short. create_copy plan (partial_name short destination) destination bytes)
          files
  ]

  -- The name of the source is taken by another content.
  unfoldable pub copy_beside : Text → Text → Exec Files Text
  unfolding copy_to same_digest lstat
  copy_beside id other files = elim (lstat (plan stat_other) other files) [
    | none ↦ copy_to id other files
    | some content ↦
        if same_digest (plan compare_other) content
        then (returned other, files)
        else (refused io_error, files)
  ]

  unfoldable pub copy_wanted : Text → Text → Exec Files Text
  unfolding copy_to same_digest copy_beside with_slice other_name lstat
  copy_wanted id wanted files = elim (lstat (plan stat_wanted) wanted files) [
    | none ↦ copy_to id wanted files
    | some content ↦
        if same_digest (plan compare_wanted) content
        then (returned wanted, files)
        else with_slice id (λ short. copy_beside id (other_name separator short wanted)) files
  ]

  -- `copyUploadedSource`
  unfoldable pub copy_uploaded_source : SpoolItem → Exec Files Text
  unfolding attempt copy_wanted base
  copy_uploaded_source item =
      attempt (plan make_completed) (λ t. t) (λ t. t)
      >> copy_wanted item.id (base separator item.source_path)

-- `deleteUploadedSource` on the files of the watched directories; `stat` is done, or fails for another
-- reason than that there is no file.
unfoldable pub delete_uploaded_source :
    (Text → Text) → (Text → Text) → Outcome → Outcome → SpoolItem → Exec (Dict FileInfo) (Unit {0})
unfolding is_done attempt source_fingerprint
delete_uploaded_source sha256 absolute stat removal item files = elim (get files item.source_path) [
  | none ↦ if is_done stat then (returned tt, files) else (refused io_error, files)
  | some info ↦
      if is_done stat
        && text_eq (source_fingerprint sha256 absolute item.source_path info) item.fingerprint
      then attempt removal (λ t. remove t item.source_path) (λ t. t) files
      else (refused io_error, files)
]
