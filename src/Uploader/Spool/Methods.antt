-- ===== src/Uploader/Spool/Methods.antt =====
-- The methods of `durableSpool` (uploader/proscan-windows/spool.go). `directory` of an item is
-- the name of its directory under pending/. The mutex makes each method one step. `now` is what
-- the clock says, a plan what the operating system answers.
use call_recorder.Prelude.{
  ℕ, ◌+◌, ◌-◌, ◌/◌, ◌%◌, ◌==◌, Bool, true, false, not, ◌&&◌, Option, none, some, List, [], ◌∷◌,
  ◌++◌, if◌then◌else◌, leb, ltb, take, length,
}
use call_recorder.Prelude.Text.{Text, codes}
use call_recorder.Prelude.Dict.{Dict, get, put, has, remove, member, add, discard}
use call_recorder.Uploader.Model.{ParsedRecording}
use call_recorder.Uploader.Effects.{
  returned, refused, crashed, Exec, ◌>>◌, pure, modify, attempt, Plan, io_error, make_temporary,
  write_audio, write_manifest, replace_manifest, rename_temporary, remove_temporary, append_ledger,
  sync_ledger, remove_item,
}
use call_recorder.Uploader.Spool.Disk.{
  SpoolItem, CompletedRecord, PendingDirectory, directory, Disk, append_record, append_part,
}
use call_recorder.Uploader.Spool.State.{Spool}
use call_recorder.Uploader.Spool.Delay.{retry_delay, sanitize_error}

-- A change of the disk alone.
abbrev pub on_disk : (Disk → Disk) → Spool → Spool
on_disk f s = record s { disk = f s.disk }

-- `Known`
unfoldable pub is_known : Spool → Text → Bool
is_known s fingerprint = member s.known fingerprint

unfoldable pub hex_digit : ℕ → ℕ
hex_digit n = if ltb n 10 then b'0' + n else b'a' + (n - 10)

-- hex.EncodeToString
unfoldable pub hex : Text → Text
unfolding hex_digit
hex [] = []
hex (b ∷ s) = hex_digit (b / 16) ∷ hex_digit (b % 16) ∷ hex s

-- os.MkdirTemp names a directory that is being filled by this prefix: it is no item yet.
abbrev pub queue_prefix : Text
queue_prefix = codes ".queue-"

-- A change of one directory of pending/; what is no directory stays as it is.
unfoldable pub in_directory : Text → (PendingDirectory → PendingDirectory) → Disk → Disk
in_directory name f d = elim (get d.pending name) [
  | some (directory p) ↦ record d { pending = put d.pending name (directory (f p)) }
  | _ ↦ d
]

unfoldable pub make_directory : Text → Disk → Disk
make_directory name d = record d {
  pending = put d.pending name (directory (record { manifest = none; audio = [] }));
}

unfoldable pub remove_directory : Text → Disk → Disk
remove_directory name d = record d { pending = remove d.pending name }

-- os.RemoveAll that stops on its way has removed the files and not the directory.
unfoldable pub empty_directory : Text → Disk → Disk
unfolding in_directory
empty_directory name = in_directory name (λ p. record { manifest = none; audio = [] })

unfoldable pub put_audio : Text → Text → Text → Disk → Disk
unfolding in_directory
put_audio name file bytes = in_directory name (λ p. record p { audio = put p.audio file bytes })

-- The manifest as JSON, which has no `directory`.
unfoldable pub put_manifest : Text → SpoolItem → Disk → Disk
unfolding in_directory
put_manifest name item =
    in_directory name (λ p. record p { manifest = some (record item { directory = [] }) })

-- os.Rename, once the new name is known to be free.
unfoldable pub rename_directory : Text → Text → Disk → Disk
rename_directory old new d = elim (get d.pending old) [
  | some e ↦ record d { pending = put (remove d.pending old) new e }
  | none ↦ d
]

-- `writeJSONAtomic`: a temporary file, then a rename that is done or not. What is left of the
-- temporary file is never read.
unfoldable pub write_json_atomic : Plan → Text → SpoolItem → Exec Spool (Unit {0})
unfolding attempt
write_json_atomic plan name item = do
  attempt (plan write_manifest) (λ s. s) (λ s. s)
  attempt (plan replace_manifest) (on_disk (put_manifest name item)) (λ s. s)

-- A deferred function runs after a return, with or without an error, and not after a crash.
unfoldable pub on_error : {A : Type 0} → Exec Spool A → Exec Spool A → Exec Spool A
on_error body handler s = elim (body s).0 [
  | returned a ↦ body s
  | refused e ↦ handler (body s).1
  | crashed ↦ body s
]

-- os.Rename refuses a new name that is a directory, whether that is empty or not (Go looks for one before
-- the call of the system).
unfoldable pub rename_item : Plan → Text → Text → Exec Spool (Unit {0})
unfolding attempt
rename_item plan old new s = elim (get s.disk.pending new) [
  | some e ↦ (refused io_error, s)
  | none ↦ attempt (plan rename_temporary) (on_disk (rename_directory old new)) (λ t. t) s
]

module _ (sha256 : Text → Text) where
  -- The first 16 bytes of the digest of the call's key and the fingerprint, in hexadecimal.
  unfoldable pub item_id : Text → Text → Text
  unfolding hex
  item_id key fingerprint = hex (take 16 (sha256 (key ++ 0 ∷ fingerprint)))

  unfoldable pub new_item : Text → Text → ParsedRecording → ℕ → SpoolItem
  new_item source_path fingerprint recording now = record {
    id = item_id recording.request.idempotency_key fingerprint;
    source_path = source_path;
    fingerprint = fingerprint;
    audio_file = codes "audio." ++ recording.audio_format;
    request = recording.request;
    attempts = 0;
    next_attempt = now;
    last_error = [];
    created_at = now;
    directory = [];
  }

-- The part of `Queue` behind os.MkdirTemp, up to the rename.
unfoldable pub fill : Plan → Text → Text → SpoolItem → Exec Spool (Unit {0})
unfolding attempt
fill plan temporary bytes item = do
  attempt (plan write_audio) (on_disk (put_audio temporary item.audio_file bytes))
      (on_disk (put_audio temporary item.audio_file []))
  write_json_atomic plan temporary item
  rename_item plan temporary item.id

-- `Queue` for an item that is new.
unfoldable pub queue_new : Plan → Text → Text → SpoolItem → Exec Spool (Text × Bool)
unfolding attempt
queue_new plan temporary bytes item = do
  attempt (plan make_temporary) (on_disk (make_directory temporary)) (λ t. t)
  on_error (fill plan temporary bytes item) (
      attempt (plan remove_temporary) (on_disk (remove_directory temporary)) (λ t. t) >> λ t.
      (refused io_error, t))
  modify (λ t. record t {
    items = put t.items item.id (record item { directory = item.id });
    known = add t.known item.fingerprint;
  })
  pure (item.id, true)

module _ (sha256 : Text → Text) where
  -- `Queue`; `suffix` is what os.MkdirTemp adds to the prefix. The result is the id and whether
  -- the recording is new.
  unfoldable pub queue : Plan → ℕ → Text → Text → Text → ParsedRecording → Exec Spool (Text × Bool)
  queue plan now suffix source_path fingerprint recording s =
      let item = new_item sha256 source_path fingerprint recording now in
      if member s.known fingerprint
      then (returned ([], false), s)
      else if has s.items item.id
      then (returned (item.id, false), record s { known = add s.known fingerprint })
      else queue_new plan (queue_prefix ++ suffix) recording.audio_bytes item s

-- The order in which `ClaimDue` sorts: by the next attempt, then by the time of creation.
unfoldable pub less : SpoolItem → SpoolItem → Bool
less a b =
    if a.next_attempt == b.next_attempt
    then ltb a.created_at b.created_at
    else ltb a.next_attempt b.next_attempt

unfoldable pub is_due : Spool → ℕ → SpoolItem → Bool
is_due s now item = not (member s.in_flight item.id) && leb item.next_attempt now

unfoldable pub due_items : Spool → ℕ → Dict SpoolItem → List SpoolItem
unfolding is_due
due_items s now [] = []
due_items s now ((k, item) ∷ m) =
    let rest = due_items s now m in if is_due s now item then item ∷ rest else rest

-- The head of the sorted list: an item that no other is less than.
unfoldable pub first_of : SpoolItem → List SpoolItem → SpoolItem
unfolding less
first_of best [] = best
first_of best (x ∷ xs) = first_of (if less x best then x else best) xs

unfoldable pub first_due : List SpoolItem → Option SpoolItem
first_due [] = none
first_due (x ∷ xs) = some (first_of x xs)

-- `ClaimDue`
unfoldable pub claim_due : ℕ → Spool → Option SpoolItem × Spool
claim_due now s = elim (first_due (due_items s now s.items)) [
  | none ↦ (none, s)
  | some item ↦ (some item, record s { in_flight = add s.in_flight item.id })
]

abbrev pub release : Text → Spool → Spool
release id s = record s { in_flight = discard s.in_flight id }

-- What a method does last, error or not.
unfoldable pub finally : {A : Type 0} → Exec Spool A → (Spool → Spool) → Exec Spool A
finally m f s = ((m s).0, f (m s).1)

unfoldable pub retried : SpoolItem → Text → ℕ → SpoolItem
retried item failure now = record item {
  attempts = item.attempts + 1;
  last_error = sanitize_error failure;
  next_attempt = now + retry_delay (item.attempts + 1);
}

-- `Retry`: the item in memory is changed also where its manifest cannot be written.
unfoldable pub retry : Plan → ℕ → Text → Text → Exec Spool (Unit {0})
unfolding finally write_json_atomic
retry plan now id failure s = elim (get s.items id) [
  | none ↦ (returned tt, release id s)
  | some current ↦
      let changed = retried current failure now in
      finally (write_json_atomic plan current.directory changed) (release id)
        (record s { items = put s.items id changed })
]

unfoldable pub completed : SpoolItem → ℕ → CompletedRecord
completed item now = record {
  fingerprint = item.fingerprint;
  source_path = item.source_path;
  completed_at = now;
}

-- `Complete`: every return releases the item.
unfoldable pub complete : Plan → ℕ → Text → Exec Spool (Unit {0})
unfolding finally attempt
complete plan now id s = elim (get s.items id) [
  | none ↦ (returned tt, release id s)
  | some current ↦
      finally
        (do
          attempt (plan append_ledger) (on_disk (append_record (completed current now)))
              (on_disk append_part)
          attempt (plan sync_ledger) (λ t. t) (λ t. t)
          attempt (plan remove_item) (on_disk (remove_directory current.directory))
              (on_disk (empty_directory current.directory))
          modify (λ t. record t { items = remove t.items id }))
        (release id) s
]

-- `Remember`
unfoldable pub remember : Plan → ℕ → Text → Text → Exec Spool (Unit {0})
unfolding attempt
remember plan now fingerprint source_path s =
    if member s.known fingerprint
    then (returned tt, s)
    else (do
      attempt (plan append_ledger)
          (on_disk (
            append_record (record {
              fingerprint = fingerprint;
              source_path = source_path;
              completed_at = now;
            })))
          (on_disk append_part)
      attempt (plan sync_ledger) (λ t. t) (λ t. t)
      modify (λ t. record t { known = add t.known fingerprint }))
        s

-- `Counts`
unfoldable pub counts : Spool → ℕ × ℕ
counts s = (length s.items, length s.in_flight)
