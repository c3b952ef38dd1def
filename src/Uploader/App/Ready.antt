-- ===== src/Uploader/App/Ready.antt =====
-- `processReadyFiles` and `deferFile` of uploader/proscan-windows/app.go. One reading of the clock
-- stands for those of a run, but that of the spool, which a moment carries.
pub mod Kept
use call_recorder.Prelude.{
  ℕ, ◌+◌, ◌*◌, Bool, true, false, not, ◌&&◌, ◌||◌, Option, none, some, [], ◌∷◌, ◌++◌, if◌then◌else◌,
  ltb, take, length,
}
use call_recorder.Prelude.Text.{Text, codes}
use call_recorder.Prelude.Dict.{Dict, member}
use call_recorder.Prelude.Decimal.{decimal}
use call_recorder.Prelude.Result.{Result, ok, err}
use call_recorder.Uploader.Model.{ParsedRecording}
use call_recorder.Uploader.Effects.{Failure, Exit, returned, refused, crashed, Plan}
use call_recorder.Uploader.Config.{WatchConfig}
use call_recorder.Uploader.Fingerprint.{FileInfo, source_fingerprint, recording_fingerprint}
use call_recorder.Uploader.Spool.State.{Spool}
use call_recorder.Uploader.Spool.Delay.{sanitize_error}
use call_recorder.Uploader.Spool.Methods.{queue}
use call_recorder.Uploader.App.Observe.{ObservedFile, is_changed}

-- os.Stat of the path.
pub data Stat : Type 0 where
  missing unknown : Stat
  found : FileInfo → Stat

-- `openExclusive`: an error, a file that another program still holds, or the file with its stat and
-- with what is read of it, to its end and its closing.
pub data Opening : Type 0 where
  not_opened : Text → Opening
  held : Opening
  opened : Result FileInfo → Result Text → Opening

-- What the file system answers when a file's turn comes, and the clock, the calls and the temporary
-- name of `Queue`.
pub record Moment : Type 0 where
  pub stat : Stat
  pub opening : Opening
  pub queue_time : ℕ
  pub plan : Plan
  pub suffix : Text

-- What becomes of an observed file: the process may die in `Queue`.
pub data Turn : Type 0 where
  dropped : Turn
  kept : ObservedFile → Turn
  died : Turn

-- time.Minute in nanoseconds.
abbrev pub minute : ℕ
minute = 60 * 1000000000

-- `deferFile`
unfoldable pub defer_file : ℕ → ObservedFile → Text → ObservedFile
defer_file now o failure = record o { last_error = sanitize_error failure; next_try = now + minute }

-- The file changed once more: it has to settle again.
unfoldable pub resettled : ℕ → ObservedFile → FileInfo → ObservedFile
resettled now o info = record o { size = info.size; modified = info.modified; stable_since = now }

-- The file stays observed; there is no map any more where the process dies later.
abbrev pub with_kept :
    Text → ObservedFile → Option (Dict ObservedFile) × Spool → Option (Dict ObservedFile) × Spool
with_kept key o (some rest, s) = (some ((key, o) ∷ rest), s)
with_kept key o (none, s) = (none, s)

-- `settle` is `SettleSeconds` in nanoseconds, `credentials` the sender of `credentialsForWatch`, and
-- `parse` is `parseProScanRecording`.
module _ (sha256 absolute : Text → Text) (failure_text : Failure → Text)
    (settle max_audio_bytes : ℕ) (credentials : WatchConfig → Result Text)
    (parse : Text → Text → WatchConfig → Text → Result ParsedRecording) where
  -- The first guard: a file that waits for its next try or has not settled.
  unfoldable pub is_waiting : ℕ → ObservedFile → Bool
  is_waiting now o = ltb now o.next_try || ltb now (o.stable_since + settle)

  -- What follows `Queue`.
  unfoldable pub after_queue : ℕ → ObservedFile → Exit (Text × Bool) × Spool → Turn × Spool
  unfolding defer_file
  after_queue now o (returned queued, s) = (dropped, s)
  after_queue now o (refused e, s) = (kept (defer_file now o (failure_text e)), s)
  after_queue now o (crashed, s) = (died, s)

  unfoldable pub queue_recording :
      ℕ → Moment → ObservedFile → Text → ParsedRecording → Spool → Turn × Spool
  unfolding after_queue recording_fingerprint
  queue_recording now m o raw recording s = after_queue now o (
      queue sha256 m.plan m.queue_time m.suffix o.path
        (recording_fingerprint sha256 raw recording.request.idempotency_key) recording s)

  -- The audio is there: its size, the sender and the parsing.
  unfoldable pub with_content : ℕ → Moment → ObservedFile → Text → Spool → Turn × Spool
  unfolding defer_file queue_recording decimal
  with_content now m o raw s =
      if ltb max_audio_bytes (length raw)
      then (
        kept (
            defer_file now o (
              codes "recording exceeds max_audio_bytes (" ++ decimal max_audio_bytes ++ codes ")")),
        s,
      )
      else elim (credentials o.watch) [
        | err e ↦ (kept (defer_file now o e), s)
        | ok sender ↦ elim (parse raw o.path o.watch sender) [
          | err e ↦ (kept (defer_file now o e), s)
          | ok recording ↦ queue_recording now m o raw recording s
        ]
      ]

  -- The file is open. What is read is at most one byte more than the limit.
  unfoldable pub with_file :
      ℕ → Moment → ObservedFile → Result FileInfo → Result Text → Spool → Turn × Spool
  unfolding defer_file resettled with_content is_changed
  with_file now m o (err e) content s = (kept (defer_file now o e), s)
  with_file now m o (ok info) content s =
      if is_changed o info then (kept (resettled now o info), s) else elim content [
        | err e ↦ (kept (defer_file now o e), s)
        | ok raw ↦ with_content now m o (take (max_audio_bytes + 1) raw) s
      ]

  unfoldable pub with_opening : ℕ → Moment → ObservedFile → Opening → Spool → Turn × Spool
  unfolding with_file
  with_opening now m o (not_opened e) s = (kept (defer_file now o e), s)
  with_opening now m o held s = (kept o, s)
  with_opening now m o (opened info content) s = with_file now m o info content s

  unfoldable pub with_stat : ℕ → Moment → ObservedFile → Stat → Spool → Turn × Spool
  unfolding with_opening resettled source_fingerprint is_changed
  with_stat now m o missing s = (dropped, s)
  with_stat now m o unknown s = (kept o, s)
  with_stat now m o (found info) s =
      if is_changed o info
      then (kept (resettled now o info), s)
      else if member s.known (source_fingerprint sha256 absolute o.path info)
      then (dropped, s)
      else with_opening now m o m.opening s

  -- The body of the loop.
  unfoldable pub process_file : ℕ → Moment → ObservedFile → Spool → Turn × Spool
  unfolding is_waiting with_stat
  process_file now m o s = if is_waiting now o then (kept o, s) else with_stat now m o m.stat s

  -- `processReadyFiles`: the files in the order in which the map gives them.
  unfoldable pub process_ready_files :
      ℕ → (Text → Moment) → Dict ObservedFile → Spool → Option (Dict ObservedFile) × Spool
  unfolding process_file
  process_ready_files now at [] s = (some [], s)
  process_ready_files now at ((key, o) ∷ m) s =
      let turn = process_file now (at key) o s in
      elim turn.0 [
        | died ↦ (none, turn.1)
        | dropped ↦ process_ready_files now at m turn.1
        | kept next ↦ with_kept key next (process_ready_files now at m turn.1)
      ]
