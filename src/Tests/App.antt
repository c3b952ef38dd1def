-- ===== src/Tests/App.antt =====
-- The theorems about uploader/proscan-windows/app.go and proscan.go at concrete inputs.
use call_recorder.Prelude.{ℕ, ◌≡◌, refl, true, false, Bool, some, [], ◌∷◌, ◌⊎◌, inl, take, All}
use call_recorder.Prelude.Text.{
  Text, codes, text_eq, is_empty, has_prefix, to_lower, lower_byte, equal_fold,
}
use call_recorder.Prelude.Dict.{get, put, remove, has, member, add, discard}
use call_recorder.Prelude.Result.{Result, ok}
use call_recorder.Uploader.Model.{ParsedRecording}
use call_recorder.Uploader.Effects.{Failure, attempt, done}
use call_recorder.Uploader.Client.{LoggerClient}
use call_recorder.Uploader.Config.{WatchConfig, or_true}
use call_recorder.Uploader.Fingerprint.{FileInfo, source_fingerprint, recording_fingerprint}
use call_recorder.Uploader.Spool.Disk.{SpoolItem}
use call_recorder.Uploader.Spool.State.{Spool}
use call_recorder.Uploader.Spool.Methods.{
  queue, queue_new, on_error, fill, write_json_atomic, rename_item, rename_directory, in_directory,
  make_directory, put_audio, put_manifest, new_item, item_id, hex, hex_digit, claim_due, due_items,
  is_due, first_due, first_of, complete, finally,
}
use call_recorder.Uploader.App.Paths.{
  base, base_onto, ext, ext_onto, is_supported_recording, normalize_path,
}
use call_recorder.Uploader.App.Worker.{
  Clients, choose_client, settle_item, send_item, handle_item, after_claim, work,
}
use call_recorder.Uploader.App.Worker.Rounds.{Confirmed, drops-Confirmed, work_holds}
use call_recorder.Uploader.App.Observe.{
  ObservedFile, Watching, Entries, file_at, no_entries, then_entry, directory_at, is_changed,
  observe_at, observe, add_watch, scan_file, scan_entry, scan_directory,
}
use call_recorder.Uploader.App.Observe.Scans.{ReachesIn, IsSeen, scan_directory-IsSeen}
use call_recorder.Uploader.App.Ready.{
  found, opened, Moment, is_waiting, after_queue, queue_recording, with_content, with_file,
  with_opening, with_stat, process_file, process_ready_files,
}
use call_recorder.Uploader.App.Ready.Kept.{Accounted, process_ready_files-Accounted}
use call_recorder.Uploader.App.Source.{Files, CopyPlan, is_done, partial_name, copy_uploaded_source}
use call_recorder.Uploader.App.Source.Copies.{
  Ends, Holds, IsSame, IsStuck, copy_uploaded_source-Holds, copy_uploaded_source-IsStuck,
}
use call_recorder.Uploader.ProScan.{stable_identifier}
use call_recorder.Uploader.ProScan.Identifier.{is_stable_byte, stable_identifier_idem}
use call_recorder.Tests.Spools.{
  digest_of, all_done, empty_spool, one_item, item_key, item, item_here, recording,
}
use call_recorder.Tests.Sender.{client, watch}

-- A server and a directory that take everything, and one client for all.
abbrev sends : LoggerClient → SpoolItem → ℕ → Result (Text × Bool) × ℕ
sends c i w = (ok (codes "c1", false), w)

abbrev settles : SpoolItem → ℕ → Result Text × ℕ
settles i w = (ok [], w)

abbrev clients : Clients
clients = record { by_sender = []; global = some client; by_system = [] }

drops-Confirmed_example :
    (i : SpoolItem) × ((claim_due 9 one_item).0 ≡ some i)
    × (item_key ≡ i.id)
    × Confirmed sends settles clients all_done 9 i 0
unfolding queue queue_new on_error fill attempt write_json_atomic rename_item rename_directory
    in_directory make_directory put_audio put_manifest get put has remove member add discard
    new_item item_id hex hex_digit text_eq has_prefix is_empty claim_due due_items is_due first_due
    first_of complete finally work after_claim handle_item choose_client send_item settle_item
drops-Confirmed_example =
    drops-Confirmed sends settles clients all_done 9 one_item 0 item_key item item_here refl

-- Another worker holds another item.
abbrev busy_spool : Spool
busy_spool = record one_item { in_flight = codes "x" ∷ [] }

work_holds_example : member busy_spool.in_flight (codes "x") ≡ true
unfolding queue queue_new on_error fill attempt write_json_atomic rename_item rename_directory
    in_directory make_directory put_audio put_manifest get put has remove member add discard
    new_item item_id hex hex_digit text_eq has_prefix is_empty claim_due due_items is_due first_due
    first_of complete finally work after_claim handle_item choose_client send_item settle_item
work_holds_example = work_holds sends settles clients all_done 9 busy_spool 0 (codes "x") refl

abbrev info : FileInfo
info = record { size = 3; modified = 100 }

abbrev files : Entries
files = then_entry (file_at (codes "/rec/a.mp3") (some info)) no_entries

abbrev nothing_seen : Watching
nothing_seen = record { observations = []; watched_dirs = []; spool = empty_spool }

abbrev scanned : Watching
unfolding scan_directory
scanned =
    (scan_directory b'/' digest_of (λ p. p) (λ p. true) watch 50 (λ p. all_done) false true
      (directory_at (codes "/rec") files) nothing_seen).1

scan_directory-IsSeen_example :
    IsSeen b'/' digest_of
      (λ p. p)
      (λ p. true)
      watch
      50
      (λ p. all_done)
      false
      true
      (codes "/rec/a.mp3")
      info
      scanned
unfolding scan_directory scan_entry scan_file or_true add_watch member add is_supported_recording
    ext ext_onto equal_fold to_lower lower_byte text_eq observe observe_at normalize_path get put
    ReachesIn
scan_directory-IsSeen_example =
    scan_directory-IsSeen b'/' digest_of (λ p. p) (λ p. true) watch 50 (λ p. all_done) false true
      (codes "/rec") files nothing_seen scanned (codes "/rec/a.mp3") info refl (inl (refl, refl))
      refl

-- A file that has settled, and what its turn finds.
abbrev settled_file : ObservedFile
settled_file = record {
  path = codes "/rec/a.mp3";
  watch = watch;
  size = 3;
  modified = 100;
  stable_since = 50;
  next_try = 0;
  last_error = [];
}

abbrev turn : Text → Moment
turn key = record {
  stat = found info;
  opening = opened (ok info) (ok (1 ∷ 2 ∷ 3 ∷ []));
  queue_time = 90;
  plan = all_done;
  suffix = codes "t";
}

abbrev one_sender : WatchConfig → Result Text
one_sender w = ok (codes "SCANNER")

abbrev parses : Text → Text → WatchConfig → Text → Result ParsedRecording
parses audio path w sender = ok recording

abbrev no_failure : Failure → Text
no_failure e = []

abbrev after_run : Spool
unfolding process_ready_files
after_run =
    (process_ready_files digest_of (λ p. p) no_failure 30 4096 one_sender parses 90 turn
      ((codes "/rec/a.mp3", settled_file) ∷ []) empty_spool).1

process_ready_files-Accounted_example :
    (false ≡ true)
    ⊎ Accounted digest_of
        (λ p. p)
        no_failure
        30
        4096
        one_sender
        parses
        (turn (codes "/rec/a.mp3"))
        settled_file
        after_run
unfolding process_ready_files process_file is_waiting with_stat with_opening with_file with_content
    queue_recording after_queue is_changed source_fingerprint recording_fingerprint queue queue_new
    on_error fill attempt write_json_atomic rename_item rename_directory in_directory make_directory
    put_audio put_manifest get put has remove member add new_item item_id hex hex_digit text_eq
    is_empty
process_ready_files-Accounted_example =
    process_ready_files-Accounted digest_of (λ p. p) no_failure 30 4096 one_sender parses 90 turn
      ((codes "/rec/a.mp3", settled_file) ∷ []) [] empty_spool after_run (codes "/rec/a.mp3")
      settled_file refl (inl (refl, refl))

abbrev copies : CopyPlan
copies call = done

copy_uploaded_source-Holds_example :
    Ends
      (Holds (IsSame b'/' digest_of copies (1 ∷ 2 ∷ [])) [])
      []
      (copy_uploaded_source b'/' digest_of copies (some (1 ∷ 2 ∷ [])) item [])
unfolding is_done
copy_uploaded_source-Holds_example =
    copy_uploaded_source-Holds b'/' digest_of copies (1 ∷ 2 ∷ []) item [] refl refl

-- What a copy that died has left.
abbrev leftover : Files
leftover = (partial_name (take 12 item_key) (codes "a.mp3"), []) ∷ []

copy_uploaded_source-IsStuck_example :
    IsStuck b'/' digest_of copies
      (1 ∷ 2 ∷ [])
      leftover
      (copy_uploaded_source b'/' digest_of copies (some (1 ∷ 2 ∷ [])) item leftover)
unfolding partial_name base base_onto get has text_eq item_id hex hex_digit new_item
copy_uploaded_source-IsStuck_example =
    copy_uploaded_source-IsStuck b'/' digest_of copies (1 ∷ 2 ∷ []) item leftover refl refl

stable_identifier_idem_example :
    All (λ c. is_stable_byte c ≡ true) (stable_identifier (codes " 154.310 MHz "))
    × (stable_identifier (stable_identifier (codes " 154.310 MHz "))
        ≡ stable_identifier (codes " 154.310 MHz "))
stable_identifier_idem_example = stable_identifier_idem (codes " 154.310 MHz ")
