-- ===== src/Tests/Uploader.antt =====
-- The theorems about uploader/proscan-windows at concrete inputs.
use call_recorder.Prelude.{true, false, ◌≡◌, ◌≢◌, refl}
use call_recorder.Prelude.Text.{codes, text_eq, has_prefix, is_empty}
use call_recorder.Prelude.Dict.{get, put, remove, has, member, add, discard}
use call_recorder.Uploader.Effects.{Plan, attempt, done, torn_crash, remove_item, returned}
use call_recorder.Uploader.Spool.State.{Spool}
use call_recorder.Uploader.Spool.Methods.{
  remember, queue, queue_new, on_error, fill, write_json_atomic, rename_item, rename_directory,
  in_directory, make_directory, put_audio, put_manifest, new_item, item_id, hex, hex_digit,
  claim_due, complete,
}
use call_recorder.Uploader.Spool.Open.{
  open_spool, lift, scan_ledger, compact_if_large, load_entries, load_item, read_manifest,
}
use call_recorder.Uploader.Spool.Recovery.{recovers, in_ledger, in_pending}
use call_recorder.Uploader.Spool.Invariant.{IsConsistent}
use call_recorder.Uploader.Spool.Claims.{IsClaim, claim_due-IsClaim}
use call_recorder.Uploader.Spool.Finish.{complete-IsConsistent}
use call_recorder.Uploader.Spool.Accept.{queue-IsConsistent}
use call_recorder.Uploader.Spool.Restart.{member-open_spool}
use call_recorder.Uploader.Spool.Learn.{remember-IsConsistent}
use call_recorder.Uploader.Spool.Runs.{start, queues, run_remembers}
use call_recorder.Uploader.Spool.Faults.{start-blocked, complete-forgets}
use call_recorder.Tests.Spools.{
  recording, digest_of, digest_of_some, all_done, fingerprint, empty_spool,
  empty_spool-IsConsistent, one_item, no_clash, one_item-IsConsistent, spool_of, item_key, item,
  item_here,
}

member-open_spool_example :
    member (spool_of (open_spool all_done 0 one_item.disk).0).known (codes "f2")
    ≡ recovers one_item.disk (codes "f2")
unfolding queue queue_new on_error fill attempt write_json_atomic rename_item rename_directory
    in_directory make_directory put_audio put_manifest get put has remove member add discard
    new_item item_id hex hex_digit text_eq has_prefix is_empty open_spool lift scan_ledger
    compact_if_large load_entries load_item read_manifest
member-open_spool_example =
    member-open_spool all_done 0 one_item.disk (open_spool all_done 0 one_item.disk).1
      (spool_of (open_spool all_done 0 one_item.disk).0) (codes "f2") refl

complete-IsConsistent_example : IsConsistent (complete all_done 9 item_key one_item).1
complete-IsConsistent_example =
    complete-IsConsistent all_done 9 item_key one_item tt tt one_item-IsConsistent

queue-IsConsistent_example :
    IsConsistent
      (queue digest_of all_done 5 (codes "t") (codes "a.mp3") fingerprint recording empty_spool).1
unfolding is_empty
queue-IsConsistent_example =
    queue-IsConsistent digest_of digest_of_some all_done 5 (codes "t") (codes "a.mp3") fingerprint
      recording empty_spool refl refl (no_clash _) empty_spool-IsConsistent

claim_due-IsClaim_example : IsClaim 7 one_item (claim_due 7 one_item)
claim_due-IsClaim_example = claim_due-IsClaim 7 one_item

-- The removal of the item's directory dies after the files.
abbrev dies_in_removal : Plan
dies_in_removal remove_item = torn_crash
dies_in_removal _ = done

start-blocked_example :
    (open_spool all_done 0 (complete dies_in_removal 9 item_key one_item).1.disk)
    ≢ (returned one_item, one_item.disk)
start-blocked_example =
    start-blocked dies_in_removal all_done 9 0 item_key one_item one_item item one_item.disk
      one_item-IsConsistent item_here refl refl refl

-- The same spool with a torn line at the end of its ledger.
abbrev torn_spool : Spool
torn_spool = record one_item { disk = record one_item.disk { torn_line = true } }

complete-forgets_example :
    ((complete all_done 9 item_key torn_spool).0 ≡ returned tt)
    × (recovers (complete all_done 9 item_key torn_spool).1.disk fingerprint ≡ false)
unfolding queue queue_new on_error fill attempt write_json_atomic rename_item rename_directory
    in_directory make_directory put_audio put_manifest get put has remove member add discard
    new_item item_id hex hex_digit text_eq has_prefix is_empty in_ledger in_pending
complete-forgets_example =
    complete-forgets all_done 9 item_key torn_spool item item_here refl refl refl refl refl refl

run_remembers_example :
    member (spool_of (open_spool all_done 0 one_item.disk).0).known fingerprint ≡ true
unfolding queue queue_new on_error fill attempt write_json_atomic rename_item rename_directory
    in_directory make_directory put_audio put_manifest get put has remove member add discard
    new_item item_id hex hex_digit text_eq has_prefix is_empty open_spool lift scan_ledger
    compact_if_large load_entries load_item read_manifest
run_remembers_example =
    run_remembers digest_of digest_of_some all_done 0 empty_spool one_item
      (spool_of (open_spool all_done 0 one_item.disk).0) (open_spool all_done 0 one_item.disk).1
      fingerprint empty_spool-IsConsistent
      (queues all_done 5 (codes "t") (codes "a.mp3") fingerprint recording start refl refl
        (no_clash (item_id digest_of recording.request.idempotency_key fingerprint)))
      refl refl

remember-IsConsistent_example :
    IsConsistent (remember all_done 9 (codes "f9") (codes "c.mp3") one_item).1
unfolding is_empty
remember-IsConsistent_example =
    remember-IsConsistent all_done 9 (codes "f9") (codes "c.mp3") one_item tt refl
      one_item-IsConsistent
