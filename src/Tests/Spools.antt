-- ===== src/Tests/Spools.antt =====
-- Concrete spools for the tests of uploader/proscan-windows/spool.go.
use call_recorder.Prelude.{true, false, none, some, [], ◌∷◌, ◌≡◌, refl}
use call_recorder.Prelude.Text.{text_eq, Text, codes, is_empty}
use call_recorder.Prelude.Dict.{get, put, remove, add, member, has}
use call_recorder.Uploader.Model.{
  CallMetadata, CreateUploadRequest, ProScanMetadata, ParsedRecording,
}
use call_recorder.Uploader.Effects.{attempt, Exit, returned, Plan, done}
use call_recorder.Uploader.Spool.Disk.{SpoolItem}
use call_recorder.Uploader.Spool.State.{Spool}
use call_recorder.Uploader.Spool.Methods.{
  queue, queue_new, on_error, fill, write_json_atomic, rename_item, rename_directory, in_directory,
  make_directory, put_audio, put_manifest, new_item, item_id, hex, hex_digit,
}
use call_recorder.Uploader.Spool.Invariant.{IsConsistent}
use call_recorder.Uploader.Spool.Accept.{queue-IsConsistent}

abbrev pub call : CallMetadata
call = record {
  source_call_id = codes "PROSCAN-1";
  start_time = codes "2026-01-02T03:04:05Z";
  duration_ms = 1500;
  receiver_id = codes "BCD996P2";
  system_id = codes "LANARK";
  system_name = codes "Lanark";
  site_id = [];
  site_name = [];
  talkgroup_id = codes "FIRE";
  talkgroup_name = codes "Fire";
  talkgroup_tag = [];
  radio_id = [];
  frequency = [];
  voice_service = [];
  call_type = [];
  group_call = none;
  notes = [];
}

abbrev pub request : CreateUploadRequest
request = record {
  sender_id = codes "SCANNER";
  idempotency_key = codes "k";
  audio_format = codes "mp3";
  call = call;
}

abbrev pub no_tags : ProScanMetadata
no_tags = record {
  start = 0;
  «end» = 0;
  scanner = [];
  favorite = [];
  system = [];
  site = [];
  department = [];
  channel = [];
  frequency = [];
  modulation = [];
  tone = [];
  tgid = [];
  uid = [];
  rssi = [];
  service_type = [];
  digital_status = [];
  dmr_slot = [];
}

abbrev pub recording : ParsedRecording
recording = record {
  request = request;
  audio_bytes = 1 ∷ 2 ∷ 3 ∷ [];
  audio_format = codes "mp3";
  original_name = codes "a.mp3";
  embedded = no_tags;
  audio_duration = 1500000000;
}

-- A stand-in for SHA-256 whose digests are not empty.
abbrev pub digest_of : Text → Text
digest_of x = 7 ∷ x

pub digest_of_some : (x : Text) → is_empty (digest_of x) ≡ false
unfolding is_empty
digest_of_some x = refl

-- Every call does what it was asked for.
abbrev pub all_done : Plan
all_done _ = done

abbrev pub fingerprint : Text
fingerprint = codes "f1"

abbrev pub empty_spool : Spool
empty_spool = record {
  items = [];
  known = [];
  in_flight = [];
  disk = record { ledger = []; torn_line = false; pending = [] };
}

pub empty_spool-IsConsistent : IsConsistent empty_spool
unfolding get member
empty_spool-IsConsistent = record {
  distinct = tt;
  whole = refl;
  durable = λ f h. absurd (cc);
  backed = λ k item h. absurd (cc);
}

-- The spool behind the first recording.
abbrev pub one_item : Spool
one_item =
    (queue digest_of all_done 5 (codes "t") (codes "a.mp3") fingerprint recording empty_spool).1

pub no_clash :
    (id : Text) → has empty_spool.items id ≡ true → member empty_spool.known fingerprint ≡ true
unfolding has
no_clash id h = absurd (cc)

pub one_item-IsConsistent : IsConsistent one_item
unfolding is_empty
one_item-IsConsistent =
    queue-IsConsistent digest_of digest_of_some all_done 5 (codes "t") (codes "a.mp3") fingerprint
      recording empty_spool refl refl (no_clash _) empty_spool-IsConsistent

-- The spool that a start returns.
abbrev pub spool_of : Exit Spool → Spool
spool_of (returned t) = t
spool_of _ = empty_spool

abbrev pub item_key : Text
item_key = item_id digest_of request.idempotency_key fingerprint

abbrev pub item : SpoolItem
item = record (new_item digest_of (codes "a.mp3") fingerprint recording 5) { directory = item_key }

-- The item stands in memory under its id.
pub item_here : get one_item.items item_key ≡ some item
unfolding queue queue_new on_error fill attempt write_json_atomic rename_item rename_directory
    in_directory make_directory put_audio put_manifest get put has remove member add new_item
    item_id hex hex_digit text_eq
item_here = refl
