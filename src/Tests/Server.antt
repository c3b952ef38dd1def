-- ===== src/Tests/Server.antt =====
-- The theorems about backend/cmd/server at concrete inputs.
use call_recorder.Prelude.{
  ℕ, Bool, true, false, none, some, List, [], ◌∷◌, ◌≡◌, refl, Option, arith,
}
use call_recorder.Prelude.Int.{is_zero, pos}
use call_recorder.Prelude.Text.{
  Text, codes, text_eq, is_empty, has_prefix, contains_any, has_byte, trim_space, trim_left,
  trim_right, is_space, to_lower, lower_byte,
}
use call_recorder.Prelude.Dict.{Dict, has, get, put}
use call_recorder.Server.Limits.{
  IngestionWindow, login_key, login_blocked, record_login_failure, failure_count,
}
use call_recorder.Server.Login.{
  User, LoginRequest, too_many, safe_return, check_password, is_enabled, hash_to_check,
}
use call_recorder.Server.Login.Lockout.{
  Attempt, after_attempts, AllInvalid, IsClose, five_failures_lock, safe_return_is_path,
}
use call_recorder.Server.Metadata.{
  normalize, PatchMetadata, CallMetadata, UploadRequest, validate_metadata,
  canonicalize_incoming_call, unique_patches, any_over, any_control, is_outside,
}
use call_recorder.Server.Metadata.Patches.{IsUnique, AreOf, AreMet, ids, unique_patches-IsComplete}
use call_recorder.Server.Metadata.Canonical.{canonicalize_incoming_call-IsValid}
use call_recorder.Server.Ingest.{
  Status, pending, completed, PendingUpload, Ingestion, CreateRequest, Statement, is_finished,
  is_leased, find_key, has_key, has_token, reuse, create_upload,
}
use call_recorder.Server.Ingest.Create.{create_upload_keeps_finished}
use call_recorder.Server.Ingest.Accepted.{WaitsAt, reuse_reopens}
use call_recorder.Server.Ingest.Promise.{Promise, create_upload-Promise}

abbrev times : List ℕ
times = 2000 ∷ 3000 ∷ []

abbrev window : IngestionWindow
window = record { count = 599; start = 1000 }

-- Every password is right, and every user may sign in.
abbrev pub always : Text → Text → Bool
always hash password = true

abbrev anyone : Text → Option User
anyone name = some (record { password_hash = []; enabled = true })

abbrev sign_in : LoginRequest
sign_in = record {
  from_proxy = false;
  is_get = false;
  form_ok = true;
  remote = codes "h";
  username = codes "root";
  password = codes "secret";
  return_url = codes "/status";
}

abbrev is_secret : Text → Text → Bool
is_secret hash password = text_eq password (codes "secret")

-- A sign-in with a wrong password.
abbrev wrong_at : ℕ → Attempt
wrong_at t = record {
  time = t;
  session = true;
  request = record sign_in { password = codes "guess" };
}

abbrev wrong_later : List Attempt
wrong_later = wrong_at 2000 ∷ wrong_at 3000 ∷ wrong_at 4000 ∷ wrong_at 5000 ∷ []

abbrev right_at_last : Attempt
right_at_last = record { time = 6000; session = true; request = sign_in }

five_failures_lock_example :
    check_password is_secret [] anyone 6000 true sign_in
      (after_attempts is_secret [] anyone (wrong_at 1000 ∷ wrong_later) [])
    ≡ (too_many, after_attempts is_secret [] anyone (wrong_at 1000 ∷ wrong_later) [])
unfolding IsClose AllInvalid check_password login_blocked record_login_failure failure_count get put
    text_eq login_key is_enabled trim_space trim_left trim_right is_space hash_to_check to_lower
    lower_byte
five_failures_lock_example =
    five_failures_lock is_secret [] anyone (wrong_at 1000) wrong_later right_at_last []
      (omega arith)
      (
        refl,
        refl,
        refl,
        (refl, refl, refl, (refl, refl, refl, (refl, refl, refl, (refl, refl, refl, tt)))),
      )
      (omega arith, (omega arith, (omega arith, (omega arith, omega arith))))

safe_return_is_path_example :
    (has_prefix (safe_return (codes "//evil.example") (codes "/")) (codes "/") ≡ true)
    × (has_prefix (safe_return (codes "//evil.example") (codes "/")) (codes "//") ≡ false)
    × (contains_any (safe_return (codes "//evil.example") (codes "/")) (13 ∷ 10 ∷ []) ≡ false)
safe_return_is_path_example = safe_return_is_path (codes "//evil.example")

abbrev patch : Text → PatchMetadata
patch id = record { talkgroup_id = id; talkgroup_name = codes "Fire" }

abbrev patches : List PatchMetadata
patches = patch (codes "7") ∷ patch (codes " 7 ") ∷ patch [] ∷ []

unique_patches-IsComplete_example :
    IsUnique [] (unique_patches patches)
    × AreOf patches (unique_patches patches)
    × AreMet (ids (unique_patches patches)) patches
unique_patches-IsComplete_example = unique_patches-IsComplete patches

abbrev pub call : CallMetadata
call = record {
  imported = false;
  source_call_id = codes "1";
  start_time = pos 5000;
  duration_ms = pos 1500;
  receiver_id = codes "bcd996p2";
  system_id = codes "LANARK";
  system_name = [];
  site_id = [];
  site_name = [];
  talkgroup_id = codes "FIRE";
  talkgroup_name = [];
  talkgroup_tag = [];
  radio_id = [];
  radio_name = [];
  radio_tag = [];
  frequency = [];
  lcn = [];
  voice_service = [];
  call_type = [];
  group_call = none;
  audio_offset_ms = some (pos 20);
  transcript = [];
  notes = [];
  patches = patch (codes "7") ∷ [];
}

abbrev upload : UploadRequest
upload = record {
  sender_id = codes "SCANNER";
  idempotency_key = [];
  audio_format = codes "mp3";
  call = call;
}

canonicalize_incoming_call-IsValid_example :
    validate_metadata 6000
      (record upload { call = canonicalize_incoming_call (codes "SCANNER") call })
    ≡ none
unfolding validate_metadata any_over any_control contains_any has_byte is_zero is_outside text_eq
    is_empty
canonicalize_incoming_call-IsValid_example = canonicalize_incoming_call-IsValid 6000 upload refl

abbrev pub keyed_upload : UploadRequest
keyed_upload = record upload { idempotency_key = codes "k" }

abbrev post : CreateRequest
post = record {
  body = some keyed_upload;
  key = codes "secret";
  remote = codes "h";
  now = 6000;
  token = some (codes "t2");
  upload_id = some (codes "u2");
}

-- An upload of the same key whose call is stored, or which waits.
abbrev pub row : Status → PendingUpload
row status = record {
  token_hash = codes "t1";
  sender_id = codes "SCANNER";
  idempotency_key = codes "k";
  metadata = call;
  audio_format = codes "mp3";
  expires_at = 9000;
  status = status;
  completed_call_id = codes "c1";
  lease_expires_at = none;
  decode_failure_count = 0;
  decode_failure_first_at = none;
  rejected_audio_sha256 = [];
}

abbrev pub table : Status → Ingestion
table status = record { rates = []; uploads = (codes "u1", row status) ∷ []; rejections = [] }

abbrev pub no_duplicate : Text → CallMetadata → Option (Option Text)
no_duplicate _ _ = some none

abbrev pub no_hash : Text → Text
no_hash token = token

abbrev pub never : Statement → Bool
never _ = false

create_upload_keeps_finished_example :
    get
      (create_upload always no_duplicate no_hash 100 never
        (λ m. m)
        post
        (table completed)).1.uploads
      (codes "u1")
    ≡ some (row completed)
unfolding get has text_eq is_finished
create_upload_keeps_finished_example =
    create_upload_keeps_finished always no_duplicate no_hash 100 never post (table completed)
      (codes "u1") (row completed) (refl, tt) refl refl

create_upload-Promise_example :
    Promise always no_duplicate no_hash 100 never post
      (normalize keyed_upload)
      (create_upload always no_duplicate no_hash 100 never (λ m. m) post (table pending)).0
      (create_upload always no_duplicate no_hash 100 never (λ m. m) post (table pending)).1.uploads
unfolding has
create_upload-Promise_example =
    create_upload-Promise always no_duplicate no_hash 100 never post keyed_upload (table pending)
      refl (refl, tt)

-- Another request finishes the upload in between.
abbrev finishes : Dict PendingUpload → Dict PendingUpload
finishes m = (codes "u1", row completed) ∷ []

reuse_reopens_example :
    WaitsAt
      (codes "u1")
      (codes "t2")
      call
      6100
      (reuse no_hash 100 never finishes post keyed_upload (codes "t2") (table pending)).1.uploads
unfolding get text_eq find_key has_key is_finished is_leased has_token
reuse_reopens_example =
    reuse_reopens no_hash 100 never finishes post keyed_upload (codes "t2") (codes "u1")
      (row pending) (row completed) (table pending) refl refl refl refl refl refl refl refl
