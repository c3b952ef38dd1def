-- ===== src/Server/Ingest/Receive.antt =====
-- `receiveAudio` of backend/cmd/server/main.go: the second of the two requests by which a sender hands
-- over a call. The whole handler is one step at the time `now`; its calls of the database and of the
-- file system can each fail. Aliases, the status of receivers, notifications and transcription jobs,
-- which it writes to as well, are not part of the state.
pub mod Settled
pub mod Handler
use call_recorder.Prelude.{
  ℕ, suc, ◌+◌, ◌*◌, Bool, true, false, not, ◌&&◌, ◌||◌, Option, none, some, [], ◌∷◌, ◌++◌, length,
  take, ltb, leb, if◌then◌else◌,
}
use call_recorder.Prelude.Int.{ℤ}
use call_recorder.Prelude.Text.{Text, text_eq, is_empty, has_byte, codes, trim_space, to_upper}
use call_recorder.Prelude.Dict.{Dict, get, put, remove}
use call_recorder.Server.Limits.{minute}
use call_recorder.Server.Metadata.{CallMetadata, content_type_matches}
use call_recorder.Server.Ingest.{
  Status, pending, uploading, completed, duplicate, quarantined, expired, failed, PendingUpload,
  Ingestion, is_finished, record_ingestion_rejection,
}

-- A row of the table calls, with the columns that say what is stored and where.
pub record StoredCall : Type 0 where
  pub sender_id : Text
  pub metadata : CallMetadata
  pub audio_path : Text
  pub audio_format : Text
  pub audio_size : ℕ
  pub audio_sha256 : Text

-- The tables, and the files under the root of the audio.
pub record Store : Type 0 where
  pub ingestion : Ingestion
  pub calls : Dict StoredCall
  pub files : Dict Text

pub data ReceiveReply : Type 0 where
  not_found too_large failure token_expired stranger wrong_type busy invalid_size : ReceiveReply
  bad_audio in_quarantine : ReceiveReply
  already : Text → Status → ReceiveReply
  same_call : Text → ReceiveReply
  stored : Text → Text → ReceiveReply

-- A request: the length of the body where the headers say it, what stands behind the path's prefix, the headers, and the body, if it can be read and
-- the temporary file be written; `call_id` is what the generator of tokens says.
pub record AudioRequest : Type 0 where
  pub token : Text
  pub content_length : Option ℕ
  pub legacy : Bool
  pub sender : Text
  pub key : Text
  pub content_type : Text
  pub body : Option Text
  pub call_id : Option Text
  pub now : ℕ

-- A request that does not say its length has -1 for it.
unfoldable pub is_too_long : ℕ → Option ℕ → Bool
is_too_long max_bytes none = false
is_too_long max_bytes (some n) = ltb max_bytes n

-- The calls that may fail. `move` is os.Rename onto the final name, `sync` the sync of its directory, and
-- `remove_final` the os.Remove of that name on the way out; `acknowledge` records a quarantine or a
-- duplicate. `store` is one of the statements of the transaction, whose changes are then not made;
-- `commit` is an error of the commit that leaves them unmade, `commit_answer` one that comes after they are
-- made.
pub data Action : Type 0 where
  find expire claim release track make_directory move sync acknowledge : Action
  store commit commit_answer remove_final : Action

-- The row with this token, with its id.
unfoldable pub find_token : Text → Dict PendingUpload → Option (Text × PendingUpload)
find_token hash [] = none
find_token hash ((id, u) ∷ m) =
    let rest = find_token hash m in if text_eq u.token_hash hash then some (id, u) else rest

-- An UPDATE of the row with this id.
unfoldable pub set_upload : Text → PendingUpload → Store → Store
set_upload id u s = record s {
  ingestion = record (s.ingestion) { uploads = put s.ingestion.uploads id u };
}

unfoldable pub rejects : Text → Text → Store → Store
rejects sender reason s = record s {
  ingestion = record_ingestion_rejection sender reason s.ingestion;
}

-- The condition of the claim: the upload waits, or its lease is over.
unfoldable pub is_claimable : ℕ → PendingUpload → Bool
is_claimable now u = elim u.status [
  | pending ↦ true
  | failed ↦ true
  | uploading ↦ elim u.lease_expires_at [ none ↦ false | some t ↦ ltb t now ]
  | _ ↦ false
]

abbrev pub claimed : ℕ → PendingUpload → PendingUpload
claimed now u = record u { status = uploading; lease_expires_at = some (now + 10 * minute) }

abbrev pub released : PendingUpload → PendingUpload
released u = record u { status = pending; lease_expires_at = none }

-- One more failure of the same audio, or the first of another.
unfoldable pub track_failure : ℕ → Text → PendingUpload → PendingUpload
track_failure now digest u =
    if text_eq u.rejected_audio_sha256 digest
    then record u {
      decode_failure_count = suc u.decode_failure_count;
      decode_failure_first_at = elim u.decode_failure_first_at [
        | none ↦ some now
        | some t ↦ some t
      ];
    }
    else record u {
      decode_failure_count = 1;
      decode_failure_first_at = some now;
      rejected_audio_sha256 = digest;
    }

-- `shouldQuarantineLegacyAudio`; the first failure of a row that was tracked has a time.
unfoldable pub should_quarantine : PendingUpload → ℕ → ℕ → ℕ → Bool
should_quarantine u now required grace = elim u.decode_failure_first_at [
  | none ↦ false
  | some first ↦ leb required u.decode_failure_count && leb (first + grace) now
]

-- The arguments: `fails` says which calls fail; `day_of` is the day of a time as a path, `decodes` is
-- `validateAudioFile`, and `authenticate`, `find_duplicate` and `hash` are those of `createUpload`.
module _ (fails : Action → Bool) where
  -- The deferred UPDATE of an upload that did not finish.
  unfoldable pub give_up : Text → PendingUpload → Store → Store
  give_up id u s = if fails release then s else set_upload id (released u) s

-- The file under its final name.
unfoldable pub place : Text → Text → Store → Store
place path audio s = record s { files = put s.files path audio }

module _ (fails : Action → Bool) where
  -- os.Remove, whose error is dropped.
  unfoldable pub remove_file : Text → Store → Store
  remove_file path s = if fails remove_final then s else record s { files = remove s.files path }

module _ (day_of : ℤ → Text) where
  -- The directory of the day, the id and the format.
  unfoldable pub audio_path : CallMetadata → Text → Text → Text
  audio_path call id format = day_of call.start_time ++ b'/' ∷ id ++ b'.' ∷ format

module _ (sha256 : Text → Text) (day_of : ℤ → Text) (required grace : ℕ)
    (fails : Action → Bool) where
  -- Audio that does not decode: it is counted, and an old client's is put away after enough failures.
  unfoldable pub reject_audio :
      AudioRequest → Text → PendingUpload → Text → Store → ReceiveReply × Store
  reject_audio c id u audio s =
      let tracked = track_failure c.now (sha256 audio) u in
      let path = codes "quarantine/" ++ audio_path day_of u.metadata id u.audio_format in
      let away = record tracked { status = quarantined; lease_expires_at = none } in
      if fails track
      then (failure, give_up fails id u s)
      else if c.legacy && should_quarantine tracked c.now required grace
      then if fails make_directory || fails move
        then (failure, give_up fails id tracked (set_upload id tracked s))
        else if fails sync || fails acknowledge
        then (
          failure,
          give_up fails id tracked
              (remove_file fails path (place path audio (set_upload id tracked s))),
        )
        else (
          in_quarantine,
          rejects u.sender_id (codes "audio_quarantined") (set_upload id away (place path audio s)),
        )
      else (
        bad_audio,
        rejects u.sender_id (codes "audio_decode_failed")
            (give_up fails id tracked (set_upload id tracked s)),
      )

  -- From the file under its final name on: the sync, and the transaction with the rows. The switch that
  -- makes it fail in tests is off.
  unfoldable pub store_rows :
      Text → PendingUpload → Text → Text → Text → Store → ReceiveReply × Store
  store_rows id u call_id path audio s =
      let row : StoredCall = record {
        sender_id = u.sender_id;
        metadata = u.metadata;
        audio_path = path;
        audio_format = u.audio_format;
        audio_size = length audio;
        audio_sha256 = sha256 audio;
      } in
      let over : PendingUpload = record u {
        status = completed;
        completed_call_id = call_id;
        lease_expires_at = none;
      } in
      let made = set_upload id over (record s { calls = put s.calls call_id row }) in
      if fails sync || fails store || fails commit
      then (failure, give_up fails id u (remove_file fails path s))
      else if fails commit_answer
      then (failure, remove_file fails path made)
      else (stored call_id path, made)

  -- The call is stored with its audio: first the file, then the rows. Where the commit is made and its
  -- answer is lost, the upload is not given up, since its row is no longer being uploaded.
  unfoldable pub store_call :
      AudioRequest → Text → PendingUpload → Text → Store → ReceiveReply × Store
  unfolding store_rows
  store_call c id u audio s = elim c.call_id [
    | none ↦ (failure, give_up fails id u s)
    | some call_id ↦
        let path = audio_path day_of u.metadata call_id u.audio_format in
        if fails make_directory || fails move
        then (failure, give_up fails id u s)
        else store_rows id u call_id path audio (place path audio s)
  ]

module _ (find_duplicate : Text → CallMetadata → Option (Option Text)) (sha256 : Text → Text)
    (day_of : ℤ → Text) (decodes : Text → Text → ℤ → Bool) (max_bytes required grace : ℕ)
    (fails : Action → Bool) where
  -- Behind the claim: the transfer, the decoder and the search for the same call.
  unfoldable pub transfer : AudioRequest → Text → PendingUpload → Store → ReceiveReply × Store
  transfer c id u s = elim c.body [
    | none ↦ (failure, give_up fails id u s)
    | some body ↦
        let audio = take (max_bytes + 1) body in
        if is_empty audio || ltb max_bytes (length audio)
        then (invalid_size, give_up fails id u s)
        else if not (decodes audio u.audio_format u.metadata.duration_ms)
        then reject_audio sha256 day_of required grace fails c id u audio s
        else elim (find_duplicate u.sender_id u.metadata) [
          | none ↦ (failure, give_up fails id u s)
          | some (some call_id) ↦
              let known = record u {
                status = duplicate;
                completed_call_id = call_id;
                lease_expires_at = none;
              } in
              (same_call call_id, if fails acknowledge then s else set_upload id known s)
          | some none ↦ store_call sha256 day_of required grace fails c id u audio s
        ]
  ]

module _ (authenticate : Text → Text → Bool)
    (find_duplicate : Text → CallMetadata → Option (Option Text)) (hash : Text → Text)
    (sha256 : Text → Text) (day_of : ℤ → Text) (decodes : Text → Text → ℤ → Bool)
    (max_bytes required grace : ℕ) (fails : Action → Bool) where
  -- From the row on.
  unfoldable pub receive_for : AudioRequest → Text → PendingUpload → Store → ReceiveReply × Store
  receive_for c id u s =
      let sender = to_upper (trim_space c.sender) in
      if is_finished u.status
      then (already u.completed_call_id u.status, s)
      else if ltb u.expires_at c.now
      then (
        token_expired,
        if fails expire
            then s
            else set_upload id (record u { status = expired; lease_expires_at = none }) s,
      )
      else if not c.legacy
          && (not (text_eq sender u.sender_id) || not (authenticate u.sender_id c.key))
      then (stranger, rejects u.sender_id (codes "audio_authentication_failed") s)
      else if not (content_type_matches u.audio_format c.content_type)
      then (wrong_type, s)
      else if fails claim
      then (failure, s)
      else if not (is_claimable c.now u)
      then (busy, s)
      else transfer find_duplicate sha256 day_of decodes max_bytes required grace fails c id
          (claimed c.now u) (set_upload id (claimed c.now u) s)

  -- `receiveAudio`
  unfoldable pub receive_audio : AudioRequest → Store → ReceiveReply × Store
  unfolding is_too_long
  receive_audio c s =
      if is_empty c.token || has_byte b'/' c.token
      then (not_found, s)
      else if is_too_long max_bytes c.content_length
      then (too_large, s)
      else if fails find
      then (failure, s)
      else elim (find_token (hash c.token) s.ingestion.uploads) [
        | none ↦ (not_found, s)
        | some (id, u) ↦ receive_for c id u s
      ]
