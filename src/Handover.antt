-- ===== src/Handover.antt =====
-- The two sides of an upload together: `Upload` of uploader/proscan-windows/client.go against
-- `createUpload` and `receiveAudio` of backend/cmd/server/main.go. What a handler answers is the response
-- that the client decodes, unless the network loses it.
pub mod Carries
pub mod Delivered
use call_recorder.Prelude.{
  ℕ, ◌+◌, Bool, true, false, Option, none, some, [], ◌∷◌, ◌++◌, if◌then◌else◌, length,
}
use call_recorder.Prelude.Int.{ℤ}
use call_recorder.Prelude.Text.{Text, codes}
use call_recorder.Prelude.Dict.{Dict}
use call_recorder.Prelude.Result.{Result}
use call_recorder.Uploader.Model.{CreateUploadRequest, UploadResponse}
use call_recorder.Uploader.Client.{LoggerClient, json, HttpResponse, upload}
use call_recorder.Server.Metadata.{
  CallMetadata, UploadRequest, MetadataError, bad_sender, bad_format, bad_time, missing_identifier,
  too_long, too_many_patches, control_character, bad_offset, in_future,
}
use call_recorder.Server.Ingest.{
  Status, pending, uploading, completed, duplicate, quarantined, expired, failed, PendingUpload,
  CreateReply, invalid_json, unauthorized, rate_limited, internal_error, in_progress, key_changed,
  rejected, known_call, finished, accepted, CreateRequest, Statement, create_upload,
}
use call_recorder.Server.Ingest.Receive.{
  Store, ReceiveReply, not_found, too_large, failure, token_expired, stranger, wrong_type, busy,
  invalid_size, bad_audio, in_quarantine, already, same_call, stored, AudioRequest, Action,
  receive_audio,
}

abbrev nothing_said : UploadResponse
nothing_said = record {
  upload_token = [];
  duplicate = false;
  retryable = false;
  call_id = [];
  status = [];
  error = [];
}

-- writeJSON of an errorResponse.
abbrev fault : ℕ → Text → HttpResponse
fault code message = record {
  status_code = code;
  body = json (record nothing_said { error = message });
}

unfoldable pub status_name : Status → Text
status_name pending = codes "pending"
status_name uploading = codes "uploading"
status_name completed = codes "completed"
status_name duplicate = codes "duplicate"
status_name quarantined = codes "quarantined"
status_name expired = codes "expired"
status_name failed = codes "failed"

-- A call that the server has.
abbrev known_response : Text → Text → HttpResponse
known_response call_id status = record {
  status_code = 200;
  body = json (record nothing_said { duplicate = true; call_id = call_id; status = status });
}

-- An answer that the client is to ask again.
abbrev conflict : Text → Text → HttpResponse
conflict status message = record {
  status_code = 409;
  body = json (record nothing_said { retryable = true; status = status; error = message });
}

-- The texts of the errors of `validateMetadata`.
unfoldable pub metadata_text : MetadataError → Text
metadata_text bad_sender = codes "sender_id is required and limited to 100 characters"
metadata_text bad_format = codes "audio_format must be mp3 or wav"
metadata_text bad_time = codes "start_time and a valid duration_ms are required"
metadata_text missing_identifier = codes "system_id and talkgroup_id are required"
metadata_text too_long = codes "metadata field exceeds its allowed length"
metadata_text too_many_patches = codes "patches are limited to 64 unique talkgroups"
metadata_text control_character = codes "identifiers cannot contain control characters"
metadata_text bad_offset = codes "audio_offset_ms must be within the call duration"
metadata_text in_future = codes "start_time cannot be more than 24 hours in the future"

-- What `createUpload` writes.
unfoldable pub create_response : CreateReply → HttpResponse
unfolding status_name metadata_text
create_response invalid_json = fault 400 (codes "invalid JSON metadata")
create_response unauthorized = fault 401 (codes "sender authentication failed")
create_response rate_limited = fault 429 (codes "ingestion rate limit exceeded")
create_response internal_error = fault 500 (codes "internal server error")
create_response in_progress =
    conflict (codes "uploading") (codes "audio upload is already in progress")
create_response key_changed =
    conflict (codes "pending")
      (codes "idempotency key changed concurrently; retry metadata request")
create_response (rejected e) = fault 400 (metadata_text e)
create_response (known_call call_id) = known_response call_id []
create_response (finished call_id status) = known_response call_id (status_name status)
create_response (accepted token expires) = record {
  status_code = 201;
  body =
      json
        (record nothing_said { upload_token = token; retryable = true; status = codes "pending" });
}

-- What `receiveAudio` writes; the error of the decoder is an argument.
unfoldable pub receive_response : Text → ReceiveReply → HttpResponse
unfolding status_name
receive_response bad not_found = fault 404 (codes "upload not found")
receive_response bad too_large = fault 413 (codes "audio exceeds maximum size")
receive_response bad failure = fault 500 (codes "internal server error")
receive_response bad token_expired = fault 410 (codes "upload token expired")
receive_response bad stranger = fault 401 (codes "sender authentication failed")
receive_response bad wrong_type =
    fault 415 (codes "audio content type does not match declared format")
receive_response bad busy =
    conflict (codes "uploading") (codes "audio upload is already in progress")
receive_response bad invalid_size = fault 413 (codes "invalid audio size")
receive_response bad bad_audio = fault 415 bad
receive_response bad in_quarantine = known_response [] (codes "quarantined")
receive_response bad (already call_id status) = known_response call_id (status_name status)
receive_response bad (same_call call_id) = known_response call_id (codes "duplicate")
receive_response bad (stored call_id path) = record {
  status_code = 201;
  body = json (record nothing_said { call_id = call_id; status = codes "completed" });
}

-- What the world is during an upload: whether each response is lost, the clocks, the generator of
-- tokens and the address of the client.
pub record Circumstances : Type 0 where
  pub lost_metadata : Bool
  pub lost_audio : Bool
  pub metadata_time : ℕ
  pub audio_time : ℕ
  pub token : Option Text
  pub upload_id : Option Text
  pub call_id : Option Text
  pub remote : Text

-- `decode` is the JSON of a request, encoded and decoded; the other arguments are those of the handlers.
module _ (decode : CreateUploadRequest → Option UploadRequest) (bad : Text)
    (authenticate : Text → Text → Bool)
    (find_duplicate : Text → CallMetadata → Option (Option Text)) (hash sha256 : Text → Text)
    (ttl : ℕ) (statement_fails : Statement → Bool)
    (others : Dict PendingUpload → Dict PendingUpload) (day_of : ℤ → Text)
    (decodes : Text → Text → ℤ → Bool) (max_bytes required grace : ℕ) (fails : Action → Bool)
    (world : Circumstances) where
  unfoldable pub metadata_request : LoggerClient → CreateUploadRequest → CreateRequest
  metadata_request client request = record {
    body = decode request;
    key = client.api_key;
    remote = world.remote;
    now = world.metadata_time;
    token = world.token;
    upload_id = world.upload_id;
  }

  -- The first request.
  unfoldable pub post_metadata :
      LoggerClient → CreateUploadRequest → Store → Option HttpResponse × Store
  unfolding create_response metadata_request
  post_metadata client request s =
      let result =
        create_upload authenticate find_duplicate hash ttl statement_fails others
          (metadata_request client request) s.ingestion in
      (
        (if world.lost_metadata then none else some (create_response result.0)),
        record s { ingestion = result.1 },
      )

  -- The body is an open file, whose length the request does not say.
  unfoldable pub audio_request : LoggerClient → Text → Text → AudioRequest
  audio_request client token audio = record {
    token = token;
    content_length = none;
    legacy = false;
    sender = client.sender_id;
    key = client.api_key;
    content_type = codes "audio/mpeg";
    body = some audio;
    call_id = world.call_id;
    now = world.audio_time;
  }

  -- The second request.
  unfoldable pub post_audio : LoggerClient → Text → Text → Store → Option HttpResponse × Store
  unfolding receive_response audio_request
  post_audio client token audio s =
      let result =
        receive_audio authenticate find_duplicate hash sha256 day_of decodes max_bytes required
          grace fails (audio_request client token audio) s in
      ((if world.lost_audio then none else some (receive_response bad result.0)), result.1)

  -- `Upload` of a spooled file to this server.
  unfoldable pub hand_over :
      (ℕ → Text) → LoggerClient → CreateUploadRequest → Text → Store → Result (Text × Bool) × Store
  hand_over status_text client request audio s =
      upload status_text post_metadata post_audio client request (some audio) s
