-- ===== src/Server/Ingest.antt =====
-- `createUpload` of backend/cmd/server/main.go on the table pending_uploads: the first of the two
-- requests by which a sender hands over a call.
pub mod Create
pub mod Accepted
pub mod Promise
pub mod Receive
use call_recorder.Prelude.{
  ℕ, ◌+◌, Bool, true, false, not, ◌&&◌, ◌||◌, Option, none, some, List, [], ◌∷◌, ◌++◌, length, take,
  ltb, if◌then◌else◌,
}
use call_recorder.Prelude.Text.{Text, text_eq, is_empty, codes, trim_space, to_upper}
use call_recorder.Prelude.Dict.{Dict, get, put, has}
use call_recorder.Server.Limits.{IngestionWindow, ingestion_allowed}
use call_recorder.Server.Metadata.{
  CallMetadata, UploadRequest, MetadataError, validate_metadata, canonicalize_incoming_call,
  normalize,
}

-- The column status of pending_uploads.
pub data Status : Type 0 where
  pending uploading completed duplicate quarantined expired failed : Status

-- A row of pending_uploads, with the columns that the handlers read; the row's id is its
-- key. An empty idempotency key stands for NULL.
pub record PendingUpload : Type 0 where
  pub token_hash : Text
  pub sender_id : Text
  pub idempotency_key : Text
  pub metadata : CallMetadata
  pub audio_format : Text
  pub expires_at : ℕ
  pub status : Status
  pub completed_call_id : Text
  pub lease_expires_at : Option ℕ
  pub decode_failure_count : ℕ
  pub decode_failure_first_at : Option ℕ
  pub rejected_audio_sha256 : Text

-- The state: the windows in memory, the table, and the rejections that were counted, the last first.
pub record Ingestion : Type 0 where
  pub rates : Dict IngestionWindow
  pub uploads : Dict PendingUpload
  pub rejections : List (Text × Text)

pub data CreateReply : Type 0 where
  invalid_json unauthorized rate_limited internal_error in_progress key_changed : CreateReply
  rejected : MetadataError → CreateReply
  known_call : Text → CreateReply
  finished : Text → Status → CreateReply
  accepted : Text → ℕ → CreateReply

-- A request: the body, if it is one JSON document of the right form, the header with the key, the
-- host of its address, and what the clock and the generator of tokens say.
pub record CreateRequest : Type 0 where
  pub body : Option UploadRequest
  pub key : Text
  pub remote : Text
  pub now : ℕ
  pub token : Option Text
  pub upload_id : Option Text

-- The statements on pending_uploads, each of which may fail.
pub data Statement : Type 0 where
  select_upload update_upload insert_upload : Statement

unfoldable pub is_finished : Status → Bool
is_finished completed = true
is_finished duplicate = true
is_finished quarantined = true
is_finished _ = false

-- An upload is on its way, and its lease is not over.
unfoldable pub is_leased : ℕ → PendingUpload → Bool
is_leased now u = elim u.status [
  | uploading ↦ elim u.lease_expires_at [ none ↦ false | some t ↦ ltb now t ]
  | _ ↦ false
]

-- `recordIngestionRejection`; the counters of the table are the numbers of entries here.
unfoldable pub record_ingestion_rejection : Text → Text → Ingestion → Ingestion
record_ingestion_rejection sender reason s = record s {
  rejections = (take 100 (to_upper (trim_space sender)), take 80 reason) ∷ s.rejections;
}

unfoldable pub has_key : Text → Text → PendingUpload → Bool
has_key sender key u = text_eq u.sender_id sender && text_eq u.idempotency_key key

-- The row of a sender's idempotency key, with its id.
unfoldable pub find_key : Text → Text → Dict PendingUpload → Option (Text × PendingUpload)
find_key sender key [] = none
find_key sender key ((id, u) ∷ m) =
    let rest = find_key sender key m in if has_key sender key u then some (id, u) else rest

-- Some row but the one with this id has this token.
unfoldable pub has_token : Text → Text → Dict PendingUpload → Bool
has_token hash id [] = false
has_token hash id ((j, u) ∷ m) =
    (not (text_eq j id) && text_eq u.token_hash hash) || has_token hash id m

-- The unique index on sender and key, which leaves rows without a key alone.
unfoldable pub breaks_index : Text → Text → Dict PendingUpload → Bool
breaks_index sender key m =
    if is_empty key then false else elim (find_key sender key m) [ none ↦ false | some _ ↦ true ]

-- `hash` is `tokenHash`, on SHA-256, and `ttl` the lifetime of a token.
module _ (hash : Text → Text) (ttl : ℕ) where
  unfoldable pub new_upload : CreateRequest → UploadRequest → Text → PendingUpload
  new_upload c r token = record {
    token_hash = hash token;
    sender_id = r.sender_id;
    idempotency_key = r.idempotency_key;
    metadata = r.call;
    audio_format = r.audio_format;
    expires_at = c.now + ttl;
    status = pending;
    completed_call_id = [];
    lease_expires_at = none;
    decode_failure_count = 0;
    decode_failure_first_at = none;
    rejected_audio_sha256 = [];
  }

-- `fails` says which statements fail; `others` is what other requests do to the table between the
-- lookup of the key and the write.
module _ (hash : Text → Text) (ttl : ℕ) (fails : Statement → Bool)
    (others : Dict PendingUpload → Dict PendingUpload) where
  -- The insertion, with the constraints of the table.
  unfoldable pub insert : CreateRequest → UploadRequest → Text → Ingestion → CreateReply × Ingestion
  insert c r token s = elim c.upload_id [
    | none ↦ (internal_error, s)
    | some id ↦
        let table = others s.uploads in
        let s' = record s { uploads = table } in
        if fails insert_upload || has table id || has_token (hash token) id table
        then (internal_error, s')
        else if breaks_index r.sender_id r.idempotency_key table
        then (key_changed, s')
        else (
          accepted token (c.now + ttl),
          record s { uploads = put table id (new_upload hash ttl c r token) },
        )
  ]

  -- The UPDATE of the row with this id: its key, its sender and its call stay. The statement does not
  -- look at the status.
  unfoldable pub refresh :
      CreateRequest → UploadRequest → Text → Text → Ingestion → CreateReply × Ingestion
  refresh c r token id s =
      let table = others s.uploads in
      let s' = record s { uploads = table } in
      if fails update_upload || has_token (hash token) id table
      then (internal_error, s')
      else elim (get table id) [
        | none ↦ (accepted token (c.now + ttl), s')
        | some u ↦ (
          accepted token (c.now + ttl),
          record s {
            uploads = put table id (record u {
              token_hash = hash token;
              metadata = r.call;
              audio_format = r.audio_format;
              expires_at = c.now + ttl;
              status = pending;
              lease_expires_at = none;
            });
          },
        )
      ]

  -- An upload with an idempotency key: its row is looked up first.
  unfoldable pub reuse : CreateRequest → UploadRequest → Text → Ingestion → CreateReply × Ingestion
  reuse c r token s =
      if fails select_upload
      then (internal_error, s)
      else elim (find_key r.sender_id r.idempotency_key s.uploads) [
        | none ↦ insert c r token s
        | some (id, u) ↦
            if is_finished u.status
            then (finished u.completed_call_id u.status, s)
            else if is_leased c.now u
            then (in_progress, s)
            else refresh c r token id s
      ]

-- The request with the call that is stored.
unfoldable pub canonical : UploadRequest → UploadRequest
canonical r = record r { call = canonicalize_incoming_call r.sender_id r.call }

-- `authenticate` and `findDuplicate` are the queries of remote_senders and calls, where `none` is an
-- error.
module _ (authenticate : Text → Text → Bool)
    (find_duplicate : Text → CallMetadata → Option (Option Text)) (hash : Text → Text) (ttl : ℕ)
    (fails : Statement → Bool) (others : Dict PendingUpload → Dict PendingUpload) where
  -- Behind the authentication: the quota, the search for the same call, and the token.
  unfoldable pub admit : CreateRequest → UploadRequest → Ingestion → CreateReply × Ingestion
  admit c r s =
      let quota = ingestion_allowed c.now c.remote r.sender_id s.rates in
      let s' = record s { rates = quota.1 } in
      if not quota.0 then (rate_limited, s') else elim (find_duplicate r.sender_id r.call) [
        | none ↦ (internal_error, s')
        | some (some id) ↦ (known_call id, s')
        | some none ↦ elim c.token [
          | none ↦ (internal_error, s')
          | some token ↦
              if is_empty r.idempotency_key
              then insert hash ttl fails others c r token s'
              else reuse hash ttl fails others c r token s'
        ]
      ]

  -- `createUpload`
  unfoldable pub create_upload : CreateRequest → Ingestion → CreateReply × Ingestion
  create_upload c s = elim c.body [
    | none ↦ (invalid_json, s)
    | some body ↦
        let r = normalize body in
        elim (validate_metadata c.now r) [
          | some e ↦
              (rejected e, record_ingestion_rejection r.sender_id (codes "invalid_metadata") s)
          | none ↦
              if not (authenticate r.sender_id c.key)
              then (
                unauthorized,
                record_ingestion_rejection r.sender_id (codes "authentication_failed") s,
              )
              else admit c (canonical r) s
        ]
  ]
