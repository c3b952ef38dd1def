-- ===== src/Uploader/Model.antt =====
-- uploader/proscan-windows/model.go: what a recording becomes. An instant is the number of
-- nanoseconds since Go's zero time, so the zero time is 0; a duration is in nanoseconds too.
use call_recorder.Prelude.{ℕ, Bool, Option}
use call_recorder.Prelude.Text.{Text}

pub record CallMetadata : Type 0 where
  pub source_call_id : Text
  pub start_time : Text
  pub duration_ms : ℕ
  pub receiver_id : Text
  pub system_id : Text
  pub system_name : Text
  pub site_id : Text
  pub site_name : Text
  pub talkgroup_id : Text
  pub talkgroup_name : Text
  pub talkgroup_tag : Text
  pub radio_id : Text
  pub frequency : Text
  pub voice_service : Text
  pub call_type : Text
  pub group_call : Option Bool
  pub notes : Text

pub record CreateUploadRequest : Type 0 where
  pub sender_id : Text
  pub idempotency_key : Text
  pub audio_format : Text
  pub call : CallMetadata

pub record ProScanMetadata : Type 0 where
  pub start : ℕ
  pub «end» : ℕ
  pub scanner : Text
  pub favorite : Text
  pub system : Text
  pub site : Text
  pub department : Text
  pub channel : Text
  pub frequency : Text
  pub modulation : Text
  pub tone : Text
  pub tgid : Text
  pub uid : Text
  pub rssi : Text
  pub service_type : Text
  pub digital_status : Text
  pub dmr_slot : Text

pub record ParsedRecording : Type 0 where
  pub request : CreateUploadRequest
  pub audio_bytes : Text
  pub audio_format : Text
  pub original_name : Text
  pub embedded : ProScanMetadata
  pub audio_duration : ℕ

pub record UploadResponse : Type 0 where
  pub upload_token : Text
  pub duplicate : Bool
  pub retryable : Bool
  pub call_id : Text
  pub status : Text
  pub error : Text
