-- ===== src/Tests/Handover.antt =====
-- A recording that is handed over from the uploader to the server, in one run.
use call_recorder.Prelude.{ℕ, refl, false, some, Option, [], ◌∷◌}
use call_recorder.Prelude.Int.{is_zero}
use call_recorder.Prelude.Text.{
  Text, codes, text_eq, is_empty, has_byte, contains_any, to_lower, lower_byte, to_upper,
  upper_byte, trim_space, trim_left, trim_right, is_space,
}
use call_recorder.Prelude.Dict.{get, put, has}
use call_recorder.Uploader.Model.{CreateUploadRequest}
use call_recorder.Uploader.Client.{
  upload, upload_audio, answer, decode_upload_response, decode_body, checked_response,
}
use call_recorder.Server.Limits.{rate_key, current_window, sweep_windows, ingestion_allowed}
use call_recorder.Server.Metadata.{
  UploadRequest, any_over, any_control, is_outside, validate_metadata, is_member,
  unique_patches_from, unique_patches, before_semicolon, content_type_matches,
  canonicalize_incoming_call, normalize,
}
use call_recorder.Server.Ingest.{
  is_finished, is_leased, has_key, find_key, has_token, breaks_index, new_upload, insert, refresh,
  reuse, canonical, admit, create_upload,
}
use call_recorder.Server.Ingest.Receive.{
  Store, find_token, set_upload, is_claimable, audio_path, store_call, transfer, receive_for,
  receive_audio,
}
use call_recorder.Handover.{
  Circumstances, create_response, receive_response, metadata_request, audio_request, post_metadata,
  post_audio, hand_over,
}
use call_recorder.Handover.Delivered.{IsHandedOver, hand_over-IsHandedOver}
use call_recorder.Tests.Spools.{request}
use call_recorder.Tests.Sender.{client}
use call_recorder.Tests.Server.{always, keyed_upload, no_duplicate, no_hash, never}
use call_recorder.Tests.Receive.{one_day, any_audio, none_fails}

abbrev decodes_it : CreateUploadRequest → Option UploadRequest
decodes_it r = some keyed_upload

abbrev calm : Circumstances
calm = record {
  lost_metadata = false;
  lost_audio = false;
  metadata_time = 6000;
  audio_time = 6050;
  token = some (codes "t2");
  upload_id = some (codes "u2");
  call_id = some (codes "c9");
  remote = codes "h";
}

abbrev new_server : Store
new_server = record {
  ingestion = record { rates = []; uploads = []; rejections = [] };
  calls = [];
  files = [];
}

abbrev no_text : ℕ → Text
no_text n = []

hand_over-IsHandedOver_example :
    IsHandedOver no_hash
      (1 ∷ 2 ∷ 3 ∷ [])
      new_server
      (codes "c9")
      false
      (hand_over decodes_it [] always no_duplicate no_hash no_hash 100 never
        (λ m. m)
        one_day
        any_audio
        4096
        3
        60
        none_fails
        calm
        no_text
        client
        request
        (1 ∷ 2 ∷ 3 ∷ [])
        new_server).1
unfolding hand_over post_metadata post_audio metadata_request audio_request create_response
    receive_response upload upload_audio answer decode_upload_response decode_body checked_response
    create_upload admit insert reuse refresh new_upload canonical breaks_index has_token find_key
    has_key is_leased is_finished normalize canonicalize_incoming_call unique_patches
    unique_patches_from is_member validate_metadata is_outside any_control any_over
    content_type_matches before_semicolon rate_key current_window sweep_windows ingestion_allowed
    receive_audio receive_for transfer store_call audio_path is_claimable set_upload find_token get
    put has text_eq is_empty has_byte contains_any to_lower lower_byte to_upper upper_byte
    trim_space trim_left trim_right is_space is_zero
hand_over-IsHandedOver_example =
    hand_over-IsHandedOver decodes_it [] always no_duplicate no_hash no_hash 100 never (λ m. m)
      one_day any_audio 4096 3 60 none_fails calm no_text client request (1 ∷ 2 ∷ 3 ∷ []) new_server
      (codes "c9") false refl refl refl
