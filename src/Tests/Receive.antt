-- ===== src/Tests/Receive.antt =====
-- The theorems about `receiveAudio` of backend/cmd/server/main.go at concrete inputs.
use call_recorder.Prelude.{Bool, true, false, some, [], ◌∷◌, ◌≡◌, refl}
use call_recorder.Prelude.Int.{ℤ}
use call_recorder.Prelude.Text.{
  Text, codes, text_eq, is_empty, has_byte, to_lower, lower_byte, to_upper, upper_byte, trim_space,
  trim_left, trim_right, is_space,
}
use call_recorder.Prelude.Dict.{get}
use call_recorder.Server.Metadata.{content_type_matches, before_semicolon}
use call_recorder.Server.Ingest.{pending, uploading, is_finished}
use call_recorder.Server.Ingest.Receive.{
  Store, AudioRequest, Action, receive_audio, receive_for, find_token, is_too_long, is_claimable,
}
use call_recorder.Server.Ingest.Receive.Settled.{is_uploading, Delivers}
use call_recorder.Server.Ingest.Receive.Handler.{receive_audio_frees, receive_audio-Delivers}
use call_recorder.Tests.Server.{always, row, table, no_duplicate, no_hash}

abbrev put_request : AudioRequest
put_request = record {
  token = codes "t1";
  content_length = some 3;
  legacy = false;
  sender = codes "scanner";
  key = codes "secret";
  content_type = codes "audio/mpeg";
  body = some (1 ∷ 2 ∷ 3 ∷ []);
  call_id = some (codes "c9");
  now = 7000;
}

abbrev pub one_day : ℤ → Text
one_day t = codes "2026/01/02"

-- The decoder takes any audio.
abbrev pub any_audio : Text → Text → ℤ → Bool
any_audio audio format duration = true

abbrev pub none_fails : Action → Bool
none_fails _ = false

abbrev pub waiting : Store
waiting = record { ingestion = table pending; calls = []; files = [] }

-- Another request uploads the audio, and its lease is not over.
abbrev taken : Store
taken = record {
  ingestion = record (table pending) {
    uploads = (codes "u1", record (row uploading) { lease_expires_at = some 8000 }) ∷ [];
  };
  calls = [];
  files = [];
}

receive_audio-Delivers_example :
    Delivers none_fails no_hash waiting
      (receive_audio always no_duplicate no_hash no_hash one_day any_audio 100 3 60 none_fails
        put_request waiting).0
      (receive_audio always no_duplicate no_hash no_hash one_day any_audio 100 3 60 none_fails
        put_request waiting).1
receive_audio-Delivers_example =
    receive_audio-Delivers always no_duplicate no_hash no_hash one_day any_audio 100 3 60 none_fails
      put_request waiting refl refl

receive_audio_frees_example :
    get taken.ingestion.uploads (codes "u1")
    ≡ some (record (row uploading) { lease_expires_at = some 8000 })
unfolding get text_eq is_uploading is_finished receive_audio receive_for find_token is_too_long
    is_claimable is_empty has_byte content_type_matches before_semicolon to_lower lower_byte
    to_upper upper_byte trim_space trim_left trim_right is_space
receive_audio_frees_example =
    receive_audio_frees always no_duplicate no_hash no_hash one_day any_audio 100 3 60 none_fails
      put_request taken (codes "u1") (record (row uploading) { lease_expires_at = some 8000 }) refl
      refl refl refl
