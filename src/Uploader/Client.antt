-- ===== src/Uploader/Client.antt =====
-- uploader/proscan-windows/client.go: the two requests by which a recording is handed over. The server
-- and the network are the functions `post_metadata` and `post_audio` on a state of any type; `none` is a
-- request without a response.
pub mod Accepts
use call_recorder.Prelude.{
  ℕ, Bool, true, false, ◌||◌, Option, none, some, [], ◌∷◌, ◌++◌, if◌then◌else◌, ltb, leb, ◌==◌,
}
use call_recorder.Prelude.Text.{Text, codes, is_empty, trim_space, trim_right}
use call_recorder.Prelude.Result.{Result, ok, err, in_front}
use call_recorder.Prelude.Decimal.{decimal}
use call_recorder.Uploader.Model.{CreateUploadRequest, UploadResponse}

-- `loggerClient`, with the address of the server.
pub record LoggerClient : Type 0 where
  pub base_url : Text
  pub sender_id : Text
  pub api_key : Text

-- A response: its status, and its body where it can be read, as JSON if it is.
pub data Body : Type 0 where
  unreadable : Text → Body
  not_json : Body
  json : UploadResponse → Body

pub record HttpResponse : Type 0 where
  pub status_code : ℕ
  pub body : Body

-- `newLoggerClientWithCredentials`: slashes at the end of the address are dropped.
unfoldable pub new_logger_client_with_credentials : Text → Text → Text → LoggerClient
new_logger_client_with_credentials url sender key = record {
  base_url = trim_right (λ c. c == b'/') url;
  sender_id = sender;
  api_key = key;
}

-- `status_text` is http.StatusText.
module _ (status_text : ℕ → Text) where
  unfoldable pub checked_response : ℕ → UploadResponse → Result UploadResponse
  unfolding decimal
  checked_response status decoded =
      let message = trim_space decoded.error in
      let shown = if is_empty message then status_text status else message in
      if ltb status 200 || leb 300 status
      then err (codes "logger returned HTTP " ++ decimal status ++ codes ": " ++ shown)
      else if is_empty decoded.error
      then ok decoded
      else err decoded.error

  unfoldable pub decode_body : ℕ → Body → Result UploadResponse
  unfolding decimal
  decode_body status (unreadable e) = err e
  decode_body status not_json =
      err (codes "logger returned HTTP " ++ decimal status ++ codes " with a non-JSON response")
  decode_body status (json decoded) = checked_response status decoded

  -- `decodeUploadResponse`
  unfoldable pub decode_upload_response : HttpResponse → Result UploadResponse
  unfolding decode_body
  decode_upload_response r = decode_body r.status_code r.body

  -- A request's answer, with the name of the request in front of an error.
  unfoldable pub answer : Text → Option HttpResponse → Result UploadResponse
  answer name none = err (name ++ codes ": no response")
  answer name (some r) = in_front (λ e. name ++ codes ": " ++ e) (decode_upload_response r)

module _ {S : Type 0} (status_text : ℕ → Text)
    (post_metadata : LoggerClient → CreateUploadRequest → S → Option HttpResponse × S)
    (post_audio : LoggerClient → Text → Text → S → Option HttpResponse × S) where
  -- The second request, with the audio of the spool.
  unfoldable pub upload_audio : LoggerClient → Text → Option Text → S → Result (Text × Bool) × S
  upload_audio client token none s = (err (codes "open spooled audio"), s)
  upload_audio client token (some audio) s =
      let response = post_audio client token audio s in
      (
        elim (answer status_text (codes "audio request") response.0) [
          | err e ↦ err e
          | ok completed ↦ ok (completed.call_id, completed.duplicate)
        ],
        response.1,
      )

  -- `Upload`: the call's id and whether the server had it; `audio` is the spooled file, if it opens.
  unfoldable pub upload :
      LoggerClient → CreateUploadRequest → Option Text → S → Result (Text × Bool) × S
  upload client request audio s =
      let response = post_metadata client request s in
      elim (answer status_text (codes "metadata request") response.0) [
        | err e ↦ (err e, response.1)
        | ok accepted ↦
            if accepted.duplicate
            then (ok (accepted.call_id, true), response.1)
            else if is_empty accepted.upload_token
            then (err (codes "metadata accepted without an upload token"), response.1)
            else upload_audio client accepted.upload_token audio response.1
      ]
