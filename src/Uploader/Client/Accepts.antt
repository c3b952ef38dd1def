-- ===== src/Uploader/Client/Accepts.antt =====
-- When `Upload` of uploader/proscan-windows/client.go succeeds.
use call_recorder.Prelude.{
  ℕ, ◌≡◌, refl, ◌≤◌, ◌<◌, ◌⊎◌, inl, inr, Bool, true, false, Option, none, some, arith, Bool-cases,
}
use call_recorder.Prelude.Text.{Text, codes, is_empty}
use call_recorder.Prelude.Result.{ok, Result-cases}
use call_recorder.Uploader.Model.{CreateUploadRequest, UploadResponse}
use call_recorder.Uploader.Client.{
  LoggerClient, Body, unreadable, not_json, json, HttpResponse, checked_response, decode_body,
  decode_upload_response, answer, upload_audio, upload,
}

-- A response of success: a status of the two hundreds, and JSON without an error.
abbrev pub Succeeds : Option HttpResponse → UploadResponse → Type 0
Succeeds r u =
    (h : HttpResponse) × (r ≡ some h)
    × (h.body ≡ json u)
    × (200 ≤ h.status_code)
    × (h.status_code < 300)
    × (is_empty u.error ≡ true)

checked_response-ok :
    (status_text : ℕ → Text) (status : ℕ) (d u : UploadResponse)
    → checked_response status_text status d ≡ ok u
    → (d ≡ u) × (200 ≤ status) × (status < 300) × (is_empty u.error ≡ true)
unfolding checked_response
checked_response-ok status_text status d u h = ground arith

decode_body-ok :
    (status_text : ℕ → Text) (status : ℕ) (b : Body) (u : UploadResponse)
    → decode_body status_text status b ≡ ok u
    → (b ≡ json u) × (200 ≤ status) × (status < 300) × (is_empty u.error ≡ true)
unfolding decode_body
decode_body-ok status_text status (unreadable e) u h = absurd (cc)
decode_body-ok status_text status not_json u h = absurd (cc)
decode_body-ok status_text status (json d) u h =
    ground (arith, checked_response-ok status_text status d u h)

answer-Succeeds :
    (status_text : ℕ → Text) (name : Text) (r : Option HttpResponse) (u : UploadResponse)
    → answer status_text name r ≡ ok u
    → Succeeds r u
unfolding answer decode_upload_response
answer-Succeeds status_text name none u h = absurd (cc)
answer-Succeeds status_text name (some r) u h =
    let inner : decode_body status_text r.status_code r.body ≡ ok u = ground arith in
    let (b, low, high, clean) = decode_body-ok status_text r.status_code r.body u inner in
    (r, refl, b, low, high, clean)

-- A response of success is answered with its content.
answer_of_Succeeds :
    (status_text : ℕ → Text) (name : Text) (r : Option HttpResponse) (u : UploadResponse)
    → Succeeds r u
    → answer status_text name r ≡ ok u
unfolding answer decode_upload_response decode_body checked_response
answer_of_Succeeds status_text name r u (h, e, b, low, high, clean) = rw e (rw b (ground arith))

module _ {S : Type 0} (status_text : ℕ → Text)
    (post_metadata : LoggerClient → CreateUploadRequest → S → Option HttpResponse × S)
    (post_audio : LoggerClient → Text → Text → S → Option HttpResponse × S) (client : LoggerClient)
    (request : CreateUploadRequest) (audio : Option Text) (s : S) where
  -- The server has answered that it knows the call, or it has given a token and has taken the audio
  -- of the spool under it.
  abbrev pub Confirms : Text → Bool → Type 0
  Confirms call_id known =
      ((u : UploadResponse) × Succeeds (post_metadata client request s).0 u
        × (u.duplicate ≡ true)
        × (u.call_id ≡ call_id)
        × (known ≡ true))
      ⊎ ((u : UploadResponse) × (v : UploadResponse) × (bytes : Text) × Succeeds
            (post_metadata client request s).0 u
          × (u.duplicate ≡ false)
          × (is_empty u.upload_token ≡ false)
          × (audio ≡ some bytes)
          × Succeeds (post_audio client u.upload_token bytes (post_metadata client request s).1).0 v
          × (v.call_id ≡ call_id)
          × (v.duplicate ≡ known))

  -- The two ends of a success in the second request.
  upload_audio-ok :
      (token : Text) (a : Option Text) (t : S) (call_id : Text) (known : Bool)
      → (upload_audio status_text post_metadata post_audio client token a t).0 ≡ ok (call_id, known)
      → (v : UploadResponse) × (bytes : Text) × (a ≡ some bytes)
        × Succeeds (post_audio client token bytes t).0 v
        × (v.call_id ≡ call_id)
        × (v.duplicate ≡ known)
  unfolding upload_audio
  upload_audio-ok token none t call_id known h = absurd (cc)
  upload_audio-ok token (some bytes) t call_id known h =
      let second = post_audio client token bytes t in
      elim (Result-cases (answer status_text (codes "audio request") second.0)) [
        | inr (e, failed) ↦ let h' = rw (failed, upload_audio) at h in absurd (cc)
        | inl (v, answered) ↦
            let h' = rw (answered, upload_audio) at h in
            (
              v,
              bytes,
              refl,
              answer-Succeeds status_text (codes "audio request") second.0 v answered,
              ground arith,
              ground arith,
            )
      ]

  -- `Upload` reports a success only if the server has answered so: either it knew the call, or it gave
  -- a token and then took, under that token, the very bytes of the spool.
  pub upload-Confirms :
      (call_id : Text) (known : Bool)
      → (upload status_text post_metadata post_audio client request audio s).0 ≡ ok (call_id, known)
      → Confirms call_id known
  unfolding upload
  upload-Confirms call_id known h =
      let first = post_metadata client request s in
      elim (Result-cases (answer status_text (codes "metadata request") first.0)) [
        | inr (e, failed) ↦ let h' = rw (failed, upload) at h in absurd (cc)
        | inl (u, answered) ↦
            let said = answer-Succeeds status_text (codes "metadata request") first.0 u answered in
            elim (Bool-cases u.duplicate) [
              | inl old ↦
                  let h' = rw (answered, old, upload) at h in
                  inl (u, said, old, ground arith, ground arith)
              | inr new ↦ elim (Bool-cases (is_empty u.upload_token)) [
                | inl bare ↦ let h' = rw (answered, new, bare, upload) at h in absurd (cc)
                | inr token ↦
                    let h' = rw (answered, new, token, upload) at h in
                    let (v, bytes, opened, done, id_is, known_is) =
                      upload_audio-ok u.upload_token audio first.1 call_id known h' in
                    inr (u, v, bytes, said, new, token, opened, done, id_is, known_is)
              ]
            ]
      ]

  -- The state after an upload of a call that the server knew.
  pub upload_state-known :
      (u : UploadResponse)
      → Succeeds (post_metadata client request s).0 u
      → u.duplicate ≡ true
      → (upload status_text post_metadata post_audio client request audio s).1
        ≡ (post_metadata client request s).1
  unfolding upload
  upload_state-known u said old =
      let answered =
        answer_of_Succeeds status_text (codes "metadata request") (post_metadata client request s).0
          u said in
      rw (upload, answered, old) refl

  -- The state after an upload whose audio was sent.
  pub upload_state-sent :
      (u : UploadResponse) (bytes : Text)
      → Succeeds (post_metadata client request s).0 u
      → u.duplicate ≡ false
      → is_empty u.upload_token ≡ false
      → audio ≡ some bytes
      → (upload status_text post_metadata post_audio client request audio s).1
        ≡ (post_audio client u.upload_token bytes (post_metadata client request s).1).1
  unfolding upload upload_audio
  upload_state-sent u bytes said new token opened =
      let answered =
        answer_of_Succeeds status_text (codes "metadata request") (post_metadata client request s).0
          u said in
      rw (upload, answered, new, token, opened) refl
