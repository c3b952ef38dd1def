-- ===== src/Handover/Delivered.antt =====
-- What a success of `Upload` (uploader/proscan-windows/client.go) stands for on the server.
use call_recorder.Prelude.{
  ℕ, ◌≡◌, ◌<◌, refl, ap, sym, ◌∙◌, subst, Bool, true, false, Option, none, some, ◌⊎◌, inl, inr,
  arith, length, if◌then◌else◌,
}
use call_recorder.Prelude.Int.{ℤ}
use call_recorder.Prelude.Text.{Text}
use call_recorder.Prelude.Dict.{Dict, get}
use call_recorder.Prelude.Result.{ok}
use call_recorder.Uploader.Model.{CreateUploadRequest, UploadResponse}
use call_recorder.Uploader.Client.{LoggerClient, json, HttpResponse, upload}
use call_recorder.Uploader.Client.Accepts.{
  Succeeds, upload-Confirms, upload_state-known, upload_state-sent,
}
use call_recorder.Server.Metadata.{CallMetadata, UploadRequest}
use call_recorder.Server.Ingest.{PendingUpload, Statement}
use call_recorder.Server.Ingest.Receive.{
  StoredCall, Store, ReceiveReply, not_found, too_large, failure, token_expired, stranger,
  wrong_type, busy, invalid_size, bad_audio, in_quarantine, already, same_call, stored, Action,
  release, acknowledge, receive_audio,
}
use call_recorder.Server.Ingest.Receive.Settled.{Delivers}
use call_recorder.Server.Ingest.Receive.Handler.{receive_audio-Delivers}
use call_recorder.Handover.{
  receive_response, Circumstances, post_metadata, post_audio, audio_request, hand_over,
}
use call_recorder.Handover.Carries.{Carries, receive_audio-Carries}

-- What a response of success says of the reply.
abbrev Told : Text → Bool → ReceiveReply → Type 0
Told call_id known (stored id path) = (id ≡ call_id) × (known ≡ false)
Told call_id known in_quarantine = known ≡ true
Told call_id known (already id status) = known ≡ true
Told call_id known (same_call id) = known ≡ true
Told call_id known _ = ⊥

told :
    (bad : Text) (reply : ReceiveReply) (v : UploadResponse)
    → (receive_response bad reply).body ≡ json v
    → (receive_response bad reply).status_code < 300
    → Told v.call_id v.duplicate reply
unfolding receive_response
told bad (stored id path) v b low = (cc, cc)
told bad in_quarantine v b low = cc
told bad (already id status) v b low = cc
told bad (same_call id) v b low = cc
told bad not_found v b low = absurd (omega arith)
told bad too_large v b low = absurd (omega arith)
told bad failure v b low = absurd (omega arith)
told bad token_expired v b low = absurd (omega arith)
told bad stranger v b low = absurd (omega arith)
told bad wrong_type v b low = absurd (omega arith)
told bad busy v b low = absurd (omega arith)
told bad invalid_size v b low = absurd (omega arith)
told bad bad_audio v b low = absurd (omega arith)

-- The server has a row of calls under the id, with the digest and the size of the bytes, and its file
-- has these bytes.
abbrev pub HasCall : (Text → Text) → Text → Text → Store → Type 0
HasCall sha256 call_id audio t =
    (row : StoredCall) × (get t.calls call_id ≡ some row)
    × (get t.files row.audio_path ≡ some audio)
    × (row.audio_sha256 ≡ sha256 audio)
    × (row.audio_size ≡ length audio)

-- Either the server said that it had the call, and then none was added, or it has it now.
abbrev pub IsHandedOver : (Text → Text) → Text → Store → Text → Bool → Store → Type 0
IsHandedOver sha256 audio s call_id known t =
    ((known ≡ true) × (t.calls ≡ s.calls)) ⊎ ((known ≡ false) × HasCall sha256 call_id audio t)

-- The file of the row is the one that carries the bytes.
with_bytes :
    (fails : Action → Bool) (sha256 : Text → Text) (audio call_id path : Text) (s t : Store)
    → Delivers fails sha256 s (stored call_id path) t
    → get t.files path ≡ some audio
    → HasCall sha256 call_id audio t
with_bytes fails sha256 audio call_id path s t (row, bytes, there, place, file, digest, size)
      carried =
    let same : bytes ≡ audio = cc in
    (row, there, rw place carried, rw digest (ap sha256 same), rw size (ap length same))

handed :
    (fails : Action → Bool) (sha256 : Text → Text) (audio call_id : Text) (known : Bool)
    (s t : Store) (reply : ReceiveReply)
    → Told call_id known reply
    → Delivers fails sha256 s reply t
    → Carries audio reply t
    → IsHandedOver sha256 audio s call_id known t
handed fails sha256 audio call_id known s t (stored id path) h d c =
    inr (
      h.1,
      subst (λ x. HasCall sha256 x audio t) h.0 (with_bytes fails sha256 audio id path s t d c),
    )
handed fails sha256 audio call_id known s t in_quarantine h d c = inl (h, d.0)
handed fails sha256 audio call_id known s t (already id status) h d c = inl (h, d.0)
handed fails sha256 audio call_id known s t (same_call id) h d c = inl (h, d.0)
handed fails sha256 audio call_id known s t not_found h d c = absurd h
handed fails sha256 audio call_id known s t too_large h d c = absurd h
handed fails sha256 audio call_id known s t failure h d c = absurd h
handed fails sha256 audio call_id known s t token_expired h d c = absurd h
handed fails sha256 audio call_id known s t stranger h d c = absurd h
handed fails sha256 audio call_id known s t wrong_type h d c = absurd h
handed fails sha256 audio call_id known s t busy h d c = absurd h
handed fails sha256 audio call_id known s t invalid_size h d c = absurd h
handed fails sha256 audio call_id known s t bad_audio h d c = absurd h

-- The same of equal things.
moved :
    (sha256 : Text → Text) (bytes audio : Text) (s1 s : Store) (id call_id : Text) (k known : Bool)
    (t1 t : Store)
    → s1.calls ≡ s.calls
    → bytes ≡ audio
    → id ≡ call_id
    → k ≡ known
    → t1 ≡ t
    → IsHandedOver sha256 bytes s1 id k t1
    → IsHandedOver sha256 audio s call_id known t
moved sha256 bytes audio s1 s id call_id k known t1 t a b c d e (inl (h, calls)) =
    inl (sym d ∙ h, subst (λ x. x.calls ≡ s.calls) e (calls ∙ a))
moved sha256 bytes audio s1 s id call_id k known t1 t a b c d e (inr (h, has)) = inr (
  sym d ∙ h,
  subst (HasCall sha256 call_id audio) e
      (subst (λ x. HasCall sha256 x audio t1) c (subst (λ x. HasCall sha256 id x t1) b has)),
)

-- A response that arrives is the one that was written.
arrived : (lost : Bool) (r h : HttpResponse) → (if lost then none else some r) ≡ some h → r ≡ h
arrived true r h e = absurd (cc)
arrived false r h e = cc

module _ (decode : CreateUploadRequest → Option UploadRequest) (bad : Text)
    (authenticate : Text → Text → Bool)
    (find_duplicate : Text → CallMetadata → Option (Option Text)) (hash sha256 : Text → Text)
    (ttl : ℕ) (statement_fails : Statement → Bool)
    (others : Dict PendingUpload → Dict PendingUpload) (day_of : ℤ → Text)
    (decodes : Text → Text → ℤ → Bool) (max_bytes required grace : ℕ) (fails : Action → Bool)
    (world : Circumstances) where
  -- The second request, on any state.
  audio_handed :
      (client : LoggerClient) (token audio : Text) (s : Store) (v : UploadResponse)
      → fails release ≡ false
      → fails acknowledge ≡ false
      → Succeeds
          (post_audio decode bad authenticate find_duplicate hash sha256 ttl statement_fails others
            day_of decodes max_bytes required grace fails world client token audio s).0
          v
      → IsHandedOver sha256 audio s v.call_id v.duplicate
          (post_audio decode bad authenticate find_duplicate hash sha256 ttl statement_fails others
            day_of decodes max_bytes required grace fails world client token audio s).1
  unfolding post_audio audio_request
  audio_handed client token audio s v works acknowledges (h, e, b, low, high, clean) =
      let c =
        audio_request decode bad authenticate find_duplicate hash sha256 ttl statement_fails others
          day_of decodes max_bytes required grace fails world client token audio in
      let result =
        receive_audio authenticate find_duplicate hash sha256 day_of decodes max_bytes required
          grace fails c s in
      let same = arrived world.lost_audio (receive_response bad result.0) h e in
      handed fails sha256 audio v.call_id v.duplicate s result.1 result.0
        (told bad result.0 v (ap (λ x. x.body) same ∙ b)
          (subst (λ x. x.status_code < 300) (sym same) high))
        (receive_audio-Delivers authenticate find_duplicate hash sha256 day_of decodes max_bytes
          required grace fails c s works acknowledges)
        (receive_audio-Carries authenticate find_duplicate hash sha256 day_of decodes max_bytes
          required grace fails c audio s refl)

  metadata_calls :
      (client : LoggerClient) (request : CreateUploadRequest) (s : Store)
      → (post_metadata decode bad authenticate find_duplicate hash sha256 ttl statement_fails others
          day_of decodes max_bytes required grace fails world client request s).1.calls
        ≡ s.calls
  unfolding post_metadata
  metadata_calls client request s = refl

  -- Where the UPDATEs of the server that give an upload back and that record a duplicate succeed, and
  -- whatever else fails there or is lost on the way: a success of `Upload` that does not speak of a known
  -- call stands for a row of calls under the id of the answer, with the digest and the size of the spooled
  -- audio and a file that has its bytes; one that speaks of a known call has added no call.
  pub hand_over-IsHandedOver :
      (status_text : ℕ → Text) (client : LoggerClient) (request : CreateUploadRequest)
      (audio : Text) (s : Store) (call_id : Text) (known : Bool)
      → fails release ≡ false
      → fails acknowledge ≡ false
      → (hand_over decode bad authenticate find_duplicate hash sha256 ttl statement_fails others
          day_of decodes max_bytes required grace fails world status_text client request audio s).0
        ≡ ok (call_id, known)
      → IsHandedOver sha256 audio s call_id known
          (hand_over decode bad authenticate find_duplicate hash sha256 ttl statement_fails others
            day_of decodes max_bytes required grace fails world status_text client request audio
            s).1
  unfolding hand_over
  hand_over-IsHandedOver status_text client request audio s call_id known works acknowledges h =
      let post =
        post_metadata decode bad authenticate find_duplicate hash sha256 ttl statement_fails others
          day_of decodes max_bytes required grace fails world in
      let send =
        post_audio decode bad authenticate find_duplicate hash sha256 ttl statement_fails others
          day_of decodes max_bytes required grace fails world in
      elim (upload-Confirms status_text post send client request (some audio) s call_id known h) [
        | inl (u, said, old, id, same) ↦ inl (
          same,
          ap (λ t. t.calls)
                (upload_state-known status_text post send client request (some audio) s u said old)
              ∙ metadata_calls client request s,
        )
        | inr (u, v, bytes, said, new, token, opened, took, id, same) ↦
            moved sha256 bytes audio (post client request s).1 s v.call_id call_id v.duplicate known
              (send client u.upload_token bytes (post client request s).1).1
              (upload status_text post send client request (some audio) s).1
              (metadata_calls client request s) (let whole = opened in cc) id same
              (sym (
                upload_state-sent status_text post send client request (some audio) s u bytes said
                  new token opened))
              (audio_handed client u.upload_token bytes (post client request s).1 v works
                acknowledges took)
      ]
