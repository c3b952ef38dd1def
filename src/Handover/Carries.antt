-- ===== src/Handover/Carries.antt =====
-- When `receiveAudio` of backend/cmd/server/main.go says that it has stored a call, the file of the call is
-- the body of the request.
use call_recorder.Prelude.{
  ℕ, ◌+◌, ◌≡◌, refl, subst, Bool, not, ◌&&◌, ◌||◌, Option, none, some, length, take, take_whole,
  ltb, inl, inr, arith, Bool-cases, Option-cases,
}
use call_recorder.Prelude.Int.{ℤ}
use call_recorder.Prelude.Text.{
  Text, text_eq, text_eq_refl, is_empty, has_byte, to_upper, trim_space,
}
use call_recorder.Prelude.Dict.{get, get-put}
use call_recorder.Server.Metadata.{CallMetadata, content_type_matches}
use call_recorder.Server.Ingest.{PendingUpload, is_finished}
use call_recorder.Server.Ingest.Receive.{
  Store, ReceiveReply, stored, AudioRequest, Action, find, claim, make_directory, move, sync, store,
  commit, commit_answer, track, acknowledge, place, store_rows, audio_path, set_upload,
  should_quarantine, track_failure, find_token, is_too_long, is_claimable, claimed, reject_audio,
  store_call, transfer, receive_for, receive_audio,
}

-- An answer of success stands for the file.
abbrev pub Carries : Text → ReceiveReply → Store → Type 0
Carries audio (stored call_id path) s' = get s'.files path ≡ some audio
Carries audio _ s' = Unit

module _ (find_duplicate : Text → CallMetadata → Option (Option Text)) (sha256 : Text → Text)
    (day_of : ℤ → Text) (decodes : Text → Text → ℤ → Bool) (max_bytes required grace : ℕ)
    (fails : Action → Bool) where
  store_rows-Carries :
      (id call_id path audio : Text) (u : PendingUpload) (s : Store)
      → let result =
          store_rows sha256 day_of required grace fails id u call_id path audio
            (place path audio s) in
        Carries audio result.0 result.1
  unfolding store_rows set_upload place
  store_rows-Carries id call_id path audio u s =
      elim (Bool-cases (fails sync || fails store || fails commit)) [
        | inl broken ↦ rw (broken, store_rows) tt
        | inr made ↦ elim (Bool-cases (fails commit_answer)) [
          | inl lost ↦ rw (made, lost, store_rows) tt
          | inr told ↦ rw (made, told, store_rows) (rw (get-put, text_eq_refl) refl)
        ]
      ]

  store_call-Carries :
      (c : AudioRequest) (id : Text) (u : PendingUpload) (audio : Text) (s : Store)
      → let result = store_call sha256 day_of required grace fails c id u audio s in
        Carries audio result.0 result.1
  unfolding store_call
  store_call-Carries c id u audio s = elim (Option-cases c.call_id) [
    | inl none_made ↦ rw (none_made, store_call) tt
    | inr (call_id, made) ↦ elim (Bool-cases (fails make_directory || fails move)) [
      | inl broken ↦ rw (made, store_call, broken) tt
      | inr placed ↦
          rw (made, store_call, placed)
            (store_rows-Carries id call_id (audio_path day_of u.metadata call_id u.audio_format)
              audio u s)
    ]
  ]

  reject_audio-Carries :
      (c : AudioRequest) (id : Text) (u : PendingUpload) (audio body : Text) (s : Store)
      → let result = reject_audio sha256 day_of required grace fails c id u audio s in
        Carries body result.0 result.1
  unfolding reject_audio
  reject_audio-Carries c id u audio body s = elim (Bool-cases (fails track)) [
    | inl broken ↦ rw (broken, reject_audio) tt
    | inr works ↦
        elim (Bool-cases (
          c.legacy
          && should_quarantine (track_failure c.now (sha256 audio) u) c.now required grace)) [
            | inr counted ↦ rw (works, reject_audio, counted) tt
            | inl away ↦ elim (Bool-cases (fails make_directory || fails move)) [
              | inl lost ↦ rw (works, reject_audio, away, lost) tt
              | inr placed ↦ elim (Bool-cases (fails sync || fails acknowledge)) [
                | inl lost ↦ rw (works, reject_audio, away, placed, lost) tt
                | inr kept ↦ rw (works, reject_audio, away, placed, kept) tt
              ]
            ]
          ]
  ]

  transfer-Carries :
      (c : AudioRequest) (id body : Text) (u : PendingUpload) (s : Store)
      → c.body ≡ some body
      → let result =
          transfer find_duplicate sha256 day_of decodes max_bytes required grace fails c id u s in
        Carries body result.0 result.1
  unfolding transfer
  transfer-Carries c id body u s sent =
      let audio = take (max_bytes + 1) body in
      elim (Bool-cases (is_empty audio || ltb max_bytes (length audio))) [
        | inl bad ↦ rw (sent, bad, transfer) tt
        | inr sized ↦ elim (Bool-cases (decodes audio u.audio_format u.metadata.duration_ms)) [
          | inr noise ↦ rw (sent, sized, noise, transfer) (reject_audio-Carries c id u audio body s)
          | inl sound ↦ elim (Option-cases (find_duplicate u.sender_id u.metadata)) [
            | inl broken ↦ rw (sent, sized, sound, broken, transfer) tt
            | inr (some call_id, known) ↦ rw (sent, sized, sound, known, transfer) tt
            | inr (none, new) ↦
                let result = store_call sha256 day_of required grace fails c id u audio s in
                rw (sent, sized, sound, new, transfer)
                  (subst (λ x. Carries x result.0 result.1)
                    (take_whole max_bytes body (ground arith)) (store_call-Carries c id u audio s))
          ]
        ]
      ]

module _ (authenticate : Text → Text → Bool)
    (find_duplicate : Text → CallMetadata → Option (Option Text)) (hash sha256 : Text → Text)
    (day_of : ℤ → Text) (decodes : Text → Text → ℤ → Bool) (max_bytes required grace : ℕ)
    (fails : Action → Bool) where
  receive_for-Carries :
      (c : AudioRequest) (id body : Text) (u : PendingUpload) (s : Store)
      → c.body ≡ some body
      → let result =
          receive_for authenticate find_duplicate hash sha256 day_of decodes max_bytes required
            grace fails c id u s in
        Carries body result.0 result.1
  unfolding receive_for
  receive_for-Carries c id body u s sent =
      let stranger =
        not c.legacy
        && (not (text_eq (to_upper (trim_space c.sender)) u.sender_id)
            || not (authenticate u.sender_id c.key)) in
      elim (Bool-cases (is_finished u.status)) [
        | inl over ↦ rw (over, receive_for) tt
        | inr open_row ↦ elim (Bool-cases (ltb u.expires_at c.now)) [
          | inl late ↦ rw (open_row, late, receive_for) tt
          | inr early ↦ elim (Bool-cases stranger) [
            | inl refused ↦ rw (open_row, early, refused, receive_for) tt
            | inr sender ↦ elim (Bool-cases (content_type_matches u.audio_format c.content_type)) [
              | inr other ↦ rw (open_row, early, sender, other, receive_for) tt
              | inl right ↦ elim (Bool-cases (fails claim)) [
                | inl broken ↦ rw (open_row, early, sender, right, broken, receive_for) tt
                | inr asked ↦ elim (Bool-cases (is_claimable c.now u)) [
                  | inr busy_row ↦
                      rw (open_row, early, sender, right, asked, busy_row, receive_for) tt
                  | inl free ↦
                      rw (open_row, early, sender, right, asked, free, receive_for)
                        (transfer-Carries find_duplicate sha256 day_of decodes max_bytes required
                          grace fails c id body (claimed c.now u)
                          (set_upload id (claimed c.now u) s) sent)
                ]
              ]
            ]
          ]
        ]
      ]

  -- The file of a call that is stored has the bytes of the request.
  pub receive_audio-Carries :
      (c : AudioRequest) (body : Text) (s : Store)
      → c.body ≡ some body
      → let result =
          receive_audio authenticate find_duplicate hash sha256 day_of decodes max_bytes required
            grace fails c s in
        Carries body result.0 result.1
  unfolding receive_audio
  receive_audio-Carries c body s sent =
      elim (Bool-cases (is_empty c.token || has_byte b'/' c.token)) [
        | inl bad ↦ rw (bad, receive_audio) tt
        | inr token ↦ elim (Bool-cases (is_too_long max_bytes c.content_length)) [
          | inl large ↦ rw (token, large, receive_audio) tt
          | inr sized ↦ elim (Bool-cases (fails find)) [
            | inl broken ↦ rw (token, sized, broken, receive_audio) tt
            | inr asked ↦ elim (Option-cases (find_token (hash c.token) s.ingestion.uploads)) [
              | inl nothing ↦ rw (token, sized, asked, nothing, receive_audio) tt
              | inr ((id, u), found) ↦
                  rw (token, sized, asked, found, receive_audio)
                    (receive_for-Carries c id body u s sent)
            ]
          ]
        ]
      ]
