-- ===== src/Server/Ingest/Receive/Handler.antt =====
-- What an answer of `receiveAudio` of backend/cmd/server/main.go says of the store it leaves.
use call_recorder.Prelude.{
  ℕ, Bool, true, false, not, ◌&&◌, ◌||◌, Option, some, ltb, ◌≡◌, refl, inl, inr, Bool-cases,
  Option-cases,
}
use call_recorder.Prelude.Int.{ℤ}
use call_recorder.Prelude.Text.{Text, text_eq, is_empty, has_byte, trim_space, to_upper}
use call_recorder.Prelude.Dict.{get}
use call_recorder.Server.Metadata.{CallMetadata, content_type_matches}
use call_recorder.Server.Ingest.{PendingUpload, is_finished, record_ingestion_rejection}
use call_recorder.Server.Ingest.Receive.{
  Store, ReceiveReply, stored, in_quarantine, failure, AudioRequest, Action, claim, expire, release,
  acknowledge, find, find_token, is_too_long, set_upload, rejects, is_claimable, claimed, transfer,
  receive_for, receive_audio,
}
use call_recorder.Server.Ingest.Receive.Settled.{
  is_uploading, Frees-put, Frees-behind, Leaves, same-Leaves, Delivers, transfer-Settles,
}

-- No row but those of before is being uploaded, and the reply is true.
abbrev Rests : (Action → Bool) → (Text → Text) → Store → ReceiveReply × Store → Type 0
Rests fails sha256 s (reply, s') =
    ((k : Text) (w : PendingUpload)
      → get s'.ingestion.uploads k ≡ some w
      → is_uploading w.status ≡ true
      → get s.ingestion.uploads k ≡ some w)
    × Delivers fails sha256 s reply s'

-- A store whose tables of uploads, calls and files are those of before.
same-Rests :
    (sha256 : Text → Text) (s : Store)
    → ((k : Text) (w : PendingUpload)
        → get s.ingestion.uploads k ≡ some w
        → is_uploading w.status ≡ true
        → get s.ingestion.uploads k ≡ some w)
      × ((s.calls ≡ s.calls) × (s.files ≡ s.files))
same-Rests sha256 s = ((λ k w e busy. e), (refl, refl))

-- The same behind an error of the server.
failed-Rests :
    (fails : Action → Bool) (sha256 : Text → Text) (s : Store)
    → ((k : Text) (w : PendingUpload)
        → get s.ingestion.uploads k ≡ some w
        → is_uploading w.status ≡ true
        → get s.ingestion.uploads k ≡ some w)
      × Leaves fails s s
failed-Rests fails sha256 s = ((λ k w e busy. e), same-Leaves fails s s refl refl)

-- What is delivered does not depend on the table of uploads.
Delivers-set_upload :
    (fails : Action → Bool) (sha256 : Text → Text) (id : Text) (u : PendingUpload) (s s' : Store)
    (reply : ReceiveReply)
    → Delivers fails sha256 (set_upload id u s) reply s'
    → Delivers fails sha256 s reply s'
unfolding set_upload
Delivers-set_upload fails sha256 id u s s' (stored call_id path) h = h
Delivers-set_upload fails sha256 id u s s' in_quarantine h = h
Delivers-set_upload fails sha256 id u s s' failure h = h
Delivers-set_upload fails sha256 id u s s' _ h = h

module _ (authenticate : Text → Text → Bool)
    (find_duplicate : Text → CallMetadata → Option (Option Text)) (hash : Text → Text)
    (sha256 : Text → Text) (day_of : ℤ → Text) (decodes : Text → Text → ℤ → Bool)
    (max_bytes required grace : ℕ) (fails : Action → Bool) where
  claimed-Rests :
      (c : AudioRequest) (id : Text) (v u : PendingUpload) (s : Store)
      → fails release ≡ false
      → fails acknowledge ≡ false
      → Rests fails sha256 s (
          transfer find_duplicate sha256 day_of decodes max_bytes required grace fails c id u
            (set_upload id v s))
  unfolding set_upload
  claimed-Rests c id v u s works acknowledges =
      let (frees, delivers) =
        transfer-Settles find_duplicate sha256 day_of decodes max_bytes required grace fails works
          acknowledges c id u (set_upload id v s) in
      (
        (λ k w e busy. (Frees-behind id s.ingestion.uploads _ v frees k w e busy).1),
        Delivers-set_upload fails sha256 id v s _ _ delivers,
      )

  receive_for-Rests :
      (c : AudioRequest) (id : Text) (u : PendingUpload) (s : Store)
      → fails release ≡ false
      → fails acknowledge ≡ false
      → Rests fails sha256 s (
          receive_for authenticate find_duplicate hash sha256 day_of decodes max_bytes required
            grace fails c id u s)
  unfolding receive_for set_upload is_uploading rejects record_ingestion_rejection
  receive_for-Rests c id u s works acknowledges =
      let stranger =
        not c.legacy
        && (not (text_eq (to_upper (trim_space c.sender)) u.sender_id)
            || not (authenticate u.sender_id c.key)) in
      elim (Bool-cases (is_finished u.status)) [
        | inl over ↦ rw (over, receive_for) (same-Rests sha256 s)
        | inr open_row ↦ elim (Bool-cases (ltb u.expires_at c.now)) [
          | inl late ↦ elim (Bool-cases (fails expire)) [
            | inl broken ↦ rw (open_row, late, broken, receive_for) (same-Rests sha256 s)
            | inr fine ↦
                rw (open_row, late, fine, receive_for)
                  (
                    (λ k w e busy. (Frees-put id s.ingestion.uploads _ refl k w e busy).1),
                    (refl, refl),
                  )
          ]
          | inr early ↦ elim (Bool-cases stranger) [
            | inl refused ↦ rw (open_row, early, refused, receive_for) (same-Rests sha256 s)
            | inr sender ↦ elim (Bool-cases (content_type_matches u.audio_format c.content_type)) [
              | inr other ↦ rw (open_row, early, sender, other, receive_for) (same-Rests sha256 s)
              | inl right ↦ elim (Bool-cases (fails claim)) [
                | inl broken ↦
                    rw (open_row, early, sender, right, broken, receive_for)
                      (failed-Rests fails sha256 s)
                | inr asked ↦ elim (Bool-cases (is_claimable c.now u)) [
                  | inr busy_row ↦
                      rw (open_row, early, sender, right, asked, busy_row, receive_for)
                        (same-Rests sha256 s)
                  | inl free ↦
                      rw (open_row, early, sender, right, asked, free, receive_for)
                        (claimed-Rests c id (claimed c.now u) (claimed c.now u) s works
                          acknowledges)
                ]
              ]
            ]
          ]
        ]
      ]

  receive_audio-Rests :
      (c : AudioRequest) (s : Store)
      → fails release ≡ false
      → fails acknowledge ≡ false
      → Rests fails sha256 s (
          receive_audio authenticate find_duplicate hash sha256 day_of decodes max_bytes required
            grace fails c s)
  unfolding receive_audio
  receive_audio-Rests c s works acknowledges =
      elim (Bool-cases (is_empty c.token || has_byte b'/' c.token)) [
        | inl bad ↦ rw (bad, receive_audio) (same-Rests sha256 s)
        | inr token ↦ elim (Bool-cases (is_too_long max_bytes c.content_length)) [
          | inl large ↦ rw (token, large, receive_audio) (same-Rests sha256 s)
          | inr sized ↦ elim (Bool-cases (fails find)) [
            | inl broken ↦ rw (token, sized, broken, receive_audio) (failed-Rests fails sha256 s)
            | inr asked ↦ elim (Option-cases (find_token (hash c.token) s.ingestion.uploads)) [
              | inl nothing ↦ rw (token, sized, asked, nothing, receive_audio) (same-Rests sha256 s)
              | inr ((id, u), found) ↦
                  rw (token, sized, asked, found, receive_audio)
                    (receive_for-Rests c id u s works acknowledges)
            ]
          ]
        ]
      ]

  -- Where the UPDATEs that give an upload back and that record a duplicate or a quarantine succeed, a
  -- row that is being uploaded after `receiveAudio` was so before, unchanged: no return of the handler,
  -- on whatever error, leaves an upload claimed.
  pub receive_audio_frees :
      (c : AudioRequest) (s : Store) (k : Text) (w : PendingUpload)
      → fails release ≡ false
      → fails acknowledge ≡ false
      → get
          (receive_audio authenticate find_duplicate hash sha256 day_of decodes max_bytes required
            grace fails c s).1.ingestion.uploads
          k
        ≡ some w
      → is_uploading w.status ≡ true
      → get s.ingestion.uploads k ≡ some w
  receive_audio_frees c s k w works acknowledges e busy =
      (receive_audio-Rests c s works acknowledges).0 k w e busy

  -- Where the UPDATEs that give an upload back and that record a duplicate or a quarantine succeed, the
  -- answer of `receiveAudio` is true. One that says that a call is stored stands for a row of calls with
  -- that path, the digest and the size of the audio in the file of that path. On every other answer no
  -- call is added, unless it is an internal error and the answer of a commit that was made was lost; and
  -- no file is added, unless it is one in quarantine and the answer says so, or it is an internal error
  -- and an os.Remove failed.
  pub receive_audio-Delivers :
      (c : AudioRequest) (s : Store)
      → fails release ≡ false
      → fails acknowledge ≡ false
      → let result =
          receive_audio authenticate find_duplicate hash sha256 day_of decodes max_bytes required
            grace fails c s in
        Delivers fails sha256 s result.0 result.1
  receive_audio-Delivers c s works acknowledges = (receive_audio-Rests c s works acknowledges).1
