-- ===== src/Server/Ingest/Accepted.antt =====
-- What an answer of `createUpload` with a token stands for, and what the UPDATE of an existing row can
-- do (backend/cmd/server/main.go).
use call_recorder.Prelude.{
  ℕ, ◌+◌, Bool, true, false, ◌||◌, some, ◌≡◌, refl, inl, inr, Bool-cases, Option-cases,
}
use call_recorder.Prelude.Text.{Text, text_eq_refl}
use call_recorder.Prelude.Dict.{Dict, get, put, has, get-put}
use call_recorder.Prelude.Dict.Distinct.{IsDistinct}
use call_recorder.Server.Metadata.{CallMetadata, UploadRequest}
use call_recorder.Server.Ingest.{
  pending, PendingUpload, Ingestion, CreateReply, accepted, CreateRequest, Statement, is_finished,
  is_leased, find_key, new_upload, has_token, breaks_index, insert, refresh, reuse, select_upload,
  update_upload, insert_upload,
}
use call_recorder.Server.Ingest.Create.{find_key-get}

-- The row of this id waits for the audio of this call under this token, until that time.
abbrev pub WaitsAt : Text → Text → CallMetadata → ℕ → Dict PendingUpload → Type 0
WaitsAt id token_hash call expires m =
    (u : PendingUpload) × (get m id ≡ some u)
    × (u.token_hash ≡ token_hash)
    × (u.metadata ≡ call)
    × (u.status ≡ pending)
    × (u.expires_at ≡ expires)

-- Some row waits.
abbrev pub Waits : Text → CallMetadata → ℕ → Dict PendingUpload → Type 0
Waits token_hash call expires m =
    (id : Text) × (u : PendingUpload) × (get m id ≡ some u)
    × (u.token_hash ≡ token_hash)
    × (u.metadata ≡ call)
    × (u.status ≡ pending)
    × (u.expires_at ≡ expires)

-- An answer with a token stands for a row that waits; other answers promise nothing.
abbrev pub Stands : (Text → Text) → CallMetadata → CreateReply → Dict PendingUpload → Type 0
Stands hash call (accepted token expires) m = Waits (hash token) call expires m
Stands hash call _ m = Unit

module _ (hash : Text → Text) (ttl : ℕ) (fails : Statement → Bool) where
  abbrev IsKept : CallMetadata → CreateReply × Ingestion → Type 0
  IsKept call r = Stands hash call r.0 r.1.uploads

  get-put_self :
      (m : Dict PendingUpload) (k : Text) (v : PendingUpload) → get (put m k v) k ≡ some v
  get-put_self m k v = rw (get-put, text_eq_refl) refl

  pub insert-Stands :
      (c : CreateRequest) (r : UploadRequest) (token : Text) (s : Ingestion)
      → IsKept r.call (insert hash ttl fails (λ m. m) c r token s)
  unfolding insert new_upload
  insert-Stands c r token s = elim (Option-cases c.upload_id) [
    | inl nothing ↦ rw (nothing, insert) tt
    | inr (new, is) ↦
        let refusal =
          fails insert_upload || has s.uploads new || has_token (hash token) new s.uploads in
        elim (Bool-cases refusal) [
          | inl refused ↦ rw (is, refused, insert) tt
          | inr fine ↦ elim (Bool-cases (breaks_index r.sender_id r.idempotency_key s.uploads)) [
            | inl clash ↦ rw (is, fine, clash, insert) tt
            | inr room ↦
                rw (is, fine, room, insert)
                  (
                    new,
                    new_upload hash ttl c r token,
                    get-put_self s.uploads new (new_upload hash ttl c r token),
                    refl,
                    refl,
                    refl,
                    refl,
                  )
          ]
        ]
  ]

  refresh-Stands :
      (c : CreateRequest) (r : UploadRequest) (token id : Text) (v : PendingUpload) (s : Ingestion)
      → get s.uploads id ≡ some v
      → IsKept r.call (refresh hash ttl fails (λ m. m) c r token id s)
  unfolding refresh
  refresh-Stands c r token id v s at_id =
      elim (Bool-cases (fails update_upload || has_token (hash token) id s.uploads)) [
        | inl refused ↦ rw (refused, refresh) tt
        | inr fine ↦
            rw (fine, at_id, refresh) (id, _, get-put_self s.uploads id _, refl, refl, refl, refl)
      ]

  pub reuse-Stands :
      (c : CreateRequest) (r : UploadRequest) (token : Text) (s : Ingestion)
      → IsDistinct s.uploads
      → IsKept r.call (reuse hash ttl fails (λ m. m) c r token s)
  unfolding reuse
  reuse-Stands c r token s d = elim (Bool-cases (fails select_upload)) [
    | inl refused ↦ rw (refused, reuse) tt
    | inr asked ↦ elim (Option-cases (find_key r.sender_id r.idempotency_key s.uploads)) [
      | inl nothing ↦ rw (asked, nothing, reuse) (insert-Stands c r token s)
      | inr ((id, v), found) ↦
          let here = find_key-get r.sender_id r.idempotency_key s.uploads id v d found in
          elim (Bool-cases (is_finished v.status)) [
            | inl over ↦ rw (asked, found, over, reuse) tt
            | inr open_row ↦ elim (Bool-cases (is_leased c.now v)) [
              | inl leased ↦ rw (asked, found, open_row, leased, reuse) tt
              | inr free ↦
                  rw (asked, found, open_row, free, reuse) (refresh-Stands c r token id v s here)
            ]
          ]
    ]
  ]

  -- Where the statements succeed, the token is new, and the row of the key is neither finished
  -- nor leased when its status is read, but another request has finished it before the UPDATE,
  -- that row is pending afterwards under the new token.
  pub reuse_reopens :
      (others : Dict PendingUpload → Dict PendingUpload) (c : CreateRequest) (r : UploadRequest)
      (token id : Text) (u v : PendingUpload) (s : Ingestion)
      → fails select_upload ≡ false
      → fails update_upload ≡ false
      → find_key r.sender_id r.idempotency_key s.uploads ≡ some (id, u)
      → is_finished u.status ≡ false
      → is_leased c.now u ≡ false
      → get (others s.uploads) id ≡ some v
      → is_finished v.status ≡ true
      → has_token (hash token) id (others s.uploads) ≡ false
      → WaitsAt id
          (hash token)
          r.call
          (c.now + ttl)
          (reuse hash ttl fails others c r token s).1.uploads
  unfolding reuse refresh
  reuse_reopens others c r token id u v s asks writes found open_row free at_id over fresh =
      rw (asks, found, open_row, free, writes, fresh, at_id, reuse, refresh)
        (_, get-put_self (others s.uploads) id _, refl, refl, refl, refl)
