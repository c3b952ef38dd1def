-- ===== src/Server/Ingest/Promise.antt =====
-- What `createUpload` of backend/cmd/server/main.go promises a sender that gets a token.
use call_recorder.Prelude.{
  ℕ, Bool, true, not, Option, none, some, ◌≡◌, inl, inr, Bool-cases, Option-cases,
}
use call_recorder.Prelude.Text.{Text, is_empty}
use call_recorder.Prelude.Dict.{Dict}
use call_recorder.Prelude.Dict.Distinct.{IsDistinct}
use call_recorder.Server.Limits.{ingestion_allowed}
use call_recorder.Server.Metadata.{CallMetadata, UploadRequest, validate_metadata, normalize}
use call_recorder.Server.Metadata.Canonical.{canonicalize_incoming_call-IsValid}
use call_recorder.Server.Ingest.{
  PendingUpload, Ingestion, CreateReply, accepted, CreateRequest, Statement, admit, canonical,
  create_upload,
}
use call_recorder.Server.Ingest.Accepted.{Waits, Stands, insert-Stands, reuse-Stands}

module _ (authenticate : Text → Text → Bool)
    (find_duplicate : Text → CallMetadata → Option (Option Text)) (hash : Text → Text) (ttl : ℕ)
    (fails : Statement → Bool) where
  admit-Stands :
      (c : CreateRequest) (r : UploadRequest) (s : Ingestion)
      → IsDistinct s.uploads
      → let result = admit authenticate find_duplicate hash ttl fails (λ m. m) c r s in
        Stands hash r.call result.0 result.1.uploads
  unfolding admit
  admit-Stands c r s d =
      let quota = ingestion_allowed c.now c.remote r.sender_id s.rates in
      let s' = record s { rates = quota.1 } in
      elim (Bool-cases (not quota.0)) [
        | inl limited ↦ rw (limited, admit) tt
        | inr allowed ↦ elim (Option-cases (find_duplicate r.sender_id r.call)) [
          | inl broken ↦ rw (allowed, broken, admit) tt
          | inr (some call_id, known) ↦ rw (allowed, known, admit) tt
          | inr (none, new) ↦ elim (Option-cases c.token) [
            | inl nothing ↦ rw (allowed, new, nothing, admit) tt
            | inr (token, given) ↦ elim (Bool-cases (is_empty r.idempotency_key)) [
              | inl plain ↦
                  rw (allowed, new, given, plain, admit) (insert-Stands hash ttl fails c r token s')
              | inr keyed ↦
                  rw (allowed, new, given, keyed, admit)
                    (reuse-Stands hash ttl fails c r token s' d)
            ]
          ]
        ]
      ]

  -- An answer with a token is only for a sender that has authenticated, with a call that passes the
  -- tests, and stands for a row; other answers promise nothing.
  abbrev pub Promise : CreateRequest → UploadRequest → CreateReply → Dict PendingUpload → Type 0
  Promise c r (accepted token expires) m =
      (authenticate r.sender_id c.key ≡ true)
      × (validate_metadata c.now (canonical r) ≡ none)
      × Waits (hash token) (canonical r).call expires m
  Promise c r _ m = Unit

  promise :
      (c : CreateRequest) (r : UploadRequest) (reply : CreateReply) (m : Dict PendingUpload)
      → authenticate r.sender_id c.key ≡ true
      → validate_metadata c.now (canonical r) ≡ none
      → Stands hash (canonical r).call reply m
      → Promise c r reply m
  promise c r (accepted token expires) m a v stands = (a, v, stands)
  promise c r _ m a v stands = tt

  -- Where no id stands twice in the table and no other request changes it meanwhile, an answer of
  -- `createUpload` with a token is
  -- given only to a sender that has authenticated, for a call that passes the validation under the
  -- name of its system that is stored, and then a row of the table is pending under the hash of that
  -- token, with that call, until the time of the answer.
  pub create_upload-Promise :
      (c : CreateRequest) (body : UploadRequest) (s : Ingestion)
      → c.body ≡ some body
      → IsDistinct s.uploads
      → let result = create_upload authenticate find_duplicate hash ttl fails (λ m. m) c s in
        Promise c (normalize body) result.0 result.1.uploads
  unfolding create_upload canonical
  create_upload-Promise c body s decoded d =
      let r = normalize body in
      elim (Option-cases (validate_metadata c.now r)) [
        | inr (error, invalid) ↦ rw (decoded, invalid, create_upload) tt
        | inl valid ↦ elim (Bool-cases (authenticate r.sender_id c.key)) [
          | inr stranger ↦ rw (decoded, valid, stranger, create_upload) tt
          | inl sender ↦
              rw (decoded, valid, sender, create_upload)
                (promise c r _ _ sender (canonicalize_incoming_call-IsValid c.now r valid)
                  (admit-Stands c (canonical r) s d))
        ]
      ]
