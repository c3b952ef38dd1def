-- ===== src/Server/Ingest/Create.antt =====
-- What `createUpload` of backend/cmd/server/main.go does to the table pending_uploads.
use call_recorder.Prelude.{
  ℕ, Bool, true, false, not, ◌||◌, Option, none, some, [], ◌∷◌, ◌≡◌, sym, subst, inl, inr, arith,
  Bool-cases, Option-cases,
}
use call_recorder.Prelude.Text.{Text, text_eq, text_eq_iff, text_eq_refl, is_empty}
use call_recorder.Prelude.Dict.{Dict, get, put, has, get-put}
use call_recorder.Prelude.Dict.Distinct.{IsDistinct, has_of_get}
use call_recorder.Server.Limits.{ingestion_allowed}
use call_recorder.Server.Metadata.{CallMetadata, UploadRequest, validate_metadata, normalize}
use call_recorder.Server.Ingest.{
  PendingUpload, Ingestion, CreateRequest, Statement, is_finished, is_leased, find_key, has_key,
  new_upload, has_token, breaks_index, record_ingestion_rejection, insert, refresh, reuse, admit,
  canonical, create_upload, select_upload, update_upload, insert_upload,
}

-- Rows whose upload is finished stay as they are.
abbrev pub KeepsFinished : Dict PendingUpload → Dict PendingUpload → Type 0
KeepsFinished m m' =
    (id : Text) (u : PendingUpload)
    → get m id ≡ some u
    → is_finished u.status ≡ true
    → get m' id ≡ some u

-- The row that is found stands under the id that is found with it.
pub find_key-get :
    (sender key : Text) (m : Dict PendingUpload) (id : Text) (u : PendingUpload)
    → IsDistinct m
    → find_key sender key m ≡ some (id, u)
    → get m id ≡ some u
unfolding find_key get
find_key-get sender key [] id u d e = absurd (cc)
find_key-get sender key ((j, v) ∷ m) id u d e = elim (Bool-cases (has_key sender key v)) [
  | inl here ↦ ground (arith, text_eq_refl j)
  | inr later ↦
      let deep = find_key-get sender key m id u d.1 (rw later at e) in
      let there = has_of_get m id u deep in ground (arith, text_eq_iff j id)
]

-- A row under an id that was free, or in the place of one that is not finished.
KeepsFinished-put :
    (m : Dict PendingUpload) (id : Text) (v : PendingUpload)
    → ((u : PendingUpload) → get m id ≡ some u → is_finished u.status ≡ false)
    → KeepsFinished m (put m id v)
KeepsFinished-put m id v free k u e f = elim (Bool-cases (text_eq id k)) [
  | inl same ↦
      let here : get m id ≡ some u =
        subst (λ t. get m t ≡ some u) (sym ((text_eq_iff id k).0 same)) e in
      let unfinished = free u here in absurd (cc)
  | inr other ↦ rw (get-put, other) e
]

module _ (hash : Text → Text) (ttl : ℕ) (fails : Statement → Bool) where
  -- The insertion leaves the table or adds a row under a free id.
  insert-KeepsFinished :
      (c : CreateRequest) (r : UploadRequest) (token : Text) (s : Ingestion)
      → KeepsFinished s.uploads (insert hash ttl fails (λ m. m) c r token s).1.uploads
  unfolding insert
  insert-KeepsFinished c r token s id u e f = elim (Option-cases c.upload_id) [
    | inl nothing ↦ rw (nothing, insert) e
    | inr (new, is) ↦
        let refusal =
          fails insert_upload || has s.uploads new || has_token (hash token) new s.uploads in
        elim (Bool-cases refusal) [
          | inl refused ↦ rw (is, refused, insert) e
          | inr fine ↦ elim (Bool-cases (breaks_index r.sender_id r.idempotency_key s.uploads)) [
            | inl clash ↦ rw (is, fine, clash, insert) e
            | inr room ↦
                rw (is, fine, room, insert)
                  (KeepsFinished-put s.uploads new (new_upload hash ttl c r token)
                    (λ w h. let there = has_of_get s.uploads new w h in absurd (ground arith)) id u
                    e f)
          ]
        ]
  ]

  refresh-KeepsFinished :
      (c : CreateRequest) (r : UploadRequest) (token id : Text) (v : PendingUpload) (s : Ingestion)
      → get s.uploads id ≡ some v
      → is_finished v.status ≡ false
      → KeepsFinished s.uploads (refresh hash ttl fails (λ m. m) c r token id s).1.uploads
  unfolding refresh
  refresh-KeepsFinished c r token id v s at_id open_row k u e f =
      elim (Bool-cases (fails update_upload || has_token (hash token) id s.uploads)) [
        | inl refused ↦ rw (refused, refresh) e
        | inr fine ↦
            rw (fine, at_id, refresh)
              (KeepsFinished-put s.uploads id _ (λ w h. ground arith) k u e f)
      ]

  reuse-KeepsFinished :
      (c : CreateRequest) (r : UploadRequest) (token : Text) (s : Ingestion)
      → IsDistinct s.uploads
      → KeepsFinished s.uploads (reuse hash ttl fails (λ m. m) c r token s).1.uploads
  unfolding reuse
  reuse-KeepsFinished c r token s d k u e f = elim (Bool-cases (fails select_upload)) [
    | inl refused ↦ rw (refused, reuse) e
    | inr asked ↦ elim (Option-cases (find_key r.sender_id r.idempotency_key s.uploads)) [
      | inl nothing ↦ rw (asked, nothing, reuse) (insert-KeepsFinished c r token s k u e f)
      | inr ((id, v), found) ↦
          let here = find_key-get r.sender_id r.idempotency_key s.uploads id v d found in
          elim (Bool-cases (is_finished v.status)) [
            | inl over ↦ rw (asked, found, over, reuse) e
            | inr open_row ↦ elim (Bool-cases (is_leased c.now v)) [
              | inl leased ↦ rw (asked, found, open_row, leased, reuse) e
              | inr free ↦
                  rw (asked, found, open_row, free, reuse)
                    (refresh-KeepsFinished c r token id v s here open_row k u e f)
            ]
          ]
    ]
  ]

module _ (authenticate : Text → Text → Bool)
    (find_duplicate : Text → CallMetadata → Option (Option Text)) (hash : Text → Text) (ttl : ℕ)
    (fails : Statement → Bool) where
  admit-KeepsFinished :
      (c : CreateRequest) (r : UploadRequest) (s : Ingestion)
      → IsDistinct s.uploads
      → KeepsFinished s.uploads
          (admit authenticate find_duplicate hash ttl fails (λ m. m) c r s).1.uploads
  unfolding admit
  admit-KeepsFinished c r s d k u e f =
      let quota = ingestion_allowed c.now c.remote r.sender_id s.rates in
      let s' = record s { rates = quota.1 } in
      elim (Bool-cases (not quota.0)) [
        | inl limited ↦ rw (limited, admit) e
        | inr allowed ↦ elim (Option-cases (find_duplicate r.sender_id r.call)) [
          | inl broken ↦ rw (allowed, broken, admit) e
          | inr (some call_id, known) ↦ rw (allowed, known, admit) e
          | inr (none, new) ↦ elim (Option-cases c.token) [
            | inl nothing ↦ rw (allowed, new, nothing, admit) e
            | inr (token, given) ↦ elim (Bool-cases (is_empty r.idempotency_key)) [
              | inl plain ↦
                  rw (allowed, new, given, plain, admit)
                    (insert-KeepsFinished hash ttl fails c r token s' k u e f)
              | inr keyed ↦
                  rw (allowed, new, given, keyed, admit)
                    (reuse-KeepsFinished hash ttl fails c r token s' d k u e f)
            ]
          ]
        ]
      ]

  -- Where no id stands twice in the table and no other request changes it meanwhile, `createUpload`
  -- answers, on every branch,
  -- with every row whose upload is finished as it was: a call that was stored, recognised as a
  -- duplicate or put in quarantine is not opened again by its idempotency key.
  pub create_upload_keeps_finished :
      (c : CreateRequest) (s : Ingestion) (k : Text) (u : PendingUpload)
      → IsDistinct s.uploads
      → get s.uploads k ≡ some u
      → is_finished u.status ≡ true
      → get (create_upload authenticate find_duplicate hash ttl fails (λ m. m) c s).1.uploads k
        ≡ some u
  unfolding create_upload record_ingestion_rejection
  create_upload_keeps_finished c s k u d e f = elim (Option-cases c.body) [
    | inl bad ↦ rw (bad, create_upload) e
    | inr (body, decoded) ↦
        let r = normalize body in
        elim (Option-cases (validate_metadata c.now r)) [
          | inr (error, invalid) ↦ rw (decoded, invalid, create_upload) e
          | inl valid ↦ elim (Bool-cases (not (authenticate r.sender_id c.key))) [
            | inl stranger ↦ rw (decoded, valid, stranger, create_upload) e
            | inr sender ↦
                rw (decoded, valid, sender, create_upload)
                  (admit-KeepsFinished c (canonical r) s d k u e f)
          ]
        ]
  ]
