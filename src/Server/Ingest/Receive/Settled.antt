-- ===== src/Server/Ingest/Receive/Settled.antt =====
-- What every return of `receiveAudio` of backend/cmd/server/main.go leaves behind.
use call_recorder.Prelude.{
  ℕ, ◌+◌, Bool, true, false, ◌&&◌, ◌||◌, Option, none, some, length, take, ltb, ◌≡◌, ◌⊎◌, ◌++◌,
  refl, sym, ◌∙◌, subst, inl, inr, arith, Bool-cases, Option-cases,
}
use call_recorder.Prelude.Int.{ℤ}
use call_recorder.Prelude.Text.{Text, text_eq, text_eq_refl, is_empty, codes}
use call_recorder.Prelude.Dict.{Dict, get, put, get-put, get-remove}
use call_recorder.Server.Metadata.{CallMetadata}
use call_recorder.Server.Ingest.{Status, uploading, PendingUpload, record_ingestion_rejection}
use call_recorder.Server.Ingest.Receive.{
  StoredCall, Store, ReceiveReply, stored, in_quarantine, AudioRequest, Action, release, track,
  make_directory, move, sync, acknowledge, store, commit, commit_answer, remove_final, failure,
  place, remove_file, store_rows, set_upload, rejects, released, track_failure, should_quarantine,
  give_up, audio_path, reject_audio, store_call, transfer,
}

unfoldable pub is_uploading : Status → Bool
is_uploading uploading = true
is_uploading _ = false

-- No row but those of before is being uploaded, and the row `id` is not.
abbrev pub Frees : Text → Dict PendingUpload → Dict PendingUpload → Type 0
Frees id m m' =
    (k : Text) (w : PendingUpload)
    → get m' k ≡ some w
    → is_uploading w.status ≡ true
    → (text_eq id k ≡ false) × (get m k ≡ some w)

pub Frees-put :
    (id : Text) (m : Dict PendingUpload) (v : PendingUpload)
    → is_uploading v.status ≡ false
    → Frees id m (put m id v)
Frees-put id m v idle k w e busy = elim (Bool-cases (text_eq id k)) [
  | inl same ↦ let e' = rw (get-put, same) at e in absurd (ground arith)
  | inr other ↦ (other, rw (get-put, other) at e)
]

-- A row that was changed before makes no difference.
pub Frees-behind :
    (id : Text) (m m' : Dict PendingUpload) (v : PendingUpload)
    → Frees id (put m id v) m'
    → Frees id m m'
Frees-behind id m m' v h k w e busy =
    let (other, there) = h k w e busy in (other, rw (get-put, other) at there)

-- Each file of `b` is one of `a`.
abbrev pub AddsNone : Dict Text → Dict Text → Type 0
AddsNone a b = (k c : Text) → get b k ≡ some c → get a k ≡ some c

-- Behind an error of the server: no call is added but where the answer of a commit was lost, and no file
-- but where os.Remove failed.
abbrev pub Leaves : (Action → Bool) → Store → Store → Type 0
Leaves fails s s' =
    ((s'.calls ≡ s.calls) ⊎ (fails commit_answer ≡ true))
    × (AddsNone s.files s'.files ⊎ (fails remove_final ≡ true))

-- A reply that says that the call is stored stands for a row of calls and a file with its digest; one that
-- says that it is in quarantine adds a file there and no call; behind an internal error it is as above;
-- any other leaves calls and files alone.
abbrev pub Delivers : (Action → Bool) → (Text → Text) → Store → ReceiveReply → Store → Type 0
Delivers fails sha256 s (stored call_id path) s' =
    (row : StoredCall) × (audio : Text) × (get s'.calls call_id ≡ some row)
    × (row.audio_path ≡ path)
    × (get s'.files path ≡ some audio)
    × (row.audio_sha256 ≡ sha256 audio)
    × (row.audio_size ≡ length audio)
Delivers fails sha256 s in_quarantine s' =
    (s'.calls ≡ s.calls)
    × ((path : Text) × (audio : Text) × (s'.files
          ≡ put s.files (codes "quarantine/" ++ path) audio))
Delivers fails sha256 s failure s' = Leaves fails s s'
Delivers fails sha256 s _ s' = (s'.calls ≡ s.calls) × (s'.files ≡ s.files)

abbrev pub Settles : (Action → Bool) → (Text → Text) → Text → Store → ReceiveReply × Store → Type 0
Settles fails sha256 id s (reply, s') =
    Frees id s.ingestion.uploads s'.ingestion.uploads × Delivers fails sha256 s reply s'

-- Where calls and files are those of before.
pub same-Leaves :
    (fails : Action → Bool) (s s' : Store)
    → s'.calls ≡ s.calls
    → s'.files ≡ s.files
    → Leaves fails s s'
same-Leaves fails s s' calls files = (inl calls, inl λ k c e. rw (← files) e)

module _ (fails : Action → Bool) (works : fails release ≡ false) where
  Frees-give_up :
      (id : Text) (u : PendingUpload) (s : Store)
      → Frees id s.ingestion.uploads (give_up fails id u s).ingestion.uploads
  unfolding give_up set_upload is_uploading
  Frees-give_up id u s = rw (works, give_up) (Frees-put id s.ingestion.uploads (released u) refl)

  same_calls : (id : Text) (u : PendingUpload) (s : Store) → (give_up fails id u s).calls ≡ s.calls
  unfolding give_up set_upload
  same_calls id u s = rw (works, give_up) refl

  same_files : (id : Text) (u : PendingUpload) (s : Store) → (give_up fails id u s).files ≡ s.files
  unfolding give_up set_upload
  same_files id u s = rw (works, give_up) refl

module _ (fails : Action → Bool) (works : fails release ≡ false) where
  -- An upload that is given up is free again, and nothing is stored.
  quits :
      (id : Text) (u : PendingUpload) (s : Store)
      → Frees id s.ingestion.uploads (give_up fails id u s).ingestion.uploads
        × (((give_up fails id u s).calls ≡ s.calls) × ((give_up fails id u s).files ≡ s.files))
  quits id u s = (
    Frees-give_up fails works id u s,
    (same_calls fails works id u s, same_files fails works id u s),
  )

module _ (fails : Action → Bool) (works : fails release ≡ false) where
  -- An upload that is given up behind an error, with the calls and files of before.
  quits_failure :
      (id : Text) (u : PendingUpload) (s : Store)
      → Frees id s.ingestion.uploads (give_up fails id u s).ingestion.uploads
        × Leaves fails s (give_up fails id u s)
  quits_failure id u s =
      let (free, (calls, files)) = quits fails works id u s in
      (free, same-Leaves fails s (give_up fails id u s) calls files)

  -- The same where the file is removed again that was put under its final name.
  removed :
      (path audio : Text) (s : Store)
      → AddsNone s.files (remove_file fails path (place path audio s)).files
        ⊎ (fails remove_final ≡ true)
  unfolding remove_file place
  removed path audio s = elim (Bool-cases (fails remove_final)) [
    | inl broken ↦ inr broken
    | inr fine ↦
        inl λ k c e. let e' = rw (remove_file, fine, get-remove, get-put) at e in ground arith
  ]

  removed_rest :
      (path : Text) (s : Store)
      → ((remove_file fails path s).ingestion ≡ s.ingestion)
        × ((remove_file fails path s).calls ≡ s.calls)
  unfolding remove_file
  removed_rest path s = elim (Bool-cases (fails remove_final)) [
    | inl broken ↦ rw (remove_file, broken) (refl, refl)
    | inr fine ↦ rw (remove_file, fine) (refl, refl)
  ]

  cleans :
      (id path audio : Text) (u : PendingUpload) (s : Store)
      → Frees id s.ingestion.uploads
          (give_up fails id u (remove_file fails path (place path audio s))).ingestion.uploads
        × Leaves fails s (give_up fails id u (remove_file fails path (place path audio s)))
  unfolding place
  cleans id path audio u s =
      let t = remove_file fails path (place path audio s) in
      let (free, (calls, files)) = quits fails works id u t in
      let (tables, rows) = removed_rest path (place path audio s) in
      (
        subst (λ x. Frees id x.uploads (give_up fails id u t).ingestion.uploads) tables free,
        (
          inl (calls ∙ rows),
          subst (λ x. AddsNone s.files x ⊎ (fails remove_final ≡ true)) (sym files)
              (removed path audio s),
        ),
      )

  -- The rows are stored, and the file is removed on the way out.
  told_otherwise :
      (id path audio : Text) (over : PendingUpload) (calls : Dict StoredCall) (s : Store)
      → is_uploading over.status ≡ false
      → fails commit_answer ≡ true
      → let t : Store = record s { calls = calls; files = put s.files path audio } in
        Frees id s.ingestion.uploads
          (remove_file fails path (set_upload id over t)).ingestion.uploads
        × Leaves fails s (remove_file fails path (set_upload id over t))
  unfolding remove_file set_upload
  told_otherwise id path audio over calls s idle lost = elim (Bool-cases (fails remove_final)) [
    | inl broken ↦
        rw (remove_file, broken) (Frees-put id s.ingestion.uploads over idle, (inr lost, inr refl))
    | inr fine ↦
        rw (remove_file, fine)
          (
            Frees-put id s.ingestion.uploads over idle,
            (inr lost, inl λ k c e. let e' = rw (get-remove, get-put) at e in ground arith),
          )
  ]

get-put_self : {V : Type 0} (m : Dict V) (k : Text) (v : V) → get (put m k v) k ≡ some v
get-put_self m k v = rw (get-put, text_eq_refl) refl

module _ (sha256 : Text → Text) (day_of : ℤ → Text) (required grace : ℕ) (fails : Action → Bool)
    (works : fails release ≡ false) where
  store_rows-Settles :
      (id call_id path audio : Text) (u : PendingUpload) (s : Store)
      → Settles fails sha256 id s (
          store_rows sha256 day_of required grace fails id u call_id path audio
            (place path audio s))
  unfolding store_rows set_upload is_uploading place
  store_rows-Settles id call_id path audio u s =
      elim (Bool-cases (fails sync || fails store || fails commit)) [
        | inl broken ↦ rw (broken, store_rows) (cleans fails works id path audio u s)
        | inr fine ↦ elim (Bool-cases (fails commit_answer)) [
          | inl lost ↦
              rw (fine, lost, store_rows) (told_otherwise fails works id path audio _ _ s refl lost)
          | inr told ↦
              rw (fine, told, store_rows)
                (
                  Frees-put id s.ingestion.uploads _ refl,
                  (
                    _,
                    audio,
                    get-put_self s.calls call_id _,
                    refl,
                    get-put_self s.files path audio,
                    refl,
                    refl,
                  ),
                )
        ]
      ]

  store_call-Settles :
      (c : AudioRequest) (id : Text) (u : PendingUpload) (audio : Text) (s : Store)
      → Settles fails sha256 id s (store_call sha256 day_of required grace fails c id u audio s)
  unfolding store_call
  store_call-Settles c id u audio s = elim (Option-cases c.call_id) [
    | inl nothing ↦ rw (nothing, store_call) (quits_failure fails works id u s)
    | inr (call_id, given) ↦ elim (Bool-cases (fails make_directory || fails move)) [
      | inl broken ↦ rw (given, broken, store_call) (quits_failure fails works id u s)
      | inr fine ↦
          rw (given, fine, store_call)
            (store_rows-Settles id call_id (audio_path day_of u.metadata call_id u.audio_format)
              audio u s)
    ]
  ]

  reject_audio-Settles :
      (c : AudioRequest) (id : Text) (u : PendingUpload) (audio : Text) (s : Store)
      → Settles fails sha256 id s (reject_audio sha256 day_of required grace fails c id u audio s)
  unfolding reject_audio set_upload is_uploading rejects record_ingestion_rejection place
  reject_audio-Settles c id u audio s =
      let t = track_failure c.now (sha256 audio) u in
      let s' = set_upload id t s in
      let path = codes "quarantine/" ++ audio_path day_of u.metadata id u.audio_format in
      let behind =
        Frees-behind id s.ingestion.uploads (give_up fails id t s').ingestion.uploads t
          (Frees-give_up fails works id t s') in
      let same = (quits_failure fails works id t s').1 in
      elim (Bool-cases (fails track)) [
        | inl broken ↦ rw (broken, reject_audio) (quits_failure fails works id u s)
        | inr tracked ↦ elim (Bool-cases (c.legacy && should_quarantine t c.now required grace)) [
          | inr again ↦
              rw (tracked, again, reject_audio)
                (behind, (same_calls fails works id t s', same_files fails works id t s'))
          | inl away ↦ elim (Bool-cases (fails make_directory || fails move)) [
            | inl broken ↦ rw (tracked, away, broken, reject_audio) (behind, same)
            | inr moved ↦ elim (Bool-cases (fails sync || fails acknowledge)) [
              | inl broken ↦
                  let (free, leaves) = cleans fails works id path audio t s' in
                  rw (tracked, away, moved, broken, reject_audio)
                    (Frees-behind id s.ingestion.uploads _ t free, leaves)
              | inr fine ↦
                  rw (tracked, away, moved, fine, reject_audio)
                    (Frees-put id s.ingestion.uploads _ refl, (refl, (_, audio, refl)))
            ]
          ]
        ]
      ]

module _ (find_duplicate : Text → CallMetadata → Option (Option Text)) (sha256 : Text → Text)
    (day_of : ℤ → Text) (decodes : Text → Text → ℤ → Bool) (max_bytes required grace : ℕ)
    (fails : Action → Bool) (works : fails release ≡ false)
    (acknowledges : fails acknowledge ≡ false) where
  pub transfer-Settles :
      (c : AudioRequest) (id : Text) (u : PendingUpload) (s : Store)
      → Settles fails sha256 id s
          (transfer find_duplicate sha256 day_of decodes max_bytes required grace fails c id u s)
  unfolding transfer set_upload is_uploading
  transfer-Settles c id u s = elim (Option-cases c.body) [
    | inl nothing ↦ rw (nothing, transfer) (quits_failure fails works id u s)
    | inr (body, read) ↦
        let audio = take (max_bytes + 1) body in
        elim (Bool-cases (is_empty audio || ltb max_bytes (length audio))) [
          | inl bad ↦ rw (read, bad, transfer) (quits fails works id u s)
          | inr sized ↦ elim (Bool-cases (decodes audio u.audio_format u.metadata.duration_ms)) [
            | inr noise ↦
                rw (read, sized, noise, transfer)
                  (reject_audio-Settles sha256 day_of required grace fails works c id u audio s)
            | inl sound ↦ elim (Option-cases (find_duplicate u.sender_id u.metadata)) [
              | inl broken ↦
                  rw (read, sized, sound, broken, transfer) (quits_failure fails works id u s)
              | inr (some call_id, known) ↦
                  rw (read, sized, sound, known, acknowledges, transfer)
                    (Frees-put id s.ingestion.uploads _ refl, (refl, refl))
              | inr (none, new) ↦
                  rw (read, sized, sound, new, transfer)
                    (store_call-Settles sha256 day_of required grace fails works c id u audio s)
            ]
          ]
        ]
  ]
