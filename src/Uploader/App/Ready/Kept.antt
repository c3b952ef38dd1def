-- ===== src/Uploader/App/Ready/Kept.antt =====
-- `processReadyFiles` of uploader/proscan-windows/app.go loses no recording.
use call_recorder.Prelude.{
  ℕ, ◌≡◌, ◌≤◌, ◌+◌, refl, subst, Bool, true, false, Option, none, some, [], ◌∷◌, ◌⊎◌, inl, inr,
  arith, Bool-cases, ltb, take, take_whole, length,
}
use call_recorder.Prelude.Text.{Text, text_eq_refl}
use call_recorder.Prelude.Dict.{Dict, has, member}
use call_recorder.Prelude.Result.{Result, ok, err, Result-cases}
use call_recorder.Uploader.Model.{ParsedRecording}
use call_recorder.Uploader.Effects.{Failure, Exit, returned, refused, crashed}
use call_recorder.Uploader.Config.{WatchConfig}
use call_recorder.Uploader.Fingerprint.{FileInfo, source_fingerprint, recording_fingerprint}
use call_recorder.Uploader.Spool.State.{Spool}
use call_recorder.Uploader.Spool.Methods.{queue}
use call_recorder.Uploader.Spool.Knows.{Remembers, queue-Remembers}
use call_recorder.Uploader.App.Observe.{ObservedFile, is_changed}
use call_recorder.Uploader.App.Ready.{
  Stat, missing, unknown, found, Opening, not_opened, held, opened, Moment, Turn, dropped, kept,
  died, is_waiting, after_queue, queue_recording, with_content, with_file, with_opening, with_stat,
  process_file, with_kept, process_ready_files,
}

module _ (sha256 absolute : Text → Text) (failure_text : Failure → Text)
    (settle max_audio_bytes : ℕ) (credentials : WatchConfig → Result Text)
    (parse : Text → Text → WatchConfig → Text → Result ParsedRecording) where
  -- The recording with which a file was queued: what its stat and its open file say is what was
  -- observed, its content is whole and within the limit, and the spool knows its fingerprint.
  pub record IsTaken (m : Moment) (o : ObservedFile) (t : Spool) : Type 0 where
    pub info : FileInfo
    pub locked : FileInfo
    pub content : Text
    pub sender : Text
    pub recording : ParsedRecording
    pub seen : m.stat ≡ found info
    pub same : is_changed o info ≡ false
    pub opens : m.opening ≡ opened (ok locked) (ok content)
    pub same_locked : is_changed o locked ≡ false
    pub within : length content ≤ max_audio_bytes
    pub known_sender : credentials o.watch ≡ ok sender
    pub parsed : parse content o.path o.watch sender ≡ ok recording
    pub known :
        member t.known (recording_fingerprint sha256 content recording.request.idempotency_key)
        ≡ true

  -- Why a file may be dropped: it is gone, it is as observed and its own fingerprint is known, or it
  -- is taken.
  abbrev pub Accounted : Moment → ObservedFile → Spool → Type 0
  Accounted m o t =
      (m.stat ≡ missing)
      ⊎ ((info : FileInfo) × (m.stat ≡ found info)
          × (is_changed o info ≡ false)
          × (member t.known (source_fingerprint sha256 absolute o.path info) ≡ true))
      ⊎ IsTaken m o t

  abbrev Grows : Spool → Spool → Type 0
  Grows s t = (g : Text) → member s.known g ≡ true → member t.known g ≡ true

  -- A file that is dropped is accounted for; what was known stays known.
  abbrev Fate : Moment → ObservedFile → Spool → Turn × Spool → Type 0
  Fate m o s (dropped, t) = Grows s t × Accounted m o t
  Fate m o s (_, t) = Grows s t

  after_queue-Fate :
      (now : ℕ) (m : Moment) (o : ObservedFile) (f : Text) (s : Spool)
      (r : Exit (Text × Bool) × Spool)
      → Remembers f s r
      → ((t : Spool) → member t.known f ≡ true → IsTaken m o t)
      → Fate m o s (
          after_queue sha256 absolute failure_text settle max_audio_bytes credentials parse now o r)
  unfolding after_queue
  after_queue-Fate now m o f s (returned q, t) h taken = (h.0, inr (inr (taken t h.1)))
  after_queue-Fate now m o f s (refused e, t) h taken = h
  after_queue-Fate now m o f s (crashed, t) h taken = h

  module _ (now : ℕ) (m : Moment) (o : ObservedFile) (s : Spool) where
    with_content-Fate :
        (info locked : FileInfo) (raw : Text)
        → m.stat ≡ found info
        → is_changed o info ≡ false
        → (ltb max_audio_bytes (length raw) ≡ false → m.opening ≡ opened (ok locked) (ok raw))
        → is_changed o locked ≡ false
        → Fate m o s (
            with_content sha256 absolute failure_text settle max_audio_bytes credentials parse now m
              o raw s)
    unfolding with_content queue_recording
    with_content-Fate info locked raw seen same opens same_locked =
        elim (Bool-cases (ltb max_audio_bytes (length raw))) [
          | inl over ↦ rw (with_content, over) (λ g h. h)
          | inr fits ↦ elim (Result-cases (credentials o.watch)) [
            | inr (e, unknown_sender) ↦ rw (with_content, fits, unknown_sender) (λ g h. h)
            | inl (sender, known_sender) ↦ elim (Result-cases (parse raw o.path o.watch sender)) [
              | inr (e, unreadable) ↦ rw (with_content, fits, known_sender, unreadable) (λ g h. h)
              | inl (recording, parsed) ↦
                  let print = recording_fingerprint sha256 raw recording.request.idempotency_key in
                  rw (with_content, fits, known_sender, parsed)
                    (after_queue-Fate now m o print s
                      (queue sha256 m.plan m.queue_time m.suffix o.path print recording s)
                      (queue-Remembers sha256 m.plan m.queue_time m.suffix o.path print recording s)
                      λ t known. record {
                        info = info;
                        locked = locked;
                        content = raw;
                        sender = sender;
                        recording = recording;
                        seen = seen;
                        same = same;
                        opens = opens fits;
                        same_locked = same_locked;
                        within = ground arith;
                        known_sender = known_sender;
                        parsed = parsed;
                        known = known;
                      })
            ]
          ]
        ]

    with_file-Fate :
        (info : FileInfo) (locked : Result FileInfo) (content : Result Text)
        → m.stat ≡ found info
        → is_changed o info ≡ false
        → m.opening ≡ opened locked content
        → Fate m o s (
            with_file sha256 absolute failure_text settle max_audio_bytes credentials parse now m o
              locked content s)
    unfolding with_file
    with_file-Fate info (err e) content seen same opens = λ g h. h
    with_file-Fate info (ok locked) (err e) seen same opens =
        elim (Bool-cases (is_changed o locked)) [
          | inl again ↦ rw (with_file, again) (λ g h. h)
          | inr still ↦ rw (with_file, still) (λ g h. h)
        ]
    with_file-Fate info (ok locked) (ok content) seen same opens =
        elim (Bool-cases (is_changed o locked)) [
          | inl again ↦ rw (with_file, again) (λ g h. h)
          | inr still ↦
              rw (with_file, still)
                (with_content-Fate info locked (take (max_audio_bytes + 1) content) seen same
                  (λ fits. rw (take_whole max_audio_bytes content fits) opens) still)
        ]

    with_opening-Fate :
        (info : FileInfo) (opening : Opening)
        → m.stat ≡ found info
        → is_changed o info ≡ false
        → m.opening ≡ opening
        → Fate m o s (
            with_opening sha256 absolute failure_text settle max_audio_bytes credentials parse now m
              o opening s)
    unfolding with_opening
    with_opening-Fate info (not_opened e) seen same opens = λ g h. h
    with_opening-Fate info held seen same opens = λ g h. h
    with_opening-Fate info (opened locked content) seen same opens =
        with_file-Fate info locked content seen same opens

    with_stat-Fate :
        (stat : Stat)
        → m.stat ≡ stat
        → Fate m o s (
            with_stat sha256 absolute failure_text settle max_audio_bytes credentials parse now m o
              stat s)
    unfolding with_stat
    with_stat-Fate missing seen = (λ g h. h, inl seen)
    with_stat-Fate unknown seen = λ g h. h
    with_stat-Fate (found info) seen = elim (Bool-cases (is_changed o info)) [
      | inl again ↦ rw (with_stat, again) (λ g h. h)
      | inr same ↦
          elim (Bool-cases (member s.known (source_fingerprint sha256 absolute o.path info))) [
            | inl known ↦
                rw (with_stat, same, known) (λ g h. h, inr (inl (info, seen, same, known)))
            | inr fresh ↦
                rw (with_stat, same, fresh) (with_opening-Fate info m.opening seen same refl)
          ]
    ]

    process_file-Fate : Fate m o s (
        process_file sha256 absolute failure_text settle max_audio_bytes credentials parse now m o
          s)
    unfolding process_file
    process_file-Fate =
        elim (Bool-cases (
          is_waiting sha256 absolute failure_text settle max_audio_bytes credentials parse now o)) [
            | inl waits ↦ rw (process_file, waits) (λ g h. h)
            | inr ready ↦ rw (process_file, ready) (with_stat-Fate m.stat refl)
          ]

  later-Accounted :
      (m : Moment) (o : ObservedFile) (t u : Spool) → Grows t u → Accounted m o t → Accounted m o u
  later-Accounted m o t u g (inl gone) = inl gone
  later-Accounted m o t u g (inr (inl (info, seen, same, known))) =
      inr (inl (info, seen, same, g _ known))
  later-Accounted m o t u g (inr (inr taken)) = inr (
      inr (record {
        info = taken.info;
        locked = taken.locked;
        content = taken.content;
        sender = taken.sender;
        recording = taken.recording;
        seen = taken.seen;
        same = taken.same;
        opens = taken.opens;
        same_locked = taken.same_locked;
        within = taken.within;
        known_sender = taken.known_sender;
        parsed = taken.parsed;
        known = g _ taken.known;
      }))

  -- The observed files have this one under this key.
  abbrev pub Observes : Text → ObservedFile → Dict ObservedFile → Type 0
  Observes key o [] = ⊥
  Observes key o ((k, v) ∷ m) = ((k ≡ key) × (v ≡ o)) ⊎ Observes key o m

  -- The process died, or each file is still observed under its key or is accounted for.
  abbrev Fates :
      (Text → Moment) → Dict ObservedFile → Spool → Option (Dict ObservedFile) × Spool → Type 0
  Fates at m s (none, t) = Unit
  Fates at m s (some rest, t) =
      Grows s t
      × ((key : Text) (o : ObservedFile)
          → Observes key o m
          → (has rest key ≡ true) ⊎ Accounted (at key) o t)

  kept-Fates :
      (at : Text → Moment) (k : Text) (v next : ObservedFile) (m : Dict ObservedFile) (s u : Spool)
      (r : Option (Dict ObservedFile) × Spool)
      → Grows s u
      → Fates at m u r
      → Fates at ((k, v) ∷ m) s (with_kept k next r)
  unfolding has
  kept-Fates at k v next m s u (none, t) g h = tt
  kept-Fates at k v next m s u (some rest, t) g h = (
    λ f e. h.0 f (g f e),
    λ key o place. elim place [
      | inl this ↦ inl (rw (has, this.0) (ground (arith, text_eq_refl key)))
      | inr there ↦ elim (h.1 key o there) [
        | inl e ↦ inl (rw (has, e) (ground arith))
        | inr a ↦ inr a
      ]
    ],
  )

  dropped-Fates :
      (at : Text → Moment) (k : Text) (v : ObservedFile) (m : Dict ObservedFile) (s u : Spool)
      (r : Option (Dict ObservedFile) × Spool)
      → Grows s u
      → Accounted (at k) v u
      → Fates at m u r
      → Fates at ((k, v) ∷ m) s r
  dropped-Fates at k v m s u (none, t) g a h = tt
  dropped-Fates at k v m s u (some rest, t) g a h = (
    λ f e. h.0 f (g f e),
    λ key o place. elim place [
      | inl this ↦ inr (
          subst (λ x. Accounted (at x) o t) this.0
            (subst (λ x. Accounted (at k) x t) this.1 (later-Accounted (at k) v u t h.0 a)))
      | inr there ↦ h.1 key o there
    ],
  )

  run-Fates :
      (now : ℕ) (at : Text → Moment) (m : Dict ObservedFile) (s : Spool)
      → Fates at m s (
          process_ready_files sha256 absolute failure_text settle max_audio_bytes credentials parse
            now at m s)
  unfolding process_ready_files
  run-Fates now at [] s = (λ g h. h, λ key o e. absurd e)
  run-Fates now at ((k, v) ∷ m) s =
      after
        (process_file sha256 absolute failure_text settle max_audio_bytes credentials parse now
          (at k) v s)
        (process_file-Fate now (at k) v s) (λ u. run-Fates now at m u)
    where
      after :
          (r : Turn × Spool)
          → Fate (at k) v s r
          → ((u : Spool)
              → Fates at m u (
                  process_ready_files sha256 absolute failure_text settle max_audio_bytes
                    credentials parse now at m u))
          → Fates at ((k, v) ∷ m) s (elim r.0 [
            | died ↦ (none, r.1)
            | dropped ↦
                process_ready_files sha256 absolute failure_text settle max_audio_bytes credentials
                  parse now at m r.1
            | kept next ↦ with_kept k next (
                process_ready_files sha256 absolute failure_text settle max_audio_bytes credentials
                  parse now at m r.1)
          ])
      after (died, u) f run = tt
      after (dropped, u) f run = dropped-Fates at k v m s u _ f.0 f.1 (run u)
      after (kept next, u) f run = kept-Fates at k v next m s u _ f (run u)

  -- Behind a run over the observed files that the process survives, each of them is still observed,
  -- or it is gone, or it is as it was observed and the spool knows its fingerprint, or the spool knows
  -- the recording that was parsed from its whole content, within the limit, under the lock.
  pub process_ready_files-Accounted :
      (now : ℕ) (at : Text → Moment) (m rest : Dict ObservedFile) (s t : Spool) (key : Text)
      (o : ObservedFile)
      → process_ready_files sha256 absolute failure_text settle max_audio_bytes credentials parse
          now at m s
        ≡ (some rest, t)
      → Observes key o m
      → (has rest key ≡ true) ⊎ Accounted (at key) o t
  process_ready_files-Accounted now at m rest s t key o e place =
      (subst (Fates at m s) e (run-Fates now at m s)).1 key o place
