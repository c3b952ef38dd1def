-- ===== src/Uploader/ProScan/Parse.antt =====
-- What a recording that `parseProScanRecording` of uploader/proscan-windows/proscan.go accepts has.
use call_recorder.Prelude.{
  ℕ, ◌-◌, ◌/◌, ◌==◌, ◌≡◌, ◌<◌, refl, sym, ap, subst, Bool, true, false, not, ◌||◌, none, some, ◌⊎◌,
  inl, inr, arith, length, take, ltb, Bool-cases, Option-cases, if◌then◌else◌,
}
use call_recorder.Prelude.Text.{Text, text_eq, is_empty, trim_space, codes}
use call_recorder.Prelude.Dict.{Dict}
use call_recorder.Prelude.Result.{Result, ok, Result-cases}
use call_recorder.Uploader.Model.{CreateUploadRequest, ProScanMetadata, ParsedRecording}
use call_recorder.Uploader.Config.{WatchConfig}
use call_recorder.Uploader.Id3.{split_pipe, TagResult, tag, bad_tag, parse_id3}
use call_recorder.Uploader.Mp3.{mp3_duration}
use call_recorder.Uploader.ProScan.{
  field, value, metadata_from_tags, conventional_id, recording_times, duration_of, request_of,
  recorded, with_duration, with_tag, with_result, parse_pro_scan_recording,
}

ok_inj : {A : Type 0} (a b : A) → ok a ≡ ok b → a ≡ b
ok_inj a b e = cc

-- What a branch of an if that is taken gives.
then_of : {A : Type 0} (x y z : A) (b : Bool) → b ≡ true → (if b then x else y) ≡ z → x ≡ z
then_of x y z true h e = e
then_of x y z false h e = absurd (cc)

else_of : {A : Type 0} (x y z : A) (b : Bool) → b ≡ false → (if b then x else y) ≡ z → y ≡ z
else_of x y z false h e = e
else_of x y z true h e = absurd (cc)

module _ (parse_time : Text → Text → Result ℕ) (format_time : ℕ → Text) (sha256 : Text → Text)
    (separator : ℕ) where
  -- The duration is that of the frames, or else the time between a start and a later end.
  abbrev pub IsDuration : Text → ℕ → ℕ → ℕ → ℕ → Type 0
  IsDuration audio tag_end start finish d =
      (mp3_duration audio tag_end ≡ some d)
      ⊎ ((mp3_duration audio tag_end ≡ none) × (start < finish) × (d ≡ finish - start))

  -- The talkgroup is the TGID of a trunked call, or the identifier of a conventional channel.
  abbrev pub IsTalkgroup : WatchConfig → ProScanMetadata → Text → Text → Type 0
  IsTalkgroup w m talkgroup call_type =
      (is_empty talkgroup ≡ false)
      × (((talkgroup ≡ trim_space m.tgid) × (call_type ≡ codes "trunked"))
          ⊎ ((is_empty (trim_space m.tgid) ≡ true)
              × (talkgroup ≡ conventional_id w.conventional_id_prefix m.frequency m.tone m.channel)
              × (call_type ≡ codes "conventional")))

  -- What the request says of the tag, the times and the duration.
  abbrev pub Says :
      Dict Text → Dict Text → Text → ℕ → ℕ → Text → Text → CreateUploadRequest → Type 0
  Says frames custom sender start duration talkgroup call_type q =
      (q.sender_id ≡ sender)
      × (q.idempotency_key ≡ q.call.source_call_id)
      × (q.call.start_time ≡ format_time start)
      × (q.call.duration_ms ≡ duration / 1000000)
      × (q.call.talkgroup_id ≡ talkgroup)
      × (q.call.call_type ≡ call_type)
      × (q.call.talkgroup_name
          ≡ value custom (codes "ChannelName") (split_pipe (field frames (codes "TIT2"))) 1)
      × (q.call.talkgroup_tag
          ≡ value custom (codes "DepartmentName") (split_pipe (field frames (codes "TPE1"))) 1)
      × (q.call.frequency
          ≡ value custom (codes "Frequency") (split_pipe (field frames (codes "TPE2"))) 2)

  says :
      (w : WatchConfig) (sender : Text) (frames custom : Dict Text) (m : ProScanMetadata) (d : ℕ)
      (talkgroup call_type : Text)
      → m ≡ record (metadata_from_tags frames custom w) { start = m.start; «end» = m.«end» }
      → Says frames custom sender m.start d talkgroup call_type
          (request_of parse_time format_time sha256 separator w sender m d talkgroup call_type)
  unfolding request_of metadata_from_tags
  says w sender frames custom m d talkgroup call_type read = (
    refl,
    refl,
    refl,
    refl,
    refl,
    refl,
    ap (λ x. x.channel) read,
    ap (λ x. x.department) read,
    ap (λ x. x.frequency) read,
  )

  -- The parts that a recording is made of.
  pub record IsRecording (audio filename sender : Text) (w : WatchConfig) (r : ParsedRecording)
      : Type 0 where
    pub frames : Dict Text
    pub custom : Dict Text
    pub tag_end : ℕ
    pub metadata : ProScanMetadata
    pub talkgroup : Text
    pub call_type : Text
    pub read : metadata ≡ record (metadata_from_tags frames custom w) {
      start = metadata.start;
      «end» = metadata.«end»;
    }
    pub tagged : parse_id3 audio ≡ tag frames custom tag_end
    pub timed :
        recording_times parse_time format_time sha256 separator
          (field frames (codes "TRDA"))
          (field custom (codes "EndingDate"))
          filename
        ≡ ok (metadata.start, metadata.«end»)
    pub lasts : 0 < r.audio_duration
    pub measured : IsDuration audio tag_end metadata.start metadata.«end» r.audio_duration
    pub named : IsTalkgroup w metadata talkgroup call_type
    pub said :
        Says frames custom sender metadata.start r.audio_duration talkgroup call_type r.request
    pub embedded : r.embedded ≡ metadata
    pub audio_bytes : r.audio_bytes ≡ audio
    pub request :
        r.request
        ≡ request_of parse_time format_time sha256 separator w sender metadata r.audio_duration
            talkgroup call_type

  duration_of-IsDuration :
      (audio : Text) (tag_end start finish d : ℕ)
      → duration_of parse_time format_time sha256 separator audio tag_end start finish ≡ ok d
      → IsDuration audio tag_end start finish d
  unfolding duration_of
  duration_of-IsDuration audio tag_end start finish d h =
      elim (Option-cases (mp3_duration audio tag_end)) [
        | inr (e, found) ↦
            let same : e ≡ d = ok_inj e d (rw (found, duration_of) at h) in inl (rw (← same) found)
        | inl missing ↦ elim (Bool-cases (ltb start finish)) [
          | inl later ↦ inr (
            missing,
            ground arith,
            sym (ok_inj (finish - start) d (rw (missing, duration_of, later) at h)),
          )
          | inr never ↦ let h' = rw (missing, duration_of, never) at h in absurd (cc)
        ]
      ]

  -- What holds of a recording with this talkgroup.
  abbrev Recorded :
      Text → Text → WatchConfig → ProScanMetadata → ℕ → Text → Text → ParsedRecording → Type 0
  Recorded audio sender w m d talkgroup call_type r =
      (is_empty talkgroup ≡ false)
      × (r.embedded ≡ m)
      × (r.audio_bytes ≡ audio)
      × (r.audio_duration ≡ d)
      × (r.request
          ≡ request_of parse_time format_time sha256 separator w sender m d talkgroup call_type)

  recorded-Recorded :
      (audio filename sender : Text) (w : WatchConfig) (m : ProScanMetadata) (d : ℕ)
      (talkgroup call_type : Text) (r : ParsedRecording)
      → recorded parse_time format_time sha256 separator audio filename w sender m d talkgroup
          call_type
        ≡ ok r
      → Recorded audio sender w m d talkgroup call_type r
  unfolding recorded
  recorded-Recorded audio filename sender w m d talkgroup call_type r h =
      elim (Bool-cases (is_empty talkgroup)) [
        | inl nothing ↦ let h' = rw (recorded, nothing) at h in absurd (cc)
        | inr some_group ↦
            let same = ok_inj _ r (rw (recorded, some_group) at h) in
            subst (Recorded audio sender w m d talkgroup call_type) same
              (some_group, refl, refl, refl, refl)
      ]

  -- What `with_duration` asks of a duration and metadata.
  abbrev Accepted : Text → Text → WatchConfig → ProScanMetadata → ℕ → ParsedRecording → Type 0
  Accepted audio sender w m d r =
      (talkgroup : Text) × (call_type : Text) × (0 < d)
      × IsTalkgroup w m talkgroup call_type
      × Recorded audio sender w m d talkgroup call_type r

  with_duration-Accepted :
      (audio filename sender : Text) (w : WatchConfig) (m : ProScanMetadata) (d : ℕ)
      (r : ParsedRecording)
      → with_duration parse_time format_time sha256 separator audio filename w sender m d ≡ ok r
      → Accepted audio sender w m d r
  unfolding with_duration
  with_duration-Accepted audio filename sender w m d r h = elim (Bool-cases (d == 0)) [
    | inl zero_time ↦ let h' = rw (with_duration, zero_time) at h in absurd (cc)
    | inr lasts ↦ elim (Bool-cases (is_empty (trim_space m.tgid))) [
      | inr trunked ↦
          let is =
            recorded-Recorded audio filename sender w m d (trim_space m.tgid) (codes "trunked") r (
              else_of _ _ _ (is_empty (trim_space m.tgid)) trunked
                (else_of _ _ _ (d == 0) lasts h)) in
          (trim_space m.tgid, codes "trunked", ground arith, (is.0, inl (refl, refl)), is)
      | inl conventional ↦
          let is =
            recorded-Recorded audio filename sender w m d
              (conventional_id w.conventional_id_prefix m.frequency m.tone m.channel)
              (codes "conventional") r
              (then_of _ _ _ (is_empty (trim_space m.tgid)) conventional
                (else_of _ _ _ (d == 0) lasts h)) in
          (
            conventional_id w.conventional_id_prefix m.frequency m.tone m.channel,
            codes "conventional",
            ground arith,
            (is.0, inr (conventional, refl, refl)),
            is,
          )
    ]
  ]

  recording :
      (audio filename sender : Text) (w : WatchConfig) (r : ParsedRecording)
      (frames custom : Dict Text) (tag_end d : ℕ) (m : ProScanMetadata)
      → m ≡ record (metadata_from_tags frames custom w) { start = m.start; «end» = m.«end» }
      → parse_id3 audio ≡ tag frames custom tag_end
      → recording_times parse_time format_time sha256 separator
          (field frames (codes "TRDA"))
          (field custom (codes "EndingDate"))
          filename
        ≡ ok (m.start, m.«end»)
      → IsDuration audio tag_end m.start m.«end» d
      → Accepted audio sender w m d r
      → IsRecording audio filename sender w r
  recording audio filename sender w r frames custom tag_end d m read tagged timed measured a =
      let (talkgroup, call_type, lasts, named, is) = a in
      let (filled, embedded, bytes, same, request) = is in
      record {
        frames = frames;
        custom = custom;
        tag_end = tag_end;
        metadata = m;
        talkgroup = talkgroup;
        call_type = call_type;
        read = read;
        tagged = tagged;
        timed = timed;
        lasts = rw same lasts;
        measured = rw same measured;
        named = named;
        said = rw (request, same) (says w sender frames custom m d talkgroup call_type read);
        embedded = embedded;
        audio_bytes = bytes;
        request = rw same request;
      }

  with_tag-IsRecording :
      (audio filename sender : Text) (w : WatchConfig) (r : ParsedRecording)
      (frames custom : Dict Text) (tag_end : ℕ)
      → parse_id3 audio ≡ tag frames custom tag_end
      → with_tag parse_time format_time sha256 separator audio filename w sender frames custom
          tag_end
        ≡ ok r
      → IsRecording audio filename sender w r
  unfolding with_tag
  with_tag-IsRecording audio filename sender w r frames custom tag_end tagged h =
      elim (Result-cases (
        recording_times parse_time format_time sha256 separator (field frames (codes "TRDA"))
          (field custom (codes "EndingDate")) filename)) [
            | inr (e, untimed) ↦ let h' = rw (with_tag, untimed) at h in absurd (cc)
            | inl ((start, finish), timed) ↦
                elim (Result-cases (
                  duration_of parse_time format_time sha256 separator audio tag_end start finish)) [
                    | inr (e, unmeasured) ↦
                        let h' = rw (with_tag, timed, unmeasured) at h in absurd (cc)
                    | inl (d, measured) ↦
                        let m : ProScanMetadata = record (metadata_from_tags frames custom w) {
                          start = start;
                          «end» = finish;
                        } in
                        recording audio filename sender w r frames custom tag_end d m refl tagged
                          timed (duration_of-IsDuration audio tag_end start finish d measured)
                          (with_duration-Accepted audio filename sender w m d r
                            (rw (with_tag, timed, measured) at h))
                  ]
          ]

  with_result-IsRecording :
      (audio filename sender : Text) (w : WatchConfig) (r : ParsedRecording) (t : TagResult)
      → parse_id3 audio ≡ t
      → with_result parse_time format_time sha256 separator audio filename w sender t ≡ ok r
      → IsRecording audio filename sender w r
  unfolding with_result
  with_result-IsRecording audio filename sender w r (bad_tag e) tagged h = absurd (cc)
  with_result-IsRecording audio filename sender w r (tag frames custom tag_end) tagged h =
      with_tag-IsRecording audio filename sender w r frames custom tag_end tagged h

  -- A recording that is accepted has a tag that is read, the metadata of that tag with its own times, a
  -- duration that is not zero and is that of its frames or else of its times, a talkgroup that is not
  -- empty, the whole audio, and the request that these make, which names the sender, the start, the duration,
  -- the talkgroup, and the channel, the department and the frequency of the tag.
  pub parse_pro_scan_recording-IsRecording :
      (audio filename sender : Text) (w : WatchConfig) (r : ParsedRecording)
      → parse_pro_scan_recording parse_time format_time sha256 separator audio filename w sender
        ≡ ok r
      → IsRecording audio filename sender w r
  unfolding parse_pro_scan_recording
  parse_pro_scan_recording-IsRecording audio filename sender w r h =
      elim (Bool-cases (ltb (length audio) 10 || not (text_eq (take 3 audio) (codes "ID3")))) [
        | inl headless ↦ let h' = rw (parse_pro_scan_recording, headless) at h in absurd (cc)
        | inr headed ↦
            with_result-IsRecording audio filename sender w r (parse_id3 audio) refl
              (else_of _ _ _ _ headed h)
      ]
