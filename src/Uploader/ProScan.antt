-- ===== src/Uploader/ProScan.antt =====
-- uploader/proscan-windows/proscan.go but for the tag and the frames: what a ProScan recording becomes.
pub mod Identifier
pub mod Parse
use call_recorder.Prelude.{
  ℕ, ◌+◌, ◌-◌, ◌/◌, ◌==◌, Bool, true, false, not, ◌&&◌, ◌||◌, Option, none, some, List, [], ◌∷◌,
  ◌++◌, length, take, drop, get_elem?, get_or, if◌then◌else◌, ltb, leb,
}
use call_recorder.Prelude.Text.{
  Text, text_eq, codes, is_empty, has_byte, trim_space, trim_left, trim_right, to_upper,
}
use call_recorder.Prelude.Dict.{Dict, get, has}
use call_recorder.Prelude.Decimal.{decimal}
use call_recorder.Prelude.Result.{Result, ok, err}
use call_recorder.Uploader.Model.{
  CallMetadata, CreateUploadRequest, ProScanMetadata, ParsedRecording,
}
use call_recorder.Uploader.Config.{WatchConfig, or_true}
use call_recorder.Uploader.Id3.{
  split_pipe, TagError, missing_header, unsupported_version, invalid_size, TagResult, tag, bad_tag,
  parse_id3,
}
use call_recorder.Uploader.Mp3.{mp3_duration}
use call_recorder.Uploader.Spool.Methods.{hex}
use call_recorder.Uploader.App.Paths.{base}

-- m[key] of a Go map of strings.
unfoldable pub field : Dict Text → Text → Text
field m key = elim (get m key) [ some t ↦ t | none ↦ [] ]

-- `value` with a negative index: the custom field alone.
unfoldable pub custom_value : Dict Text → Text → Text
unfolding field
custom_value custom key = trim_space (field custom key)

-- `value`: the custom field, or else one of the parts of a frame.
unfoldable pub value : Dict Text → Text → List Text → ℕ → Text
unfolding custom_value
value custom key fallback index =
    let item = custom_value custom key in
    if is_empty item then trim_space (get_or fallback index []) else item

-- `uid`: two spellings of the custom field, then the seventh part of TPE2.
unfoldable pub uid_of : Dict Text → List Text → WatchConfig → Text
unfolding custom_value or_true
uid_of custom album w =
    let first = custom_value custom (codes "UID") in
    let second = custom_value custom (codes "UID#") in
    if not (is_empty first)
    then first
    else if not (is_empty second)
    then second
    else if or_true w.use_tpe2_radio_id
    then trim_space (get_or album 6 [])
    else []

-- `tgid`: an empty custom field counts.
unfoldable pub tgid_of : Dict Text → List Text → Text
unfolding field
tgid_of custom title =
    if has custom (codes "TGID") then field custom (codes "TGID") else get_or title 0 []

-- `metadataFromTags`
unfoldable pub metadata_from_tags : Dict Text → Dict Text → WatchConfig → ProScanMetadata
unfolding field custom_value value uid_of tgid_of split_pipe
metadata_from_tags frames custom w =
    let title = split_pipe (field frames (codes "TIT2")) in
    let artist = split_pipe (field frames (codes "TPE1")) in
    let album = split_pipe (field frames (codes "TPE2")) in
    record {
      start = 0;
      «end» = 0;
      scanner = value custom (codes "Scanner") album 1;
      favorite = custom_value custom (codes "FavoriteName");
      system = value custom (codes "SystemName") artist 0;
      site = custom_value custom (codes "SiteName");
      department = value custom (codes "DepartmentName") artist 1;
      channel = value custom (codes "ChannelName") title 1;
      frequency = value custom (codes "Frequency") album 2;
      modulation = value custom (codes "Modulation") album 3;
      tone = value custom (codes "Tone") album 4;
      tgid = trim_space (tgid_of custom title);
      uid = uid_of custom album w;
      rssi = custom_value custom (codes "RSSI");
      service_type = custom_value custom (codes "ServiceType");
      digital_status = custom_value custom (codes "DigitalStatus");
      dmr_slot = custom_value custom (codes "DMRSlot");
    }

unfoldable pub is_digit : ℕ → Bool
is_digit c = leb b'0' c && leb c b'9'

-- The text begins as the template does, in which 0 stands for any digit.
unfoldable pub fits : Text → Text → Bool
unfolding is_digit
fits [] s = true
fits (t ∷ template) [] = false
fits (t ∷ template) (c ∷ s) = (if t == b'0' then is_digit c else c == t) && fits template s

-- `(?:\.[^.]+)?$`
unfoldable pub ends_in_extension : Text → Bool
ends_in_extension [] = true
ends_in_extension (c ∷ s) = c == b'.' && not (is_empty s) && not (has_byte b'.' s)

abbrev pub first_template : Text
first_template = codes "00-00-00 00-00-00 - "

abbrev pub channel_template : Text
channel_template = codes "_00000000_00-00-00"

-- The group of `channelFirstName` in its leftmost match.
unfoldable pub find_channel_time : Text → Option Text
unfolding fits ends_in_extension
find_channel_time [] = none
find_channel_time (c ∷ s) =
    let later = find_channel_time s in
    if fits channel_template (c ∷ s) && ends_in_extension (drop 17 s)
    then some (take 17 s)
    else later

-- The runs of bytes that `identifierCleaner` replaces.
unfoldable pub is_identifier_byte : ℕ → Bool
is_identifier_byte c =
    (leb b'A' c && leb c b'Z')
    || (leb b'a' c && leb c b'z')
    || (leb b'0' c && leb c b'9')
    || c == b'.'
    || c == b'_'
    || c == b'-'

-- ReplaceAllString with "-"; the flag says that the byte before was replaced.
unfoldable pub clean : Bool → Text → Text
unfolding is_identifier_byte
clean inside [] = []
clean inside (c ∷ s) =
    let kept = clean false s in
    let gone = clean true s in
    if is_identifier_byte c then c ∷ kept else if inside then gone else b'-' ∷ gone

unfoldable pub is_edge : ℕ → Bool
is_edge c = c == b'-' || c == b'.' || c == b'_'

-- `stableIdentifier`
unfoldable pub stable_identifier : Text → Text
unfolding clean is_edge trim_left trim_right
stable_identifier t = to_upper (trim_right is_edge (trim_left is_edge (clean false (trim_space t))))

-- strings.Join
unfoldable pub join : Text → List Text → Text
join separator [] = []
join separator (x ∷ []) = x
join separator (x ∷ y ∷ ys) = x ++ separator ++ join separator (y ∷ ys)

-- A part that is left out where it is empty.
unfoldable pub part : Text → List Text
part t = if is_empty t then [] else t ∷ []

-- The parts behind the prefix: the channel counts only without a frequency and a tone.
unfoldable pub conventional_parts : Text → Text → Text → List Text
unfolding part stable_identifier
conventional_parts frequency tone channel =
    elim (part (stable_identifier frequency) ++ part (stable_identifier tone)) [
      | [] ↦ part (stable_identifier channel)
      | x ∷ xs ↦ x ∷ xs
    ]

-- `conventionalID`
unfoldable pub conventional_id : Text → Text → Text → Text → Text
unfolding conventional_parts join
conventional_id prefix frequency tone channel = elim (conventional_parts frequency tone channel) [
  | [] ↦ []
  | x ∷ xs ↦ join (codes "-") (trim_space prefix ∷ x ∷ xs)
]

unfoldable pub note : Text → Text → List Text
note label t = if is_empty t then [] else (label ++ codes ": " ++ t) ∷ []

-- `proScanNotes`
unfoldable pub pro_scan_notes : ProScanMetadata → Text
unfolding note join
pro_scan_notes m = join (codes "; ") (
    note (codes "Tone") m.tone
    ++ note (codes "RSSI") m.rssi
    ++ note (codes "Service") m.service_type
    ++ note (codes "Digital") m.digital_status
    ++ note (codes "DMR slot") m.dmr_slot)

unfoldable pub tag_error : Text → TagError → Text
unfolding decimal
tag_error audio missing_header = codes "missing ID3 header"
tag_error audio unsupported_version =
    codes "unsupported ID3 version 2." ++ decimal (get_or audio 3 0)
tag_error audio invalid_size = codes "invalid ID3 tag size"

-- `parse_time` is time.ParseInLocation in the configured zone and `format_time` the format
-- RFC3339Nano in UTC; instants are nanoseconds.
module _ (parse_time : Text → Text → Result ℕ) (format_time : ℕ → Text) (sha256 : Text → Text)
    (separator : ℕ) where
  abbrev pub compact : Text
  compact = codes "20060102150405"

  -- `timeFromFilename`
  unfoldable pub time_from_filename : Text → Result ℕ
  unfolding fits find_channel_time
  time_from_filename name =
      if fits first_template name
      then parse_time (codes "01-02-06 15-04-05") (take 17 name)
      else elim (find_channel_time name) [
        | some t ↦ parse_time (codes "20060102_15-04-05") t
        | none ↦ err (codes "unsupported filename timestamp")
      ]

  -- `recordingTimes` without a range: an end that cannot be read is the start.
  unfoldable pub times_from_filename : Text → Text → Result (ℕ × ℕ)
  unfolding time_from_filename base
  times_from_filename ending filename = elim (time_from_filename (base separator filename)) [
    | err e ↦ err (codes "recording has no valid embedded or filename timestamp")
    | ok start ↦ if is_empty ending then ok (start, start) else elim (parse_time compact ending) [
      | ok finish ↦ ok (start, finish)
      | err e ↦ ok (start, start)
    ]
  ]

  -- Both ends of the range, or else.
  abbrev pub both_or : Result ℕ → Result ℕ → Result (ℕ × ℕ) → Result (ℕ × ℕ)
  both_or (ok start) (ok finish) other = ok (start, finish)
  both_or _ _ other = other

  -- `recordingTimes`
  unfoldable pub recording_times : Text → Text → Text → Result (ℕ × ℕ)
  unfolding times_from_filename
  recording_times range ending filename =
      let trimmed = trim_space range in
      let other = times_from_filename ending filename in
      if leb 29 (length trimmed) && get_or trimmed 14 0 == b'-'
      then both_or (parse_time compact (take 14 trimmed))
          (parse_time compact (take 14 (drop 15 trimmed))) other
      else other

  -- The duration: of the frames, or else of the times.
  unfoldable pub duration_of : Text → ℕ → ℕ → ℕ → Result ℕ
  unfolding mp3_duration
  duration_of audio tag_end start finish = elim (mp3_duration audio tag_end) [
    | some d ↦ ok d
    | none ↦
        if ltb start finish then ok (finish - start) else err (codes "MP3 audio frame not found")
  ]

  -- What the call is identified by.
  unfoldable pub source_material : WatchConfig → ProScanMetadata → Text → Text → Text
  unfolding join
  source_material w m receiver talkgroup = join (31 ∷ []) (
      w.system_id
      ∷ format_time m.start
      ∷ format_time m.«end»
      ∷ receiver
      ∷ talkgroup
      ∷ m.channel
      ∷ m.frequency
      ∷ m.uid
      ∷ [])

  unfoldable pub source_id : WatchConfig → ProScanMetadata → Text → Text → Text
  unfolding source_material hex
  source_id w m receiver talkgroup =
      codes "proscan-" ++ hex (take 16 (sha256 (source_material w m receiver talkgroup)))

  unfoldable pub receiver_of : WatchConfig → ProScanMetadata → Text
  receiver_of w m = let own = trim_space w.receiver_id in if is_empty own then m.scanner else own

  -- The system that ProScan names stands for the site.
  unfoldable pub site_system : WatchConfig → ProScanMetadata → Text
  unfolding or_true
  site_system w m = if or_true w.proscan_system_as_site then m.system else []

  unfoldable pub request_of :
      WatchConfig → Text → ProScanMetadata → ℕ → Text → Text → CreateUploadRequest
  unfolding source_id receiver_of site_system stable_identifier pro_scan_notes
  request_of w sender m duration talkgroup call_type =
      let receiver = receiver_of w m in
      let id = source_id w m receiver talkgroup in
      record {
        sender_id = sender;
        idempotency_key = id;
        audio_format = codes "mp3";
        call = record {
          source_call_id = id;
          start_time = format_time m.start;
          duration_ms = duration / 1000000;
          receiver_id = receiver;
          system_id = trim_space w.system_id;
          system_name = trim_space w.system_name;
          site_id = stable_identifier (site_system w m);
          site_name = site_system w m;
          talkgroup_id = talkgroup;
          talkgroup_name = m.channel;
          talkgroup_tag = m.department;
          radio_id = m.uid;
          frequency = m.frequency;
          voice_service = m.modulation;
          call_type = call_type;
          group_call = some true;
          notes = pro_scan_notes m;
        };
      }

  -- With the talkgroup.
  unfoldable pub recorded :
      Text → Text → WatchConfig → Text → ProScanMetadata → ℕ → Text → Text → Result ParsedRecording
  unfolding request_of base
  recorded audio filename w sender m duration talkgroup call_type =
      if is_empty talkgroup
      then err (codes "recording has neither a TGID nor enough conventional-channel metadata")
      else ok (record {
        request = request_of w sender m duration talkgroup call_type;
        audio_bytes = audio;
        audio_format = codes "mp3";
        original_name = base separator filename;
        embedded = m;
        audio_duration = duration;
      })

  -- From the duration on.
  unfoldable pub with_duration :
      Text → Text → WatchConfig → Text → ProScanMetadata → ℕ → Result ParsedRecording
  unfolding recorded conventional_id
  with_duration audio filename w sender m duration =
      if duration == 0
      then err (codes "recording duration is zero")
      else if is_empty (trim_space m.tgid)
      then recorded audio filename w sender m duration
          (conventional_id w.conventional_id_prefix m.frequency m.tone m.channel)
          (codes "conventional")
      else recorded audio filename w sender m duration (trim_space m.tgid) (codes "trunked")

  -- The tag is read.
  unfoldable pub with_tag :
      Text → Text → WatchConfig → Text → Dict Text → Dict Text → ℕ → Result ParsedRecording
  unfolding recording_times metadata_from_tags field
  with_tag audio filename w sender frames custom tag_end =
      elim (recording_times (field frames (codes "TRDA")) (field custom (codes "EndingDate"))
        filename) [
          | err e ↦ err e
          | ok (start, finish) ↦ elim (duration_of audio tag_end start finish) [
            | err e ↦ err e
            | ok duration ↦
                with_duration audio filename w sender
                  (record (metadata_from_tags frames custom w) { start = start; «end» = finish })
                  duration
          ]
        ]

  unfoldable pub with_result : Text → Text → WatchConfig → Text → TagResult → Result ParsedRecording
  unfolding with_tag tag_error
  with_result audio filename w sender (bad_tag e) = err (tag_error audio e)
  with_result audio filename w sender (tag frames custom tag_end) =
      with_tag audio filename w sender frames custom tag_end

  -- `parseProScanRecording`
  unfoldable pub parse_pro_scan_recording :
      Text → Text → WatchConfig → Text → Result ParsedRecording
  unfolding parse_id3 with_result
  parse_pro_scan_recording audio filename w sender =
      if ltb (length audio) 10 || not (text_eq (take 3 audio) (codes "ID3"))
      then err (codes "recording does not begin with an ID3 tag")
      else with_result audio filename w sender (parse_id3 audio)
