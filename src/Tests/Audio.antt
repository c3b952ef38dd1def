-- ===== src/Tests/Audio.antt =====
-- The theorems about the audio files of uploader/proscan-windows/proscan.go at concrete inputs.
use call_recorder.Prelude.{ℕ, [], ◌∷◌, ◌++◌, ◌≡◌, refl, ◌≤◌, ◌<◌, ◌^◌, ◌+◌, arith, length}
use call_recorder.Prelude.Text.{
  Text, codes, text_eq, has_prefix, is_empty, trim_right, trim_left, trim_space, is_space,
}
use call_recorder.Prelude.Dict.{get, put, has}
use call_recorder.Uploader.Mp3.{
  Mp3Header, frame_of_fields, decode_header, whole_frame, find_from, find_frame, count_frames,
  mp3_duration,
}
use call_recorder.Uploader.Mp3.Bounds.{IsFrame, decode_header-IsFrame}
use call_recorder.Uploader.Mp3.Duration.{IsSearch, find_from-IsSearch, count_frames_fuel}
use call_recorder.Prelude.Result.{Result, ok, err}
use call_recorder.Uploader.Model.{ParsedRecording}
use call_recorder.Uploader.App.Paths.{base, base_onto}
use call_recorder.Uploader.ProScan.{
  parse_pro_scan_recording, with_result, with_tag, recording_times, times_from_filename,
  time_from_filename, fits, is_digit, field, duration_of, with_duration, recorded,
  metadata_from_tags, tgid_of,
}
use call_recorder.Uploader.ProScan.Parse.{IsRecording, parse_pro_scan_recording-IsRecording}
use call_recorder.Tests.Spools.{digest_of, recording}
use call_recorder.Tests.Sender.{watch}
use call_recorder.Uploader.Id3.{
  split_pipe, split, split_onto, sync_safe_int, read_frames, parse_id3, parse_sized, be32,
  standard_frame_id, decode_text, is_frame_byte, read_custom, find_text,
}
use call_recorder.Uploader.Id3.Loop.{
  sync_safe_bytes, sync_safe_int-bytes, Reads, read_frames-Reads, parse_id3_bounds,
}

-- A frame of 24 bytes: version 2, layer 3, 8 kbit/s, 24000 Hz.
abbrev frame : Text
frame =
    0xff ∷ 0xf3 ∷ 0x14 ∷ 0 ∷ 1 ∷ 2 ∷ 3 ∷ 4 ∷ 5 ∷ 6 ∷ 7 ∷ 8 ∷ 9 ∷ 10 ∷ 11 ∷ 12 ∷ 13 ∷ 14 ∷ 15 ∷ 16
    ∷ 17 ∷ 18 ∷ 19 ∷ 20 ∷ []

abbrev frame_header : Mp3Header
frame_header = record { length = 24; sample_rate = 24000; samples = 576 }

decode_header-IsFrame_example : IsFrame frame_header
unfolding decode_header frame_of_fields
decode_header-IsFrame_example = decode_header-IsFrame frame frame_header refl

find_from-IsSearch_example : IsSearch (0 ∷ 7 ∷ frame) (find_from (0 ∷ 7 ∷ frame))
find_from-IsSearch_example = find_from-IsSearch (0 ∷ 7 ∷ frame)

count_frames_fuel_example :
    count_frames 90 frame_header (frame ++ frame) ≡ count_frames 48 frame_header (frame ++ frame)
count_frames_fuel_example =
    count_frames_fuel 48 90 frame_header (frame ++ frame) (omega arith) (omega arith)

sync_safe_int-bytes_example : sync_safe_int (sync_safe_bytes 257) ≡ 257
sync_safe_int-bytes_example = sync_safe_int-bytes 257 (omega arith)

-- A title of two letters.
abbrev title_frame : Text
title_frame = codes "TIT2" ++ 0 ∷ 0 ∷ 0 ∷ 3 ∷ 0 ∷ 0 ∷ 0 ∷ b'H' ∷ b'i' ∷ []

read_frames-Reads_example : Reads title_frame [] (read_frames 13 title_frame [])
read_frames-Reads_example = read_frames-Reads 13 title_frame [] (omega arith)

abbrev tagged_audio : Text
tagged_audio = codes "ID3" ++ 3 ∷ 0 ∷ 0 ∷ 0 ∷ 0 ∷ 0 ∷ 13 ∷ title_frame ++ 1 ∷ 2 ∷ []

parse_id3_bounds_example : (10 < 23) × (23 ≤ length tagged_audio) × (23 < 10 + 2 ^ 28)
unfolding parse_id3 parse_sized sync_safe_int read_frames be32 standard_frame_id is_frame_byte
    decode_text trim_right text_eq has_prefix put read_custom find_text is_empty
parse_id3_bounds_example =
    parse_id3_bounds tagged_audio ((codes "TIT2", codes "Hi") ∷ []) [] 23 refl

-- A recording of the talkgroup Hi, whose name says when it began.
abbrev recorded_audio : Text
recorded_audio = codes "ID3" ++ 3 ∷ 0 ∷ 0 ∷ 0 ∷ 0 ∷ 0 ∷ 13 ∷ title_frame ++ frame ++ frame

abbrev recorded_name : Text
recorded_name = codes "01-02-26 03-04-05 - a.mp3"

abbrev one_time : Text → Text → Result ℕ
one_time layout t = ok 5

abbrev no_format : ℕ → Text
no_format n = []

abbrev recording_of : Result ParsedRecording → ParsedRecording
recording_of (ok r) = r
recording_of (err e) = recording

abbrev parsed : ParsedRecording
unfolding parse_pro_scan_recording
parsed = recording_of (
    parse_pro_scan_recording one_time no_format digest_of b'/' recorded_audio recorded_name watch
      (codes "SCANNER"))

parse_pro_scan_recording-IsRecording_example :
    IsRecording one_time no_format digest_of b'/' recorded_audio recorded_name
      (codes "SCANNER")
      watch
      parsed
unfolding parse_pro_scan_recording with_result with_tag recording_times times_from_filename
    time_from_filename fits is_digit base base_onto field get is_empty duration_of with_duration
    recorded metadata_from_tags tgid_of split_pipe split split_onto trim_space trim_left trim_right
    is_space mp3_duration find_frame find_from whole_frame decode_header frame_of_fields
    count_frames parse_id3 parse_sized sync_safe_int read_frames be32 standard_frame_id
    is_frame_byte decode_text text_eq has_prefix put has read_custom find_text
parse_pro_scan_recording-IsRecording_example =
    parse_pro_scan_recording-IsRecording one_time no_format digest_of b'/' recorded_audio
      recorded_name (codes "SCANNER") watch parsed refl
