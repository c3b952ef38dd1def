-- ===== src/Uploader/Mp3.antt =====
-- `decodeMP3Header`, `findMP3Frame` and `mp3Duration` of uploader/proscan-windows/proscan.go.
-- Audio is a list of bytes; a slice from a position is a suffix. Go's int has 64 bits, and no
-- number here comes near its bound.
pub mod Bounds
pub mod Duration
use call_recorder.Prelude.{
  ℕ, zero, suc, ◌+◌, ◌-◌, ◌*◌, ◌/◌, ◌%◌, ◌^◌, ◌==◌, Bool, true, false, not, ◌&&◌, ◌||◌, Option,
  none, some, List, [], ◌∷◌, length, drop, get_or, if◌then◌else◌, ltb, leb,
}
use call_recorder.Prelude.Text.{Text}

pub record Mp3Header : Type 0 where
  pub length : ℕ
  pub sample_rate : ℕ
  pub samples : ℕ

abbrev pub v1_rates : List ℕ
v1_rates = 0 ∷ 32 ∷ 40 ∷ 48 ∷ 56 ∷ 64 ∷ 80 ∷ 96 ∷ 112 ∷ 128 ∷ 160 ∷ 192 ∷ 224 ∷ 256 ∷ 320 ∷ []

abbrev pub v2_rates : List ℕ
v2_rates = 0 ∷ 8 ∷ 16 ∷ 24 ∷ 32 ∷ 40 ∷ 48 ∷ 56 ∷ 64 ∷ 80 ∷ 96 ∷ 112 ∷ 128 ∷ 144 ∷ 160 ∷ []

-- The map from the version bits; version 1 is refused before it is read.
abbrev pub sample_rates : ℕ → List ℕ
sample_rates version =
    if version == 3
    then 44100 ∷ 48000 ∷ 32000 ∷ []
    else if version == 2
    then 22050 ∷ 24000 ∷ 16000 ∷ []
    else if version == 0
    then 11025 ∷ 12000 ∷ 8000 ∷ []
    else []

-- What the bit fields of a header say; `none` is Go's false.
unfoldable pub frame_of_fields : ℕ → ℕ → ℕ → ℕ → ℕ → Option Mp3Header
frame_of_fields version layer bitrate_index sample_index padding =
    if version == 1
      || not (layer == 1)
      || bitrate_index == 0
      || bitrate_index == 15
      || sample_index == 3
    then none
    else let is_v1 = version == 3 in
      let bitrate = get_or (if is_v1 then v1_rates else v2_rates) bitrate_index 0 in
      let coefficient : ℕ = if is_v1 then 144 else 72 in
      let samples : ℕ = if is_v1 then 1152 else 576 in
      let sample_rate = get_or (sample_rates version) sample_index 0 in
      let frame_length = coefficient * bitrate * 1000 / sample_rate + padding in
      if ltb frame_length 4
      then none
      else some (record { length = frame_length; sample_rate = sample_rate; samples = samples })

-- `decodeMP3Header`. `b & 0xe0 == 0xe0` holds of a byte exactly from 0xe0 on, and a shift and mask
-- of the 32-bit word is a division and a remainder.
unfoldable pub decode_header : Text → Option Mp3Header
decode_header (b0 ∷ b1 ∷ b2 ∷ b3 ∷ rest) =
    if not (b0 == 0xff) || ltb b1 0xe0
    then none
    else let header = b0 * 2 ^ 24 + b1 * 2 ^ 16 + b2 * 2 ^ 8 + b3 in
      frame_of_fields (header / 2 ^ 19 % 4) (header / 2 ^ 17 % 4) (header / 2 ^ 12 % 16)
        (header / 2 ^ 10 % 4) (header / 2 ^ 9 % 2)
decode_header _ = none

-- The frame is whole: its length is that of no more bytes than are left.
unfoldable pub whole_frame : Text → Option Mp3Header
whole_frame audio = elim (decode_header audio) [
  | none ↦ none
  | some h ↦ if leb h.length (length audio) then some h else none
]

-- The loop of `findMP3Frame` over the suffixes of the audio: what is left there, and the header.
unfoldable pub find_from : Text → Option (Text × Mp3Header)
find_from [] = none
find_from (b ∷ audio) =
    let next = find_from audio in
    elim (whole_frame (b ∷ audio)) [ none ↦ next | some h ↦ some (b ∷ audio, h) ]

-- `findMP3Frame`: a start behind the end is taken for 0.
unfoldable pub find_frame : Text → ℕ → Option (Text × Mp3Header)
find_frame audio start = find_from (if leb (length audio) start then audio else drop start audio)

-- The loop of `mp3Duration` over whole frames of one kind: how many there are. Each takes at
-- least four bytes, so the length of the audio is enough fuel.
unfoldable pub count_frames : ℕ → Mp3Header → Text → ℕ
count_frames zero h audio = 0
count_frames (suc fuel) h audio = elim (whole_frame audio) [
  | none ↦ 0
  | some current ↦
      let rest = suc (count_frames fuel h (drop current.length audio)) in
      if current.sample_rate == h.sample_rate && current.samples == h.samples then rest else 0
]

-- `mp3Duration` in nanoseconds. Go computes it in float64, and the exact quotient is rounded down
-- here: the two differ by less than a microsecond below a day.
unfoldable pub mp3_duration : Text → ℕ → Option ℕ
mp3_duration audio start = elim (find_frame audio start) [
  | none ↦ none
  | some (rest, h) ↦
      let frames = count_frames (length rest) h rest in
      if frames == 0 then none else some (frames * h.samples * 10 ^ 9 / h.sample_rate)
]
