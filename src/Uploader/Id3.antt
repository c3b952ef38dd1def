-- ===== src/Uploader/Id3.antt =====
-- `parseID3` and its helpers of uploader/proscan-windows/proscan.go: the tag in front of the audio.
pub mod Loop
use mathlib.Core.List.{reverse}
use call_recorder.Prelude.{
  ℕ, zero, suc, ◌+◌, ◌*◌, ◌%◌, ◌^◌, ◌==◌, Bool, true, false, not, ◌&&◌, ◌||◌, Option, none, some,
  List, [], ◌∷◌, ◌++◌, length, drop, take, if◌then◌else◌, ltb, leb,
}
use call_recorder.Prelude.Text.{Text, codes, text_eq, has_prefix, is_empty, trim_space, trim_right}
use call_recorder.Prelude.Dict.{Dict, put}

-- `syncSafeInt`: four groups of seven bits; the top bit of each byte is masked off.
unfoldable pub sync_safe_int : Text → ℕ
sync_safe_int (a ∷ b ∷ c ∷ d ∷ []) = a % 128 * 2 ^ 21 + b % 128 * 2 ^ 14 + c % 128 * 2 ^ 7 + d % 128
sync_safe_int _ = 0

-- A byte of a frame's name.
unfoldable pub is_frame_byte : ℕ → Bool
is_frame_byte c = (leb b'A' c && leb c b'Z') || (leb b'0' c && leb c b'9')

-- `standardFrameID`
unfoldable pub standard_frame_id : Text → Bool
unfolding is_frame_byte
standard_frame_id (a ∷ b ∷ c ∷ d ∷ []) =
    is_frame_byte a && is_frame_byte b && is_frame_byte c && is_frame_byte d
standard_frame_id _ = false

abbrev is_nul : ℕ → Bool
is_nul c = c == 0

-- `decodeID3Text`: both cases of its switch drop the byte of the encoding.
unfoldable pub decode_text : Text → Text
decode_text [] = []
decode_text (encoding ∷ body) = trim_right is_nul body

-- strings.Split, bytes.Split at a separator of one byte: never empty.
unfoldable pub split_onto : ℕ → Text → Text → List Text
split_onto sep word [] = reverse word ∷ []
split_onto sep word (c ∷ s) =
    let ended = reverse word ∷ split_onto sep [] s in
    let more = split_onto sep (c ∷ word) s in if c == sep then ended else more

unfoldable pub split : ℕ → Text → List Text
unfolding split_onto
split sep s = split_onto sep [] s

-- `splitPipe`
unfoldable pub split_pipe : Text → List Text
split_pipe value = split b'|' (trim_right is_nul value)

-- The four bytes of a frame's size as a 32-bit word.
unfoldable pub be32 : Text → ℕ
be32 (a ∷ b ∷ c ∷ d ∷ []) = a * 2 ^ 24 + b * 2 ^ 16 + c * 2 ^ 8 + d
be32 _ = 0

-- The loop over the frames. `area` is the tag from the position on, `tag` the number of its bytes
-- up to the end of the tag; each round takes more than ten, so that number is enough fuel.
unfoldable pub read_frames : ℕ → Text → Dict Text → Dict Text
read_frames zero area frames = frames
read_frames (suc fuel) area frames =
    let id = take 4 area in
    let size = be32 (take 4 (drop 4 area)) in
    let payload = take size (drop 10 area) in
    let kept = if has_prefix id (codes "T") then put frames id (decode_text payload) else frames in
    let next = read_frames fuel (drop (10 + size) area) kept in
    if ltb (length area) 10
      || not (standard_frame_id id)
      || size == 0
      || ltb (length area) (10 + size)
    then frames
    else next

-- bytes.Index, as the suffix that begins there.
unfoldable pub find_text : Text → Text → Option Text
find_text [] needle = if is_empty needle then some [] else none
find_text (c ∷ s) needle =
    let later = find_text s needle in if has_prefix (c ∷ s) needle then some (c ∷ s) else later

-- strings.Cut at a byte.
unfoldable pub cut : ℕ → Text → Option (Text × Text)
cut sep [] = none
cut sep (c ∷ s) = elim (c == sep) [
  | true ↦ some ([], s)
  | false ↦ elim (cut sep s) [ none ↦ none | some (before, after) ↦ some (c ∷ before, after) ]
]

-- One part of the custom block.
unfoldable pub custom_field : Text → Dict Text → Dict Text
custom_field part custom = elim (cut b':' part) [
  | none ↦ custom
  | some (key, value) ↦
      if is_empty key then custom else put custom (trim_space key) (trim_space value)
]

unfoldable pub custom_fields : List Text → Dict Text → Dict Text
custom_fields [] custom = custom
custom_fields (part ∷ parts) custom = custom_fields parts (custom_field part custom)

unfoldable pub read_custom : Text → Dict Text
read_custom area = elim (find_text area (codes "Scanner:")) [
  | none ↦ []
  | some block ↦ custom_fields (split 0 block) []
]

pub data TagError : Type 0 where
  missing_header unsupported_version invalid_size : TagError

pub data TagResult : Type 0 where
  tag : Dict Text → Dict Text → ℕ → TagResult
  bad_tag : TagError → TagResult

-- `parseID3` on audio of at least ten bytes that begins with "ID3": the frames, the custom fields
-- and where the tag ends.
unfoldable pub parse_sized : Text → ℕ → TagResult
parse_sized audio tag_size =
    let tag_end = 10 + tag_size in
    let area = take tag_size (drop 10 audio) in
    if ltb (length audio) tag_end || tag_size == 0
    then bad_tag invalid_size
    else tag (read_frames (length area) area []) (read_custom area) tag_end

unfoldable pub parse_id3 : Text → TagResult
parse_id3 audio =
    if ltb (length audio) 10 || not (text_eq (take 3 audio) (codes "ID3"))
    then bad_tag missing_header
    else if not (text_eq (take 1 (drop 3 audio)) (3 ∷ []))
    then bad_tag unsupported_version
    else parse_sized audio (sync_safe_int (take 4 (drop 6 audio)))
