-- ===== src/Uploader/Id3/Loop.antt =====
-- The numbers and the frame loop of `parseID3` (uploader/proscan-windows/proscan.go).
use call_recorder.Prelude.{
  ℕ, zero, suc, ◌+◌, ◌/◌, ◌%◌, ◌^◌, ◌≤◌, ◌<◌, ◌==◌, Bool, true, false, not, ◌||◌, [], ◌∷◌, length,
  drop, take, if◌then◌else◌, ltb, ◌≡◌, inl, inr, refl, arith, Bool-cases, length-drop,
}
use call_recorder.Prelude.Text.{Text, codes, has_prefix}
use call_recorder.Prelude.Dict.{Dict, put}
use call_recorder.Uploader.Id3.{
  sync_safe_int, read_frames, be32, standard_frame_id, decode_text, parse_id3, parse_sized, tag,
}

-- The four bytes of a size as an ID3 writer puts them.
abbrev pub sync_safe_bytes : ℕ → Text
sync_safe_bytes n = n / 2 ^ 21 % 128 ∷ n / 2 ^ 14 % 128 ∷ n / 2 ^ 7 % 128 ∷ n % 128 ∷ []

-- A size below 2 ^ 28 is read back from the four bytes that an ID3 writer puts.
pub sync_safe_int-bytes : (n : ℕ) → n < 2 ^ 28 → sync_safe_int (sync_safe_bytes n) ≡ n
unfolding sync_safe_int
sync_safe_int-bytes n h = omega arith

pub sync_safe_int-lt : (value : Text) → sync_safe_int value < 2 ^ 28
unfolding sync_safe_int
sync_safe_int-lt (a ∷ b ∷ c ∷ d ∷ []) = omega arith
sync_safe_int-lt _ = omega arith

abbrev pub frame_size : Text → ℕ
frame_size area = be32 (take 4 (drop 4 area))

abbrev pub stops : Text → Bool
stops area =
    ltb (length area) 10
    || not (standard_frame_id (take 4 area))
    || frame_size area == 0
    || ltb (length area) (10 + frame_size area)

abbrev pub with_frame : Text → Dict Text → Dict Text
with_frame area frames =
    if has_prefix (take 4 area) (codes "T")
    then put frames (take 4 area) (decode_text (take (frame_size area) (drop 10 area)))
    else frames

read_frames_stop :
    (fuel : ℕ) (area : Text) (frames : Dict Text)
    → stops area ≡ true
    → read_frames fuel area frames ≡ frames
unfolding read_frames
read_frames_stop zero area frames h = refl
read_frames_stop (suc fuel) area frames h = rw (h, read_frames)

read_frames_step :
    (fuel : ℕ) (area : Text) (frames : Dict Text)
    → stops area ≡ false
    → read_frames (suc fuel) area frames
      ≡ read_frames fuel (drop (10 + frame_size area) area) (with_frame area frames)
unfolding read_frames
read_frames_step fuel area frames h = rw (h, read_frames)

-- The frames of an area, read one behind the other to a place where the loop stops by its own tests: a
-- finite derivation, whose last argument is what the frames from there on give.
pub data Reads : Text → Dict Text → Dict Text → Type 0 where
  ends : {area : Text} {frames : Dict Text} → stops area ≡ true → Reads area frames frames
  reads :
      {area : Text} {frames result : Dict Text}
      → stops area ≡ false
      → Reads (drop (10 + frame_size area) area) (with_frame area frames) result
      → Reads area frames result

-- On any bytes the loop over the frames comes to its end by its own tests, within as many rounds as there
-- are bytes, and has then read each frame at the end of the one before it.
pub read_frames-Reads :
    (fuel : ℕ) (area : Text) (frames : Dict Text)
    → length area ≤ fuel
    → Reads area frames (read_frames fuel area frames)
read_frames-Reads zero [] frames a = rw (read_frames_stop zero [] frames refl) (ends refl)
read_frames-Reads zero (x ∷ area) frames a = absurd (omega arith)
read_frames-Reads (suc fuel) area frames a = elim (Bool-cases (stops area)) [
  | inl done ↦ rw (read_frames_stop (suc fuel) area frames done) (ends done)
  | inr goes ↦ rw (read_frames_step fuel area frames goes) (
      reads goes (
        read_frames-Reads fuel (drop (10 + frame_size area) area) (with_frame area frames)
          (omega (arith, length-drop (10 + frame_size area) area))))
]

-- The end of a tag that is accepted lies in the audio, behind its header, and below 10 + 2 ^ 28.
pub parse_id3_bounds :
    (audio : Text) (frames custom : Dict Text) (tag_end : ℕ)
    → parse_id3 audio ≡ tag frames custom tag_end
    → (10 < tag_end) × (tag_end ≤ length audio) × (tag_end < 10 + 2 ^ 28)
unfolding parse_id3 parse_sized
parse_id3_bounds audio frames custom tag_end e =
    ground (arith, sync_safe_int-lt (take 4 (drop 6 audio)))
