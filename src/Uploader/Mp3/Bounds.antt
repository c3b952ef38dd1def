-- ===== src/Uploader/Mp3/Bounds.antt =====
-- Bounds of MP3 frames and the search for them (uploader/proscan-windows/proscan.go).
use call_recorder.Prelude.{
  ℕ, ◌+◌, ◌*◌, ◌/◌, ◌%◌, ◌^◌, ◌≤◌, ◌<◌, ◌==◌, Bool, true, false, not, ◌&&◌, ◌||◌, Option, none,
  some, [], ◌∷◌, length, ltb, leb, ◌≡◌, ◌⊎◌, inl, inr, refl, subst, arith, Bool-cases, Option-cases,
}
use call_recorder.Prelude.{for_all_below, for_all_below_sound}
use call_recorder.Prelude.Text.{Text}
use call_recorder.Uploader.Mp3.{Mp3Header, frame_of_fields, decode_header, whole_frame}

-- The nine sample rates of MPEG 1, 2 and 2.5. A frame has one of them, 4 to 1441 bytes, and 576 or 1152
-- samples.
abbrev pub is_standard_rate : ℕ → Bool
is_standard_rate r =
    r == 44100
    || r == 48000
    || r == 32000
    || r == 22050
    || r == 24000
    || r == 16000
    || r == 11025
    || r == 12000
    || r == 8000

abbrev pub IsFrame : Mp3Header → Type 0
IsFrame h =
    (4 ≤ h.length)
    × (h.length ≤ 1441)
    × (8000 ≤ h.sample_rate)
    × (h.sample_rate ≤ 48000)
    × ((h.samples ≡ 576) ⊎ (h.samples ≡ 1152))
    × (is_standard_rate h.sample_rate ≡ true)

frame_test : Mp3Header → Bool
frame_test h =
    leb 4 h.length
    && leb h.length 1441
    && leb 8000 h.sample_rate
    && leb h.sample_rate 48000
    && (h.samples == 576 || h.samples == 1152)
    && is_standard_rate h.sample_rate

fields_test : ℕ → ℕ → ℕ → ℕ → Bool
fields_test version bitrate sample padding =
    elim (frame_of_fields version 1 bitrate sample padding) [ none ↦ true | some h ↦ frame_test h ]

fields_table :
    for_all_below 4 (λ v.
      for_all_below 16 (λ b. for_all_below 4 (λ s. for_all_below 2 (λ p. fields_test v b s p))))
    ≡ true
unfolding for_all_below fields_test frame_of_fields frame_test
fields_table = refl

-- Every combination of the bit fields was tested.
fields_checked :
    (version bitrate sample padding : ℕ)
    → version < 4
    → bitrate < 16
    → sample < 4
    → padding < 2
    → fields_test version bitrate sample padding ≡ true
fields_checked v b s p hv hb hs hp =
    for_all_below_sound 2 _ p
      (for_all_below_sound 4 _ s
        (for_all_below_sound 16 _ b (for_all_below_sound 4 _ v fields_table hv) hb) hs)
      hp

tested_frame :
    (version bitrate sample padding : ℕ) (h : Mp3Header)
    → frame_of_fields version 1 bitrate sample padding ≡ some h
    → fields_test version bitrate sample padding ≡ true
    → frame_test h ≡ true
unfolding fields_test
tested_frame version bitrate sample padding h e t = rw (e, fields_test) at t

wrong_layer :
    (version layer bitrate sample padding : ℕ)
    → (layer == 1) ≡ false
    → frame_of_fields version layer bitrate sample padding ≡ none
unfolding frame_of_fields
wrong_layer version layer bitrate sample padding other = elim (Bool-cases (version == 1)) [
  | inl v ↦ rw (v, frame_of_fields)
  | inr v ↦ rw (v, other, frame_of_fields)
]

layer_is_one :
    (version layer bitrate sample padding : ℕ) (h : Mp3Header)
    → frame_of_fields version layer bitrate sample padding ≡ some h
    → layer ≡ 1
layer_is_one version layer bitrate sample padding h e = elim (Bool-cases (layer == 1)) [
  | inl one ↦ ground arith
  | inr other ↦ absurd (cc (wrong_layer version layer bitrate sample padding other))
]

IsFrame-tested :
    (version layer bitrate sample padding : ℕ) (h : Mp3Header)
    → version < 4
    → bitrate < 16
    → sample < 4
    → padding < 2
    → frame_of_fields version layer bitrate sample padding ≡ some h
    → IsFrame h
IsFrame-tested version layer bitrate sample padding h a b c d e =
    let one = layer_is_one version layer bitrate sample padding h e in
    let tested : frame_test h ≡ true =
      tested_frame version bitrate sample padding h (rw one at e)
        (fields_checked version bitrate sample padding a b c d) in
    unfold frame_test in ground arith

header_of : ℕ → Option Mp3Header
header_of x =
    frame_of_fields (x / 2 ^ 19 % 4) (x / 2 ^ 17 % 4) (x / 2 ^ 12 % 16) (x / 2 ^ 10 % 4)
      (x / 2 ^ 9 % 2)

header_of-IsFrame : (x : ℕ) (h : Mp3Header) → header_of x ≡ some h → IsFrame h
unfolding header_of
header_of-IsFrame x h e =
    IsFrame-tested (x / 2 ^ 19 % 4) (x / 2 ^ 17 % 4) (x / 2 ^ 12 % 16) (x / 2 ^ 10 % 4)
      (x / 2 ^ 9 % 2) h (omega arith) (omega arith) (omega arith) (omega arith) e

decode_is_header :
    (b0 b1 b2 b3 : ℕ) (rest : Text)
    → (decode_header (b0 ∷ b1 ∷ b2 ∷ b3 ∷ rest) ≡ none)
      ⊎ (decode_header (b0 ∷ b1 ∷ b2 ∷ b3 ∷ rest)
          ≡ header_of (b0 * 2 ^ 24 + b1 * 2 ^ 16 + b2 * 2 ^ 8 + b3))
unfolding decode_header header_of
decode_is_header b0 b1 b2 b3 rest = elim (Bool-cases (not (b0 == 0xff) || ltb b1 0xe0)) [
  | inl bad ↦ inl (rw bad)
  | inr good ↦ inr (rw good)
]

-- Every header that is accepted, of whatever bytes, describes a frame of 4 to 1441 bytes, with a
-- sample rate that is one of the nine of the standard, from 8000 to 48000, and 576 or 1152 samples.
pub decode_header-IsFrame :
    (audio : Text) (h : Mp3Header) → decode_header audio ≡ some h → IsFrame h
decode_header-IsFrame [] h e = absurd (unfold decode_header in cc)
decode_header-IsFrame (_ ∷ []) h e = absurd (unfold decode_header in cc)
decode_header-IsFrame (_ ∷ _ ∷ []) h e = absurd (unfold decode_header in cc)
decode_header-IsFrame (_ ∷ _ ∷ _ ∷ []) h e = absurd (unfold decode_header in cc)
decode_header-IsFrame (b0 ∷ b1 ∷ b2 ∷ b3 ∷ rest) h e = elim (decode_is_header b0 b1 b2 b3 rest) [
  | inl refused ↦ absurd (cc)
  | inr is ↦ header_of-IsFrame (b0 * 2 ^ 24 + b1 * 2 ^ 16 + b2 * 2 ^ 8 + b3) h (cc)
]

pub whole_frame-IsFrame :
    (audio : Text) (h : Mp3Header)
    → whole_frame audio ≡ some h
    → IsFrame h × (h.length ≤ length audio)
unfolding whole_frame
whole_frame-IsFrame audio h e = elim (Option-cases (decode_header audio)) [
  | inl nothing ↦ absurd (ground arith)
  | inr (g, decoded) ↦
      let f = decode_header-IsFrame audio g decoded in
      let fits : (g ≡ h) × (g.length ≤ length audio) = (ground arith, ground arith) in
      (subst IsFrame fits.0 f, ground arith)
]
