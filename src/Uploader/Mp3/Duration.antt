-- ===== src/Uploader/Mp3/Duration.antt =====
-- The duration of MP3 audio (uploader/proscan-windows/proscan.go).
use call_recorder.Prelude.{
  ℕ, zero, suc, ◌*◌, ◌/◌, ◌^◌, ◌≤◌, ◌==◌, Bool, ◌&&◌, Option, none, some, [], ◌∷◌, ◌++◌, length,
  drop, if◌then◌else◌, leb, ◌≡◌, inl, inr, refl, sym, ap, subst, arith, Option-cases, length-drop,
}
use mathlib.Core.List.{append-nil}
use call_recorder.Prelude.Text.{Text}
use call_recorder.Uploader.Mp3.{
  Mp3Header, decode_header, whole_frame, find_from, find_frame, count_frames, mp3_duration,
}
use call_recorder.Uploader.Mp3.Bounds.{IsFrame, whole_frame-IsFrame}

whole_frame_nil : whole_frame [] ≡ none
unfolding whole_frame decode_header
whole_frame_nil = refl

count_none :
    (fuel : ℕ) (h : Mp3Header) (audio : Text)
    → whole_frame audio ≡ none
    → count_frames fuel h audio ≡ 0
unfolding count_frames
count_none zero h audio e = refl
count_none (suc fuel) h audio e = rw (e, count_frames)

abbrev matches : Mp3Header → Mp3Header → Bool
matches current h = current.sample_rate == h.sample_rate && current.samples == h.samples

count_some :
    (fuel : ℕ) (h current : Mp3Header) (audio : Text)
    → whole_frame audio ≡ some current
    → count_frames (suc fuel) h audio
      ≡ (if matches current h then suc (count_frames fuel h (drop current.length audio)) else 0)
unfolding count_frames
count_some fuel h current audio e = rw (e, count_frames)

-- The loop of `mp3Duration` ends by its own test: more fuel than there are bytes changes nothing.
pub count_frames_fuel :
    (fuel more : ℕ) (h : Mp3Header) (audio : Text)
    → length audio ≤ fuel
    → fuel ≤ more
    → count_frames more h audio ≡ count_frames fuel h audio
count_frames_fuel zero more h [] a b =
    rw (count_none more h [] whole_frame_nil, count_none zero h [] whole_frame_nil)
count_frames_fuel zero more h (x ∷ audio) a b = absurd (omega arith)
count_frames_fuel (suc fuel) zero h audio a b = absurd (omega arith)
count_frames_fuel (suc fuel) (suc more) h audio a b = elim (Option-cases (whole_frame audio)) [
  | inl e ↦ rw (count_none (suc more) h audio e, count_none (suc fuel) h audio e)
  | inr (current, e) ↦
      let shorter : length (drop current.length audio) ≤ fuel =
        omega
          (arith, length-drop current.length audio, (whole_frame-IsFrame audio current e).0.0) in
      rw (count_some more h current audio e, count_some fuel h current audio e)
        (rw (count_frames_fuel fuel more h (drop current.length audio) shorter (omega arith)))
]

-- No suffix of `pre ++ rest` that is longer than `rest` begins with a whole frame.
abbrev pub NoneBefore : Text → Text → Type 0
NoneBefore [] rest = Unit
NoneBefore (b ∷ pre) rest = (whole_frame (b ∷ (pre ++ rest)) ≡ none) × NoneBefore pre rest

-- What the search promises of its result.
abbrev pub IsSearch : Text → Option (Text × Mp3Header) → Type 0
IsSearch audio none = NoneBefore audio []
IsSearch audio (some (rest, h)) =
    (pre : Text) × (audio ≡ pre ++ rest) × (whole_frame rest ≡ some h) × NoneBefore pre rest

find_here :
    (b : ℕ) (audio : Text) (h : Mp3Header)
    → whole_frame (b ∷ audio) ≡ some h
    → find_from (b ∷ audio) ≡ some (b ∷ audio, h)
unfolding find_from
find_here b audio h e = rw (e, find_from)

find_later :
    (b : ℕ) (audio : Text)
    → whole_frame (b ∷ audio) ≡ none
    → find_from (b ∷ audio) ≡ find_from audio
unfolding find_from
find_later b audio e = rw (e, find_from)

IsSearch-later :
    (b : ℕ) (audio : Text) (r : Option (Text × Mp3Header))
    → whole_frame (b ∷ audio) ≡ none
    → IsSearch audio r
    → IsSearch (b ∷ audio) r
IsSearch-later b audio none e h = (rw append-nil e, h)
IsSearch-later b audio (some (rest, g)) e (pre, split, whole, before) =
    (b ∷ pre, ap (◌∷◌ b) split, whole, (subst (λ t. whole_frame (b ∷ t) ≡ none) split e, before))

-- The search finds the first place where a whole frame begins, and fails only where there is none.
pub find_from-IsSearch : (audio : Text) → IsSearch audio (find_from audio)
find_from-IsSearch [] = unfold find_from in tt
find_from-IsSearch (b ∷ audio) = elim (Option-cases (whole_frame (b ∷ audio))) [
  | inl e ↦
      subst (IsSearch (b ∷ audio)) (sym (find_later b audio e))
        (IsSearch-later b audio (find_from audio) e (find_from-IsSearch audio))
  | inr (h, e) ↦ subst (IsSearch (b ∷ audio)) (sym (find_here b audio h e)) ([], refl, e, tt)
]

-- A frame's worth of samples lasts more than ten milliseconds at every rate.
quotient_lower : (m rate : ℕ) → 576 ≤ m → rate ≤ 48000 → 1 ≤ rate → 12000000 ≤ m * 10 ^ 9 / rate
quotient_lower m rate b c d = grind arith

product_large : (n samples : ℕ) → 1 ≤ n → 576 ≤ samples → 576 ≤ n * samples
product_large n samples a b = grind arith

found_frames :
    (audio rest : Text) (start : ℕ) (h : Mp3Header) (d : ℕ)
    → find_frame audio start ≡ some (rest, h)
    → mp3_duration audio start ≡ some d
    → (1 ≤ count_frames (length rest) h rest)
      × (d ≡ count_frames (length rest) h rest * h.samples * 10 ^ 9 / h.sample_rate)
unfolding mp3_duration
found_frames audio rest start h d f e =
    let e' = rw (f, mp3_duration) at e in (ground arith, ground arith)

find_frame-IsFrame :
    (audio rest : Text) (start : ℕ) (h : Mp3Header)
    → find_frame audio start ≡ some (rest, h)
    → IsFrame h
unfolding find_frame
find_frame-IsFrame audio rest start h e =
    let from = if leb (length audio) start then audio else drop start audio in
    let (pre, split, whole, before) = subst (IsSearch from) e (find_from-IsSearch from) in
    (whole_frame-IsFrame rest h whole).0

-- A duration that is found is twelve milliseconds at least.
pub mp3_duration_lower :
    (audio : Text) (start d : ℕ) → mp3_duration audio start ≡ some d → 12000000 ≤ d
mp3_duration_lower audio start d e = elim (Option-cases (find_frame audio start)) [
  | inl nothing ↦ absurd (unfold mp3_duration in ground arith)
  | inr ((rest, h), f) ↦
      let frame = find_frame-IsFrame audio rest start h f in
      let parts = found_frames audio rest start h d f e in
      let n = count_frames (length rest) h rest in
      let samples : 576 ≤ h.samples = elim frame.4 [ inl x ↦ omega arith | inr x ↦ omega arith ] in
      rw parts.1 (
        quotient_lower (n * h.samples) h.sample_rate (product_large n h.samples parts.0 samples)
          frame.3 (omega (arith, frame.2)))
]
