-- ===== src/Uploader/App/Paths.antt =====
-- `watchForPath`, `normalizePath` and `isSupportedRecording` of uploader/proscan-windows/app.go, with
-- filepath.Base and filepath.Ext. The separator is os.PathSeparator.
use mathlib.Core.List.{reverse}
use call_recorder.Prelude.{
  ℕ, ◌==◌, ◌≡◌, ◌≤◌, ◌⊎◌, inl, inr, refl, Bool, true, false, ◌&&◌, ◌||◌, Option, none, some, List,
  [], ◌∷◌, ◌++◌, length, if◌then◌else◌, ltb, All, arith, Bool-cases, Option-cases,
}
use call_recorder.Prelude.Text.{Text, text_eq, codes, to_lower, trim_right, equal_fold, has_prefix}
use call_recorder.Uploader.Config.{WatchConfig}

module _ (separator : ℕ) where
  unfoldable pub base_onto : Text → Text → Text
  base_onto name [] = name
  base_onto name (c ∷ s) =
      let rest = base_onto (c ∷ name) s in if c == separator then name else rest

  -- The last element of a path that ends in none of its separators.
  unfoldable pub base : Text → Text
  unfolding base_onto
  base path = base_onto [] (reverse path)

  unfoldable pub ext_onto : Text → Text → Text
  ext_onto name [] = []
  ext_onto name (c ∷ s) =
      let rest = ext_onto (c ∷ name) s in
      if c == separator then [] else if c == b'.' then c ∷ name else rest

  -- From the last dot of the last element on.
  unfoldable pub ext : Text → Text
  unfolding ext_onto
  ext path = ext_onto [] (reverse path)

  -- `isSupportedRecording`
  unfoldable pub is_supported_recording : Text → Bool
  unfolding ext
  is_supported_recording path = equal_fold (ext path) (codes ".mp3")

-- `normalizePath`; `absolute` is filepath.Abs with filepath.Clean.
unfoldable pub normalize_path : (Text → Text) → Text → Text
normalize_path absolute path = to_lower (absolute path)

module _ (separator : ℕ) (absolute : Text → Text) where
  -- The directory of a watch as a prefix.
  unfoldable pub root_of : WatchConfig → Text
  unfolding normalize_path
  root_of w = trim_right (λ c. c == separator) (normalize_path absolute w.path)

  -- The path is that of the watch's directory, or lies below it.
  unfoldable pub covers : Text → WatchConfig → Bool
  covers key w = text_eq key (root_of w) || has_prefix key (root_of w ++ separator ∷ [])

  -- No watch so far, or one whose directory is not as deep.
  unfoldable pub is_better : Option WatchConfig → WatchConfig → Bool
  is_better none w = true
  is_better (some best) w = ltb (length (root_of best)) (length (root_of w))

  -- The loop over the watches.
  unfoldable pub watch_from : Text → Option WatchConfig → List WatchConfig → Option WatchConfig
  watch_from key best [] = best
  watch_from key best (w ∷ ws) =
      watch_from key (if covers key w && is_better best w then some w else best) ws

  -- `watchForPath`
  unfoldable pub watch_for_path : List WatchConfig → Text → Option WatchConfig
  unfolding normalize_path
  watch_for_path watches path = watch_from (normalize_path absolute path) none watches

  -- The watch covers nothing, or its directory is no deeper than that one.
  abbrev pub IsAtMost : Text → WatchConfig → WatchConfig → Type 0
  IsAtMost key w v = (covers key v ≡ false) ⊎ (length (root_of v) ≤ length (root_of w))

  abbrev pub Among : WatchConfig → List WatchConfig → Type 0
  Among w [] = ⊥
  Among w (v ∷ vs) = (w ≡ v) ⊎ Among w vs

  -- The result covers the path and is a deepest watch that does; none only where no watch does.
  abbrev pub IsDeepest : Text → List WatchConfig → Option WatchConfig → Type 0
  IsDeepest key ws none = All (λ v. covers key v ≡ false) ws
  IsDeepest key ws (some w) = Among w ws × (covers key w ≡ true) × All (IsAtMost key w) ws

  -- The loop goes on with a watch it has found.
  watch_from-some :
      (key : Text) (b : WatchConfig) (ws : List WatchConfig)
      → covers key b ≡ true
      → (w : WatchConfig) × (watch_from key (some b) ws ≡ some w)
        × ((w ≡ b) ⊎ Among w ws)
        × (covers key w ≡ true)
        × (length (root_of b) ≤ length (root_of w))
        × All (IsAtMost key w) ws
  unfolding watch_from is_better
  watch_from-some key b [] c = (b, refl, inl refl, c, omega arith, tt)
  watch_from-some key b (v ∷ ws) c = elim (Bool-cases (covers key v)) [
    | inr out ↦
        let (w, e, place, cw, deep, most) = watch_from-some key b ws c in
        (w, rw out e, elim place [ inl x ↦ inl x | inr x ↦ inr (inr x) ], cw, deep, (inl out, most))
    | inl inside ↦ elim (Bool-cases (ltb (length (root_of b)) (length (root_of v)))) [
      | inl deeper ↦
          let (w, e, place, cw, deep, most) = watch_from-some key v ws inside in
          (w, rw (inside, deeper) e, inr place, cw, ground arith, (inr deep, most))
      | inr not_deeper ↦
          let (w, e, place, cw, deep, most) = watch_from-some key b ws c in
          (
            w,
            rw (inside, not_deeper) e,
            elim place [ inl x ↦ inl x | inr x ↦ inr (inr x) ],
            cw,
            deep,
            (inr (ground arith), most),
          )
    ]
  ]

  watch_from-none : (key : Text) (ws : List WatchConfig) → IsDeepest key ws (watch_from key none ws)
  unfolding watch_from is_better
  watch_from-none key [] = tt
  watch_from-none key (v ∷ ws) = elim (Bool-cases (covers key v)) [
    | inl inside ↦
        let (w, e, place, cw, deep, most) = watch_from-some key v ws inside in
        rw (inside, e) (place, cw, (inr deep, most))
    | inr out ↦
        let later = watch_from-none key ws in
        elim (Option-cases (watch_from key none ws)) [
          | inl e ↦ rw (out, e) (out, rw e at later)
          | inr (w, e) ↦
              let later' : IsDeepest key ws (some w) = rw e at later in
              rw (out, e) (inr later'.0, later'.1, (inl out, later'.2))
        ]
  ]

  -- The watch of a path is one whose directory is the path or lies above it, and no other such
  -- directory is deeper; there is none only where no watch's directory is the path or lies above it.
  pub watch_for_path-IsDeepest :
      (watches : List WatchConfig) (path : Text)
      → IsDeepest (normalize_path absolute path) watches (watch_for_path watches path)
  unfolding watch_for_path normalize_path
  watch_for_path-IsDeepest watches path = watch_from-none (normalize_path absolute path) watches
