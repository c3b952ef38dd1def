-- ===== src/Uploader/Fingerprint.antt =====
-- `sourceFingerprint` and `recordingFingerprint` of uploader/proscan-windows/spool.go.
use call_recorder.Prelude.{ℕ, ◌∷◌, ◌++◌}
use call_recorder.Prelude.Text.{Text, to_lower}
use call_recorder.Prelude.Decimal.{decimal}
use call_recorder.Uploader.Spool.Methods.{hex}

-- Size and time of modification of a file, in nanoseconds since 1970.
pub record FileInfo : Type 0 where
  pub size : ℕ
  pub modified : ℕ

-- `absolute` is filepath.Abs with filepath.Clean.
unfoldable pub source_fingerprint : (Text → Text) → (Text → Text) → Text → FileInfo → Text
unfolding hex decimal
source_fingerprint sha256 absolute path info =
    hex (
      sha256 (to_lower (absolute path) ++ (0 ∷ (decimal info.size ++ (0 ∷ decimal info.modified)))))

unfoldable pub recording_fingerprint : (Text → Text) → Text → Text → Text
unfolding hex
recording_fingerprint sha256 audio identity = hex (sha256 (identity ++ (0 ∷ audio)))
