-- ===== src/Uploader/Spool/Invariant.antt =====
-- The invariant of `durableSpool` (uploader/proscan-windows/spool.go): memory and disk agree.
use call_recorder.Prelude.{Bool, true, false, not, ◌||◌, some, ◌≡◌}
use call_recorder.Prelude.Text.{Text, is_empty}
use call_recorder.Prelude.Dict.{get, member}
use call_recorder.Prelude.Dict.Distinct.{IsDistinct}
use call_recorder.Uploader.Spool.Disk.{SpoolItem, Disk}
use call_recorder.Uploader.Spool.State.{Spool}
use call_recorder.Uploader.Spool.Recovery.{recovers, kept_at}

-- The fields that `readSpoolManifest` asks for.
unfoldable pub is_filled : SpoolItem → Bool
is_filled item = not (
    is_empty item.id
    || is_empty item.fingerprint
    || is_empty item.audio_file
    || is_empty item.request.sender_id)

-- An item in memory has a directory of its own, with a manifest of its fingerprint.
pub record IsBacked (d : Disk) (k : Text) (item : SpoolItem) : Type 0 where
  pub named : item.directory ≡ k
  pub filled : is_filled item ≡ true
  pub kept : kept_at d.pending k item.fingerprint ≡ true

-- What is known in memory is on disk, and so is every item.
pub record IsConsistent (s : Spool) : Type 0 where
  pub distinct : IsDistinct s.disk.pending
  pub whole : s.disk.torn_line ≡ false
  pub durable : (f : Text) → member s.known f ≡ true → recovers s.disk f ≡ true
  pub backed : (k : Text) (item : SpoolItem) → get s.items k ≡ some item → IsBacked s.disk k item
