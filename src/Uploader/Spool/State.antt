-- ===== src/Uploader/Spool/State.antt =====
-- `durableSpool` of uploader/proscan-windows/spool.go, with what it keeps on disk.
use call_recorder.Prelude.{List}
use call_recorder.Prelude.Text.{Text}
use call_recorder.Prelude.Dict.{Dict}
use call_recorder.Uploader.Spool.Disk.{SpoolItem, Disk}

-- `known` and `in_flight` are the keys that the Go maps hold with `true`.
pub record Spool : Type 0 where
  pub items : Dict SpoolItem
  pub known : List Text
  pub in_flight : List Text
  pub disk : Disk
