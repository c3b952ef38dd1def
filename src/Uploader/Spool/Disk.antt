-- ===== src/Uploader/Spool/Disk.antt =====
-- What the spool keeps on disk: the ledger state/processed.jsonl and the directories in pending/.
use call_recorder.Prelude.{ℕ, Bool, true, false, Option, List, [], ◌∷◌, ◌++◌}
use call_recorder.Prelude.{if◌then◌else◌}
use call_recorder.Prelude.Text.{Text}
use call_recorder.Prelude.Dict.{Dict}
use call_recorder.Uploader.Model.{CreateUploadRequest}

-- `directory` is not exported in Go: a manifest on disk has an empty one.
pub record SpoolItem : Type 0 where
  pub id : Text
  pub source_path : Text
  pub fingerprint : Text
  pub audio_file : Text
  pub request : CreateUploadRequest
  pub attempts : ℕ
  pub next_attempt : ℕ
  pub last_error : Text
  pub created_at : ℕ
  pub directory : Text

pub record CompletedRecord : Type 0 where
  pub fingerprint : Text
  pub source_path : Text
  pub completed_at : ℕ

-- A line of the ledger: a record, text that is no JSON, or more than the scanner's buffer holds.
pub data LedgerLine : Type 0 where
  entry : CompletedRecord → LedgerLine
  garbage : LedgerLine
  too_long : LedgerLine

-- A directory of pending/. `manifest` is what manifest.json decodes to, if it is there and does.
pub record PendingDirectory : Type 0 where
  pub manifest : Option SpoolItem
  pub audio : Dict Text

pub data PendingEntry : Type 0 where
  plain_file : PendingEntry
  directory : PendingDirectory → PendingEntry

-- `torn_line`: behind the last whole line stands the beginning of a record, which cannot be decoded. A record
-- that lacks nothing but its newline, which can, is not among the outcomes.
pub record Disk : Type 0 where
  pub ledger : List LedgerLine
  pub torn_line : Bool
  pub pending : Dict PendingEntry

-- An appended record joins a torn line, and then neither of the two can be decoded.
unfoldable pub append_record : CompletedRecord → Disk → Disk
append_record r d = record d {
  ledger = d.ledger ++ (if d.torn_line then garbage else entry r) ∷ [];
  torn_line = false;
}

-- The beginning of a record is appended.
unfoldable pub append_part : Disk → Disk
append_part d = record d { torn_line = true }
