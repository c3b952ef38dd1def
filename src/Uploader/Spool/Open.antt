-- ===== src/Uploader/Spool/Open.antt =====
-- `openDurableSpool`, `compactProcessedLedger` and `readSpoolManifest` of
-- uploader/proscan-windows/spool.go: the state of memory is rebuilt from the disk.
use call_recorder.Prelude.{
  ℕ, ◌*◌, ◌^◌, Bool, true, false, ◌||◌, ◌&&◌, ◌==◌, Option, none, some, List, [], ◌∷◌,
  if◌then◌else◌, ltb, map,
}
use call_recorder.Prelude.Text.{Text, is_empty, has_prefix}
use call_recorder.Prelude.Dict.{Dict, put, add}
use call_recorder.Uploader.Effects.{
  returned, refused, Exec, ◌>>=◌, ◌>>◌, pure, gets, attempt, Plan, Failure, incomplete_manifest,
  ledger_unreadable, make_directories, open_ledger, write_compact, replace_compact, append_open,
  read_pending,
}
use call_recorder.Uploader.Spool.Disk.{
  SpoolItem, LedgerLine, entry, garbage, too_long, PendingDirectory, PendingEntry, plain_file,
  directory, Disk,
}
use call_recorder.Uploader.Spool.State.{Spool}

-- The loop over the lines; a line too long for the buffer ends it with an error.
unfoldable pub scan_ledger : List Text → List LedgerLine → Option (List Text)
scan_ledger known [] = some known
scan_ledger known (entry r ∷ lines) =
    scan_ledger (if is_empty r.fingerprint then known else add known r.fingerprint) lines
scan_ledger known (garbage ∷ lines) = scan_ledger known lines
scan_ledger known (too_long ∷ lines) = none

-- The order of strings, byte by byte.
unfoldable pub text_lt : Text → Text → Bool
text_lt a [] = false
text_lt [] (y ∷ ys) = true
text_lt (x ∷ xs) (y ∷ ys) = ltb x y || (x == y && text_lt xs ys)

unfoldable pub insert_sorted : Text → List Text → List Text
insert_sorted k [] = k ∷ []
insert_sorted k (j ∷ s) =
    let rest = insert_sorted k s in if text_lt j k then j ∷ rest else k ∷ j ∷ s

-- sort.Strings
unfoldable pub sort_texts : List Text → List Text
sort_texts [] = []
sort_texts (k ∷ s) = insert_sorted k (sort_texts s)

unfoldable pub fingerprint_line : Text → LedgerLine
fingerprint_line f = entry (record { fingerprint = f; source_path = []; completed_at = 0 })

-- `compactProcessedLedger`: the ledger is replaced by one line for each known fingerprint.
unfoldable pub compact_ledger : Plan → List Text → Exec Disk (Unit {0})
unfolding attempt
compact_ledger plan known = do
  attempt (plan write_compact) (λ d. d) (λ d. d)
  attempt (plan replace_compact)
      (λ d. record d { ledger = map fingerprint_line (sort_texts known); torn_line = false })
      (λ d. d)

-- `readSpoolManifest`
unfoldable pub read_manifest : PendingDirectory → Option SpoolItem
read_manifest p = elim p.manifest [
  | none ↦ none
  | some item ↦
      if is_empty item.id
        || is_empty item.fingerprint
        || is_empty item.audio_file
        || is_empty item.request.sender_id
      then none
      else some item
]

-- The items that were read so far, and what is known.
abbrev pub Loaded : Type 0
Loaded = Dict SpoolItem × List Text

unfoldable pub load_item : Text → PendingDirectory → Loaded → Option Loaded
load_item name p (items, known) = elim (read_manifest p) [
  | none ↦ none
  | some item ↦
      some (put items item.id (record item { directory = name }), add known item.fingerprint)
]

-- The loop over pending/: files and names that begin with a dot are passed over.
unfoldable pub load_entries : Dict PendingEntry → Loaded → Option Loaded
load_entries [] l = some l
load_entries ((name, plain_file) ∷ rest) l = load_entries rest l
load_entries ((name, directory p) ∷ rest) l =
    let skipped = load_entries rest l in
    let loaded : Option Loaded = elim (load_item name p l) [
      | none ↦ none
      | some l' ↦ load_entries rest l'
    ] in
    if has_prefix name (b'.' ∷ []) then skipped else loaded

unfoldable pub lift : {A : Type 0} → Failure → Option A → Exec Disk A
lift e none d = (refused e, d)
lift e (some a) d = (returned a, d)

abbrev pub compact_limit : ℕ
compact_limit = 16 * 2 ^ 20

unfoldable pub compact_if_large : Plan → ℕ → List Text → Exec Disk (Unit {0})
compact_if_large plan size known d =
    if ltb compact_limit size then compact_ledger plan known d else (returned tt, d)

-- `openDurableSpool`; `size` is the length of the ledger in bytes.
unfoldable pub open_spool : Plan → ℕ → Exec Disk Spool
unfolding lift compact_if_large attempt
open_spool plan size = do
  attempt (plan make_directories) (λ d. d) (λ d. d)
  attempt (plan open_ledger) (λ d. d) (λ d. d)
  lines ← gets (λ d. d.ledger)
  known ← lift ledger_unreadable (scan_ledger [] lines)
  compact_if_large plan size known
  attempt (plan append_open) (λ d. d) (λ d. d)
  attempt (plan read_pending) (λ d. d) (λ d. d)
  pending ← gets (λ d. d.pending)
  loaded ← lift incomplete_manifest (load_entries pending ([], known))
  disk ← gets (λ d. d)
  pure (record { items = loaded.0; known = loaded.1; in_flight = []; disk = disk })
