-- ===== src/Uploader/Spool/Changes.antt =====
-- How the changes of the disk that the methods make (uploader/proscan-windows/spool.go) act on
-- what is remembered.
use call_recorder.Prelude.{
  true, false, not, ◌&&◌, ◌||◌, some, [], ◌∷◌, ◌≡◌, inl, inr, arith, if◌then◌else◌, Bool-cases,
  Option-cases,
}
use call_recorder.Prelude.Text.{Text, text_eq, text_eq_iff, has_prefix}
use call_recorder.Prelude.Dict.{Dict, get, put, remove, get-put, get-remove}
use call_recorder.Prelude.Dict.Distinct.{IsDistinct}
use call_recorder.Uploader.Spool.Disk.{
  SpoolItem, CompletedRecord, entry, PendingDirectory, PendingEntry, plain_file, directory, Disk,
  append_record,
}
use call_recorder.Uploader.Spool.Open.{read_manifest}
use call_recorder.Uploader.Spool.Methods.{remove_directory}
use call_recorder.Uploader.Spool.Recovery.{
  recovers, kept_at, keeps, records, in_ledger-append, in_pending-remove,
}
use call_recorder.Uploader.Spool.Invariant.{is_filled}

-- One name keeps one fingerprint.
pub kept_at_unique :
    (m : Dict PendingEntry) (k f g : Text) → kept_at m k f ≡ true → kept_at m k g ≡ true → f ≡ g
unfolding kept_at keeps
kept_at_unique m k f g h j = elim (Option-cases (get m k)) [
  | inl nothing ↦ cc (rw (nothing, kept_at) at h)
  | inr (plain_file, e) ↦ cc (rw (e, kept_at) at h)
  | inr (directory p, e) ↦ elim (Option-cases (read_manifest p)) [
    | inl nothing ↦ cc (rw (e, kept_at, nothing, keeps) at h)
    | inr (i, read) ↦
        let h' = rw (e, kept_at, read, keeps) at h in
        let j' = rw (e, kept_at, read, keeps) at j in
        ground (arith, text_eq_iff i.fingerprint f, text_eq_iff i.fingerprint g)
  ]
]

pub kept_at-put :
    (m : Dict PendingEntry) (k j f : Text) (v : PendingEntry)
    → kept_at (put m k v) j f ≡ (if text_eq k j then keeps j v f else kept_at m j f)
unfolding kept_at
kept_at-put m k j f v = ground (arith, get-put m k j v)

pub kept_at-remove :
    (m : Dict PendingEntry) (k j f : Text)
    → kept_at (remove m k) j f ≡ (if text_eq k j then false else kept_at m j f)
unfolding kept_at
kept_at-remove m k j f = ground (arith, get-remove m k j)

-- A record with a fingerprint, appended to a ledger with no torn line, is remembered, and nothing
-- is forgotten.
pub recovers-append_record :
    (d : Disk) (r : CompletedRecord) (f : Text)
    → d.torn_line ≡ false
    → recovers (append_record r d) f ≡ (recovers d f || records (entry r) f)
unfolding recovers append_record
recovers-append_record d r f h = rw (h, in_ledger-append) (ground arith)

-- Without the directory of a fingerprint the others are still remembered.
pub recovers-remove :
    (d : Disk) (k f g : Text)
    → IsDistinct d.pending
    → kept_at d.pending k g ≡ true
    → recovers d f ≡ true
    → (recovers (remove_directory k d) f || text_eq g f) ≡ true
unfolding recovers remove_directory
recovers-remove d k f g u kept h = elim (Bool-cases (kept_at d.pending k f)) [
  | inl this ↦
      let same = kept_at_unique d.pending k g f kept this in ground (arith, text_eq_iff g f)
  | inr other ↦ ground (arith, in_pending-remove d.pending k f u)
]

-- The manifest of a filled item, written where the fingerprint was kept already: nothing changes in
-- what is remembered, and the other names stay as they are.
pub keeps_manifest :
    (k f : Text) (p : PendingDirectory) (item : SpoolItem)
    → is_filled item ≡ true
    → keeps k (directory (record p { manifest = some (record item { directory = [] }) })) f
      ≡ (not (has_prefix k (b'.' ∷ [])) && text_eq item.fingerprint f)
unfolding keeps read_manifest is_filled
keeps_manifest k f p item h = ground arith

pub kept_at_directory :
    (m : Dict PendingEntry) (k f : Text)
    → kept_at m k f ≡ true
    → (p : PendingDirectory) × (get m k ≡ some (directory p)) × (has_prefix k (b'.' ∷ []) ≡ false)
unfolding kept_at keeps
kept_at_directory m k f h = elim (Option-cases (get m k)) [
  | inl nothing ↦ cc (rw (nothing, kept_at) at h)
  | inr (plain_file, e) ↦ cc (rw (e, kept_at) at h)
  | inr (directory p, e) ↦ elim (Option-cases (read_manifest p)) [
    | inl nothing ↦ cc (rw (e, kept_at, nothing, keeps) at h)
    | inr (i, read) ↦ let h' = rw (e, kept_at, read, keeps) at h in (p, e, ground arith)
  ]
]
