-- ===== src/Uploader/Spool/Recovery.antt =====
-- What `openDurableSpool` finds on disk (uploader/proscan-windows/spool.go), as a test of the disk.
use call_recorder.Prelude.{
  Bool, true, false, not, ◌&&◌, ◌||◌, none, some, List, [], ◌∷◌, ◌++◌, ◌≡◌, inl, inr, arith,
  Bool-cases, Option-cases,
}
use call_recorder.Prelude.Text.{Text, text_eq, text_eq_iff, is_empty, has_prefix}
use call_recorder.Prelude.Dict.{Dict, get, put, remove, member, add, member-add}
use call_recorder.Prelude.Dict.Distinct.{IsDistinct, get_of_not_has}
use call_recorder.Uploader.Spool.Disk.{
  LedgerLine, entry, garbage, too_long, PendingEntry, plain_file, directory, Disk,
}
use call_recorder.Uploader.Spool.Open.{scan_ledger, read_manifest, Loaded, load_item, load_entries}

-- A line of the ledger says that the fingerprint is done.
unfoldable pub records : LedgerLine → Text → Bool
records (entry r) f = not (is_empty r.fingerprint) && text_eq r.fingerprint f
records garbage f = false
records too_long f = false

unfoldable pub in_ledger : List LedgerLine → Text → Bool
unfolding records
in_ledger [] f = false
in_ledger (l ∷ ls) f = records l f || in_ledger ls f

-- A directory of pending/ that is read, with a manifest of this fingerprint.
unfoldable pub keeps : Text → PendingEntry → Text → Bool
keeps name plain_file f = false
keeps name (directory p) f = elim (read_manifest p) [
  | none ↦ false
  | some item ↦ not (has_prefix name (b'.' ∷ [])) && text_eq item.fingerprint f
]

unfoldable pub in_pending : Dict PendingEntry → Text → Bool
in_pending [] f = false
in_pending ((name, e) ∷ m) f = keeps name e f || in_pending m f

-- The disk remembers the fingerprint: as done, or as an item that waits.
unfoldable pub recovers : Disk → Text → Bool
recovers d f = in_ledger d.ledger f || in_pending d.pending f

pub in_ledger-append :
    (ls : List LedgerLine) (l : LedgerLine) (f : Text)
    → in_ledger (ls ++ l ∷ []) f ≡ (in_ledger ls f || records l f)
unfolding in_ledger
in_ledger-append [] l f = ground arith
in_ledger-append (x ∷ ls) l f = ground (arith, in_ledger-append ls l f)

pub scan_ledger-member :
    (known : List Text) (ls : List LedgerLine) (k : List Text) (f : Text)
    → scan_ledger known ls ≡ some k
    → member k f ≡ (member known f || in_ledger ls f)
unfolding scan_ledger in_ledger
scan_ledger-member known [] k f h = ground arith
scan_ledger-member known (garbage ∷ ls) k f h = scan_ledger-member known ls k f h
scan_ledger-member known (too_long ∷ ls) k f h = cc
scan_ledger-member known (entry r ∷ ls) k f h = elim (Bool-cases (is_empty r.fingerprint)) [
  | inl empty ↦ rw empty (scan_ledger-member known ls k f (rw empty at h))
  | inr full ↦ rw full (
      let ih = scan_ledger-member (add known r.fingerprint) ls k f (rw full at h) in
      ground (arith, member-add known r.fingerprint f))
]

pub load_entries-member :
    (m : Dict PendingEntry) (l l' : Loaded) (f : Text)
    → load_entries m l ≡ some l'
    → member l'.1 f ≡ (member l.1 f || in_pending m f)
unfolding load_entries load_item in_pending keeps
load_entries-member [] l l' f h = ground arith
load_entries-member ((name, plain_file) ∷ m) l l' f h = load_entries-member m l l' f h
load_entries-member ((name, directory p) ∷ m) l l' f h =
    elim (Bool-cases (has_prefix name (b'.' ∷ []))) [
      | inl dot ↦
          let ih = load_entries-member m l l' f (rw dot at h) in
          ground (arith, Option-cases (read_manifest p))
      | inr item ↦ elim (Option-cases (read_manifest p)) [
        | inl unread ↦ ground arith
        | inr (i, read) ↦
            let l2 : Loaded =
              (put l.0 i.id (record i { directory = name }), add l.1 i.fingerprint) in
            let ih = load_entries-member m l2 l' f (rw (item, read) at h) in
            ground (arith, member-add l.1 i.fingerprint f)
      ]
    ]

-- What the entry of one name keeps.
unfoldable pub kept_at : Dict PendingEntry → Text → Text → Bool
kept_at m k f = elim (get m k) [ none ↦ false | some e ↦ keeps k e f ]

-- What is in pending/ after a change of one name: the others keep what they kept.
pub in_pending-remove :
    (m : Dict PendingEntry) (k f : Text)
    → IsDistinct m
    → in_pending m f ≡ true
    → (in_pending (remove m k) f || kept_at m k f) ≡ true
unfolding in_pending remove get kept_at
in_pending-remove [] k f u h = cc
in_pending-remove ((name, e) ∷ m) k f u h =
    ground (arith, in_pending-remove m k f u.1, text_eq_iff name k, get_of_not_has m k)

pub in_pending-put :
    (m : Dict PendingEntry) (k f : Text) (v : PendingEntry)
    → in_pending m f ≡ true
    → (in_pending (put m k v) f || kept_at m k f) ≡ true
unfolding in_pending put get kept_at
in_pending-put [] k f v h = cc
in_pending-put ((name, e) ∷ m) k f v h = ground (arith, in_pending-put m k f v, text_eq_iff name k)

pub in_pending-put_self :
    (m : Dict PendingEntry) (k f : Text) (v : PendingEntry)
    → keeps k v f ≡ true
    → in_pending (put m k v) f ≡ true
unfolding in_pending put
in_pending-put_self [] k f v h = rw h
in_pending-put_self ((name, e) ∷ m) k f v h = ground (arith, in_pending-put_self m k f v h)

-- An entry that keeps a fingerprint is found.
pub in_pending_of_kept :
    (m : Dict PendingEntry) (k f : Text) → kept_at m k f ≡ true → in_pending m f ≡ true
unfolding in_pending get kept_at
in_pending_of_kept [] k f h = cc
in_pending_of_kept ((name, e) ∷ m) k f h =
    ground (arith, in_pending_of_kept m k f, text_eq_iff name k)
