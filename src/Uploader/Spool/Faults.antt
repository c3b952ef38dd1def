-- ===== src/Uploader/Spool/Faults.antt =====
-- What an interrupted write or removal does to the spool (uploader/proscan-windows/spool.go).
use call_recorder.Prelude.{
  ℕ, ◌≡◌, ◌≢◌, refl, sym, ap, true, false, none, some, List, [], ◌∷◌, arith, inl, inr, Option-cases,
  Bool-cases, subst,
}
use call_recorder.Prelude.Text.{Text, text_eq, text_eq_iff, text_eq_refl, has_prefix}
use call_recorder.Prelude.Dict.{Dict, get, put, remove, get-put, add}
use call_recorder.Uploader.Effects.{
  Exit, done, torn_crash, returned, Plan, append_ledger, sync_ledger, remove_item, attempt,
}
use call_recorder.Uploader.Spool.Disk.{
  SpoolItem, PendingDirectory, PendingEntry, plain_file, directory, Disk, append_record,
}
use call_recorder.Uploader.Spool.State.{Spool}
use call_recorder.Uploader.Spool.Open.{
  open_spool, scan_ledger, load_entries, load_item, read_manifest, Loaded,
}
use call_recorder.Uploader.Spool.Methods.{
  complete, completed, empty_directory, release, remove_directory,
}
use call_recorder.Uploader.Spool.Recovery.{
  recovers, in_ledger, in_ledger-append, in_pending, kept_at, records,
}
use call_recorder.Uploader.Spool.Changes.{kept_at_directory}
use call_recorder.Uploader.Spool.Growth.{in_directory-some}
use call_recorder.Uploader.Spool.Invariant.{IsConsistent}
use call_recorder.Uploader.Spool.Finish.{complete_here}
use call_recorder.Uploader.Spool.Restart.{open_spool-Read}

-- A directory that is read and has no manifest stops the start.
load_entries_blocked :
    (m : Dict PendingEntry) (k : Text) (p : PendingDirectory) (l : Loaded)
    → get m k ≡ some (directory p)
    → has_prefix k (b'.' ∷ []) ≡ false
    → read_manifest p ≡ none
    → load_entries m l ≡ none
unfolding get load_entries load_item
load_entries_blocked [] k p l at_k plain none_there = absurd (cc)
load_entries_blocked ((name, plain_file) ∷ m) k p l at_k plain none_there =
    ground (arith, load_entries_blocked m k p l)
load_entries_blocked ((name, directory q) ∷ m) k p l at_k plain none_there =
    elim (Bool-cases (text_eq name k)) [
      | inl same ↦
          let e : some (directory q) ≡ some (directory p) = rw same at at_k in
          ground (arith, text_eq_iff name k)
      | inr other ↦ elim (Option-cases (read_manifest q)) [
        | inl unread ↦ ground (arith, load_entries_blocked m k p l)
        | inr (i, read) ↦
            let l2 : Loaded =
              (put l.0 i.id (record i { directory = name }), add l.1 i.fingerprint) in
            ground (arith, load_entries_blocked m k p l, load_entries_blocked m k p l2)
      ]
    ]

disk-complete :
    (plan : Plan) (now : ℕ) (id : Text) (s : Spool) (current : SpoolItem)
    → get s.items id ≡ some current
    → plan append_ledger ≡ done
    → plan sync_ledger ≡ done
    → plan remove_item ≡ torn_crash
    → (complete plan now id s).1.disk
      ≡ empty_directory current.directory (append_record (completed current now) s.disk)
unfolding attempt
disk-complete plan now id s current here a b r =
    rw (complete_here plan now id s current here, a, b, r)

complete_done :
    (plan : Plan) (now : ℕ) (id : Text) (s : Spool) (current : SpoolItem)
    → get s.items id ≡ some current
    → plan append_ledger ≡ done
    → plan sync_ledger ≡ done
    → plan remove_item ≡ done
    → complete plan now id s ≡ (
      returned tt,
      release id (record s {
        items = remove s.items id;
        disk = remove_directory current.directory (append_record (completed current now) s.disk);
      }),
    )
unfolding attempt
complete_done plan now id s current here a b r =
    rw (complete_here plan now id s current here, a, b, r)

read_parts :
    (start : Plan) (size : ℕ) (d d' : Disk) (t : Spool)
    → open_spool start size d ≡ (returned t, d')
    → (known : List Text) × (l : Loaded) × (load_entries d.pending ([], known) ≡ some l)
      × (scan_ledger [] d.ledger ≡ some known)
read_parts start size d d' t h =
    let (known, l, a, b, c1, c2, c3) = open_spool-Read start size d d' t h in (known, l, b, a)

emptied_blocks :
    (start : Plan) (size : ℕ) (k : Text) (d d' : Disk) (t : Spool) (p : PendingDirectory)
    → get d.pending k ≡ some (directory p)
    → has_prefix k (b'.' ∷ []) ≡ false
    → open_spool start size (empty_directory k d) ≢ (returned t, d')
unfolding empty_directory
emptied_blocks start size k d d' t p e plain h =
    let gone : PendingDirectory = record { manifest = none; audio = [] } in
    let (known, l, loaded, scanned_all) =
      read_parts start size (record d { pending = put d.pending k (directory gone) }) d' t
        (rw (in_directory-some k (λ (q : PendingDirectory). gone) d p e) at h) in
    let blocked =
      load_entries_blocked (put d.pending k (directory gone)) k gone ([], known)
        (rw (get-put, text_eq_refl)) plain (unfold read_manifest in refl) in
    absurd (cc)

-- Where, on a consistent spool, `Complete` has written the ledger and dies after the files of the
-- item are removed and before their directory is, no start on that disk succeeds, whatever the
-- operating system answers.
pub start-blocked :
    (plan start : Plan) (now size : ℕ) (id : Text) (s t : Spool) (current : SpoolItem) (d' : Disk)
    → IsConsistent s
    → get s.items id ≡ some current
    → plan append_ledger ≡ done
    → plan sync_ledger ≡ done
    → plan remove_item ≡ torn_crash
    → open_spool start size (complete plan now id s).1.disk ≢ (returned t, d')
start-blocked plan start now size id s t current d' c here a b r h =
    let backed = c.backed id current here in
    let own : kept_at s.disk.pending current.directory current.fingerprint ≡ true =
      subst (λ k. kept_at s.disk.pending k current.fingerprint ≡ true) (sym backed.named)
        backed.kept in
    let (p, e, plain) =
      kept_at_directory s.disk.pending current.directory current.fingerprint own in
    emptied_blocks start size current.directory (append_record (completed current now) s.disk) d' t
      p (unfold append_record in e) plain (rw (disk-complete plan now id s current here a b r) at h)

-- With a torn line at the end of the ledger, and the fingerprint of the item neither in the
-- ledger nor in another directory, `Complete` succeeds where its calls do, and then the disk does
-- not remember the recording.
pub complete-forgets :
    (plan : Plan) (now : ℕ) (id : Text) (s : Spool) (current : SpoolItem)
    → get s.items id ≡ some current
    → plan append_ledger ≡ done
    → plan sync_ledger ≡ done
    → plan remove_item ≡ done
    → s.disk.torn_line ≡ true
    → in_ledger s.disk.ledger current.fingerprint ≡ false
    → in_pending (remove s.disk.pending current.directory) current.fingerprint ≡ false
    → ((complete plan now id s).0 ≡ returned tt)
      × (recovers (complete plan now id s).1.disk current.fingerprint ≡ false)
unfolding recovers append_record remove_directory records
complete-forgets plan now id s current here a b r torn_line fresh alone =
    let e = complete_done plan now id s current here a b r in
    (
      ap (λ (x : Exit (Unit {0}) × Spool). x.0) e,
      rw e (rw (torn_line, in_ledger-append, fresh, alone)),
    )
