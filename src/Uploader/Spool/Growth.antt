-- ===== src/Uploader/Spool/Growth.antt =====
-- Changes of the disk that forget nothing (uploader/proscan-windows/spool.go).
use call_recorder.Prelude.{
  true, false, none, some, [], ◌∷◌, ◌≡◌, refl, sym, inl, inr, arith, Bool-cases, Option-cases,
  subst,
}
use call_recorder.Prelude.Text.{Text, text_eq, text_eq_iff, has_prefix}
use call_recorder.Prelude.Dict.{Dict, get, put}
use call_recorder.Prelude.Dict.Distinct.{IsDistinct, put-IsDistinct, remove-IsDistinct}
use call_recorder.Uploader.Spool.Disk.{
  SpoolItem, CompletedRecord, PendingDirectory, PendingEntry, plain_file, directory, Disk,
  append_record,
}
use call_recorder.Uploader.Spool.State.{Spool}
use call_recorder.Uploader.Spool.Methods.{
  in_directory, put_manifest, remove_directory, put_audio, make_directory,
}
use call_recorder.Uploader.Spool.Recovery.{
  recovers, kept_at, keeps, in_pending-remove, in_pending-put, in_pending-put_self,
}
use call_recorder.Uploader.Spool.Invariant.{is_filled, IsConsistent}
use call_recorder.Uploader.Spool.Changes.{
  kept_at-put, kept_at-remove, recovers-append_record, keeps_manifest, kept_at_directory,
  kept_at_unique,
}

pub record IsGrowth (d d' : Disk) : Type 0 where
  pub distinct : IsDistinct d.pending → IsDistinct d'.pending
  pub whole : d.torn_line ≡ false → d'.torn_line ≡ false
  pub recalls :
      d.torn_line ≡ false
      → IsDistinct d.pending
      → (f : Text) → recovers d f ≡ true
      → recovers d' f ≡ true
  pub keeps_all : (k f : Text) → kept_at d.pending k f ≡ true → kept_at d'.pending k f ≡ true

pub IsGrowth-refl : (d : Disk) → IsGrowth d d
IsGrowth-refl d = record {
  distinct = λ h. h;
  whole = λ h. h;
  recalls = λ w u f h. h;
  keeps_all = λ k f h. h;
}

pub IsGrowth-trans : {a b c : Disk} → IsGrowth a b → IsGrowth b c → IsGrowth a c
IsGrowth-trans p q = record {
  distinct = λ h. q.distinct (p.distinct h);
  whole = λ h. q.whole (p.whole h);
  recalls = λ w u f h. q.recalls (p.whole w) (p.distinct u) f (p.recalls w u f h);
  keeps_all = λ k f h. q.keeps_all k f (p.keeps_all k f h);
}

-- A spool whose disk grows stays consistent.
pub IsGrowth-IsConsistent :
    (s : Spool) (d' : Disk)
    → IsGrowth s.disk d'
    → IsConsistent s
    → IsConsistent (record s { disk = d' })
IsGrowth-IsConsistent s d' g c = record {
  distinct = g.distinct c.distinct;
  whole = g.whole c.whole;
  durable = λ f h. g.recalls c.whole c.distinct f (c.durable f h);
  backed = λ k item h.
      let b = c.backed k item h in
      record { named = b.named; filled = b.filled; kept = g.keeps_all k item.fingerprint b.kept };
}

pub IsGrowth-append_record : (d : Disk) (r : CompletedRecord) → IsGrowth d (append_record r d)
unfolding append_record
IsGrowth-append_record d r = record {
  distinct = λ h. h;
  whole = λ h. refl;
  recalls = λ w u f h. rw (recovers-append_record d r f w) (rw h);
  keeps_all = λ k f h. h;
}

module _ (k : Text) (f : PendingDirectory → PendingDirectory) (d : Disk) where
  in_directory-none : get d.pending k ≡ none → in_directory k f d ≡ d
  unfolding in_directory
  in_directory-none e = rw (e, in_directory)

  in_directory_file : get d.pending k ≡ some plain_file → in_directory k f d ≡ d
  unfolding in_directory
  in_directory_file e = rw (e, in_directory)

  pub in_directory-some :
      (p : PendingDirectory)
      → get d.pending k ≡ some (directory p)
      → in_directory k f d ≡ record d { pending = put d.pending k (directory (f p)) }
  unfolding in_directory
  in_directory-some p e = rw (e, in_directory)

-- A change of pending/ at a name where nothing is kept.
module _ (d : Disk) (k : Text) (nothing : (f : Text) → kept_at d.pending k f ≡ false) where
  abbrev with_entry : PendingEntry → Disk
  with_entry v = record d { pending = put d.pending k v }

  pub IsGrowth-put : (v : PendingEntry) → IsGrowth d (with_entry v)
  unfolding recovers
  IsGrowth-put v = record {
    distinct = λ h. put-IsDistinct d.pending k v h;
    whole = λ h. h;
    recalls = λ w u f h. ground (arith, in_pending-put d.pending k f v, nothing f);
    keeps_all =
        λ j f h. rw (kept_at-put d.pending k j f v) (ground (arith, nothing f, text_eq_iff k j));
  }

  pub IsGrowth-remove : IsGrowth d (remove_directory k d)
  unfolding recovers remove_directory
  IsGrowth-remove = record {
    distinct = λ h. remove-IsDistinct d.pending k h;
    whole = λ h. h;
    recalls = λ w u f h. ground (arith, in_pending-remove d.pending k f u, nothing f);
    keeps_all =
        λ j f h. rw (kept_at-remove d.pending k j f) (ground (arith, nothing f, text_eq_iff k j));
  }

  pub IsGrowth-in_directory :
      (f : PendingDirectory → PendingDirectory) → IsGrowth d (in_directory k f d)
  IsGrowth-in_directory f = elim (Option-cases (get d.pending k)) [
    | inl e ↦ subst (IsGrowth d) (sym (in_directory-none k f d e)) (IsGrowth-refl d)
    | inr (plain_file, e) ↦ subst (IsGrowth d) (sym (in_directory_file k f d e)) (IsGrowth-refl d)
    | inr (directory p, e) ↦
        subst (IsGrowth d) (sym (in_directory-some k f d p e)) (IsGrowth-put (directory (f p)))
  ]

-- A name that begins with a dot keeps nothing.
pub dot_keeps_nothing :
    (m : Dict PendingEntry) (k : Text)
    → has_prefix k (b'.' ∷ []) ≡ true
    → (f : Text) → kept_at m k f ≡ false
dot_keeps_nothing m k dot f = elim (Bool-cases (kept_at m k f)) [
  | inl kept ↦ let (p, e, plain) = kept_at_directory m k f kept in cc
  | inr empty ↦ empty
]

-- Work in a directory whose name begins with a dot forgets nothing.
module _ (d : Disk) (k : Text) (dot : has_prefix k (b'.' ∷ []) ≡ true) where
  pub IsGrowth-make_directory : IsGrowth d (make_directory k d)
  unfolding make_directory
  IsGrowth-make_directory = IsGrowth-put d k (dot_keeps_nothing d.pending k dot) _

  pub IsGrowth-remove_directory : IsGrowth d (remove_directory k d)
  IsGrowth-remove_directory = IsGrowth-remove d k (dot_keeps_nothing d.pending k dot)

  pub IsGrowth-put_audio : (file bytes : Text) → IsGrowth d (put_audio k file bytes d)
  unfolding put_audio
  IsGrowth-put_audio file bytes = IsGrowth-in_directory d k (dot_keeps_nothing d.pending k dot) _

  pub IsGrowth-put_temporary : (item : SpoolItem) → IsGrowth d (put_manifest k item d)
  unfolding put_manifest
  IsGrowth-put_temporary item = IsGrowth-in_directory d k (dot_keeps_nothing d.pending k dot) _

pub recovers-put :
    (d : Disk) (k f : Text) (v : PendingEntry)
    → (kept_at d.pending k f ≡ true → keeps k v f ≡ true)
    → recovers d f ≡ true
    → recovers (record d { pending = put d.pending k v }) f ≡ true
unfolding recovers
recovers-put d k f v same h = elim (Bool-cases (kept_at d.pending k f)) [
  | inl this ↦ ground (arith, in_pending-put_self d.pending k f v (same this))
  | inr other ↦ ground (arith, in_pending-put d.pending k f v)
]

kept_at-put_mono :
    (m : Dict PendingEntry) (k j f : Text) (v : PendingEntry)
    → (kept_at m k f ≡ true → keeps k v f ≡ true)
    → kept_at m j f ≡ true
    → kept_at (put m k v) j f ≡ true
kept_at-put_mono m k j f v same h = rw kept_at-put (elim (Bool-cases (text_eq k j)) [
  | inl e ↦ rw e (
      subst (λ i. keeps i v f ≡ true) ((text_eq_iff k j).0 e)
        (same (subst (λ i. kept_at m i f ≡ true) (sym ((text_eq_iff k j).0 e)) h)))
  | inr e ↦ rw e h
])

-- The manifest of a filled item, rewritten where its fingerprint is kept already.
pub IsGrowth-put_manifest :
    (d : Disk) (k : Text) (item : SpoolItem)
    → is_filled item ≡ true
    → kept_at d.pending k item.fingerprint ≡ true
    → IsGrowth d (put_manifest k item d)
unfolding put_manifest
IsGrowth-put_manifest d k item filled kept =
    let (p, e, plain) = kept_at_directory d.pending k item.fingerprint kept in
    let v = directory (record p { manifest = some (record item { directory = [] }) }) in
    let same : (f : Text) → kept_at d.pending k f ≡ true → keeps k v f ≡ true = λ f h.
      rw (keeps_manifest k f p item filled) (
        ground (
          arith,
          kept_at_unique d.pending k item.fingerprint f kept h,
          text_eq_iff item.fingerprint f,
        )) in
    subst (IsGrowth d) (sym (in_directory-some k _ d p e)) (record {
      distinct = λ h. put-IsDistinct d.pending k v h;
      whole = λ h. h;
      recalls = λ w u f h. recovers-put d k f v (same f) h;
      keeps_all = λ j f h. kept_at-put_mono d.pending k j f v (same f) h;
    })
