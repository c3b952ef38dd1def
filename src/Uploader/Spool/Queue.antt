-- ===== src/Uploader/Spool/Queue.antt =====
-- `Queue` of uploader/proscan-windows/spool.go keeps the invariant, whatever its calls answer and
-- wherever the process dies.
use call_recorder.Prelude.{
  ◌≡◌, refl, sym, true, false, Option, none, some, [], ◌∷◌, arith, subst, inl, inr, Option-cases,
  Bool-cases,
}
use call_recorder.Prelude.Text.{Text, text_eq, text_eq_iff, text_eq_refl, has_prefix}
use call_recorder.Prelude.Dict.{get, put, get-put, get-remove, add, member-add}
use call_recorder.Uploader.Effects.{
  io_error, rename_temporary, write_manifest, replace_manifest, write_audio, make_temporary,
  remove_temporary, refused, Exec, ◌>>◌, attempt, Plan,
}
use call_recorder.Uploader.Spool.Disk.{SpoolItem, PendingDirectory, PendingEntry, directory, Disk}
use call_recorder.Uploader.Spool.State.{Spool}
use call_recorder.Uploader.Spool.Methods.{
  on_disk, make_directory, put_audio, put_manifest, rename_directory, write_json_atomic,
  rename_item, fill, queue_new, on_error, remove_directory,
}
use call_recorder.Uploader.Spool.Recovery.{kept_at, recovers, in_pending_of_kept}
use call_recorder.Uploader.Spool.Changes.{kept_at-put, keeps_manifest}
use call_recorder.Uploader.Spool.Invariant.{is_filled, IsBacked, IsConsistent}
use call_recorder.Uploader.Spool.Growth.{
  IsGrowth, IsGrowth-trans, IsGrowth-IsConsistent, IsGrowth-make_directory, IsGrowth-put_audio,
  IsGrowth-put_temporary, IsGrowth-remove_directory, IsGrowth-put, in_directory-some,
}
use call_recorder.Uploader.Spool.Ensures.{Ensures, Ensures-bind, Ensures-attempt, Ensures-on_error}

-- The directory that is being filled is there, with a manifest `o`.
abbrev Filling : Text → Option SpoolItem → Spool → Type 0
Filling k o s =
    (p : PendingDirectory) × (get s.disk.pending k ≡ some (directory p)) × (p.manifest ≡ o)

Filling-make_directory : (k : Text) (s : Spool) → Filling k none (on_disk (make_directory k) s)
unfolding make_directory
Filling-make_directory k s =
    (record { manifest = none; audio = [] }, rw (get-put, text_eq_refl), refl)

Filling-put_audio :
    (k file bytes : Text) (o : Option SpoolItem) (s : Spool)
    → Filling k o s
    → Filling k o (on_disk (put_audio k file bytes) s)
unfolding put_audio
Filling-put_audio k file bytes o s (p, e, m) = (
  record p { audio = put p.audio file bytes },
  rw
      (in_directory-some k (λ (q : PendingDirectory). record q { audio = put q.audio file bytes })
        s.disk p e)
      (rw (get-put, text_eq_refl)),
  m,
)

abbrev stored : SpoolItem → SpoolItem
stored item = record item { directory = [] }

Filling-put_manifest :
    (k : Text) (item : SpoolItem) (s : Spool)
    → Filling k none s
    → Filling k (some (stored item)) (on_disk (put_manifest k item) s)
unfolding put_manifest
Filling-put_manifest k item s (p, e, m) = (
  record p { manifest = some (stored item) },
  rw
      (in_directory-some k (λ (q : PendingDirectory). record q { manifest = some (stored item) })
        s.disk p e)
      (rw (get-put, text_eq_refl)),
  refl,
)

-- The item has its directory.
abbrev pub Placed : SpoolItem → Spool → Type 0
Placed item s = kept_at s.disk.pending item.id item.fingerprint ≡ true

nothing_at :
    (d : Disk) (old new f : Text)
    → get d.pending new ≡ none
    → kept_at (remove_directory old d).pending new f ≡ false
unfolding kept_at remove_directory
nothing_at d old new f free = ground (arith, get-remove d.pending old new)

renamed :
    (d : Disk) (old new : Text) (e : PendingEntry)
    → get d.pending old ≡ some e
    → rename_directory old new d ≡ record d { pending = put (remove_directory old d).pending new e }
unfolding rename_directory remove_directory
renamed d old new e h = rw (h, rename_directory)

rename_item_taken :
    (plan : Plan) (old new : Text) (s : Spool) (e : PendingEntry)
    → get s.disk.pending new ≡ some e
    → rename_item plan old new s ≡ (refused io_error, s)
unfolding rename_item
rename_item_taken plan old new s e h = rw (h, rename_item)

rename_item_free :
    (plan : Plan) (old new : Text) (s : Spool)
    → get s.disk.pending new ≡ none
    → rename_item plan old new s
      ≡ attempt (plan rename_temporary) (on_disk (rename_directory old new)) (λ t. t) s
unfolding rename_item
rename_item_free plan old new s h = rw (h, rename_item)

module _ (temporary bytes : Text) (item : SpoolItem) (dot : has_prefix temporary (b'.' ∷ []) ≡ true)
    (filled : is_filled item ≡ true) (plain : has_prefix item.id (b'.' ∷ []) ≡ false) where
  rename_directory-IsGrowth :
      (d : Disk) (e : PendingEntry)
      → get d.pending temporary ≡ some e
      → get d.pending item.id ≡ none
      → IsGrowth d (rename_directory temporary item.id d)
  unfolding remove_directory
  rename_directory-IsGrowth d e at_old free =
      subst (IsGrowth d) (sym (renamed d temporary item.id e at_old)) (
        IsGrowth-trans (IsGrowth-remove_directory d temporary dot) (
          IsGrowth-put (remove_directory temporary d) item.id
            (λ f. nothing_at d temporary item.id f free) e))

  rename_placed :
      (d : Disk) (p : PendingDirectory)
      → get d.pending temporary ≡ some (directory p)
      → p.manifest ≡ some (stored item)
      → kept_at (rename_directory temporary item.id d).pending item.id item.fingerprint ≡ true
  rename_placed d p at_old m =
      let e : p ≡ record p { manifest = some (stored item) } = ground arith in
      rw (renamed d temporary item.id (directory p) at_old) (
        rw (kept_at-put, text_eq_refl)
          (rw e (rw (keeps_manifest item.id item.fingerprint p item filled, plain, text_eq_refl))))

  rename-Ensures :
      (plan : Plan) (s : Spool)
      → IsConsistent s
      → Filling temporary (some (stored item)) s
      → Ensures (λ _. Placed item) (rename_item plan temporary item.id s)
  rename-Ensures plan s c (p, at_old, m) = elim (Option-cases (get s.disk.pending item.id)) [
    | inr (e, taken) ↦
        subst (Ensures (λ _. Placed item))
          (sym (rename_item_taken plan temporary item.id s e taken)) c
    | inl free ↦
        subst (Ensures (λ _. Placed item)) (sym (rename_item_free plan temporary item.id s free)) (
          Ensures-attempt (λ _. Placed item) (plan rename_temporary)
            (on_disk (rename_directory temporary item.id)) (λ t. t) s c
            (IsGrowth-IsConsistent s _ (rename_directory-IsGrowth s.disk (directory p) at_old free)
              c)
            c (rename_placed s.disk p at_old m))
  ]

  abbrev Full : Spool → Type 0
  Full = Filling temporary (some (stored item))

  write-Ensures :
      (plan : Plan) (s : Spool)
      → IsConsistent s
      → Filling temporary none s
      → Ensures (λ _. Full) (write_json_atomic plan temporary item s)
  unfolding write_json_atomic
  write-Ensures plan s c f =
      Ensures-bind (λ _. Filling temporary none) (λ _. Full)
        (attempt (plan write_manifest) (λ t. t) (λ t. t) s) _
        (Ensures-attempt (λ _. Filling temporary none) (plan write_manifest) _ _ s c c c f)
        λ a t ct ft.
          Ensures-attempt (λ _. Full) (plan replace_manifest)
            (on_disk (put_manifest temporary item)) (λ u. u) t ct
            (IsGrowth-IsConsistent t _ (IsGrowth-put_temporary t.disk temporary dot item) ct) ct
            (Filling-put_manifest temporary item t ft)

  fill-Ensures :
      (plan : Plan) (s : Spool)
      → IsConsistent s
      → Filling temporary none s
      → Ensures (λ _. Placed item) (fill plan temporary bytes item s)
  unfolding fill
  fill-Ensures plan s c f =
      Ensures-bind (λ _. Filling temporary none) (λ _. Placed item)
        (attempt (plan write_audio) (on_disk (put_audio temporary item.audio_file bytes))
          (on_disk (put_audio temporary item.audio_file [])) s)
        _
        (Ensures-attempt (λ _. Filling temporary none) (plan write_audio)
          (on_disk (put_audio temporary item.audio_file bytes))
          (on_disk (put_audio temporary item.audio_file [])) s c (audio_kept bytes) (audio_kept [])
          (Filling-put_audio temporary item.audio_file bytes none s f))
        λ a t ct ft.
          Ensures-bind (λ _. Full) (λ _. Placed item) (write_json_atomic plan temporary item t) _
            (write-Ensures plan t ct ft) λ b u cu fu. rename-Ensures plan u cu fu
    where
      audio_kept : (b : Text) → IsConsistent (on_disk (put_audio temporary item.audio_file b) s)
      audio_kept b =
          IsGrowth-IsConsistent s _ (IsGrowth-put_audio s.disk temporary dot item.audio_file b) c

  abbrev added : SpoolItem
  added = record item { directory = item.id }

  added_is : (i : SpoolItem) → some added ≡ some i → added ≡ i
  added_is i h = cc

  -- The item is added to memory once it has its directory.
  with_item-IsConsistent :
      (t : Spool)
      → IsConsistent t
      → Placed item t
      → IsConsistent (record t {
        items = put t.items item.id (record item { directory = item.id });
        known = add t.known item.fingerprint;
      })
  unfolding recovers is_filled
  with_item-IsConsistent t c placed = record {
    distinct = c.distinct;
    whole = c.whole;
    durable = λ f h. elim (Bool-cases (text_eq item.fingerprint f)) [
      | inl this ↦ ground (
        arith,
        text_eq_iff item.fingerprint f,
        in_pending_of_kept t.disk.pending item.id item.fingerprint placed,
      )
      | inr other ↦ c.durable f (rw (member-add, other) at h)
    ];
    backed = λ k i h. elim (Bool-cases (text_eq item.id k)) [
      | inl this ↦
          subst (λ j. IsBacked t.disk j i) ((text_eq_iff item.id k).0 this)
            (subst (IsBacked t.disk item.id) (added_is i (rw (get-put, this) at h))
              (record { named = refl; filled = filled; kept = placed }))
      | inr other ↦ c.backed k i (rw (get-put, other) at h)
    ];
  }

  abbrev undo : Plan → Exec Spool (Unit {0})
  undo plan =
      attempt (plan remove_temporary) (on_disk (remove_directory temporary)) (λ t. t) >> λ t.
      (refused io_error, t)

  undo-Ensures :
      (plan : Plan) (s : Spool) → IsConsistent s → Ensures (λ _. Placed item) (undo plan s)
  undo-Ensures plan s c =
      Ensures-bind (λ _ _. Unit {0}) (λ _. Placed item)
        (attempt (plan remove_temporary) (on_disk (remove_directory temporary)) (λ t. t) s) _
        (Ensures-attempt (λ _ _. Unit {0}) (plan remove_temporary) _ _ s c
          (IsGrowth-IsConsistent s _ (IsGrowth-remove_directory s.disk temporary dot) c) c tt)
        λ a t ct _. ct

  pub queue_new-Ensures :
      (plan : Plan) (s : Spool)
      → IsConsistent s
      → Ensures (λ _. Placed item) (queue_new plan temporary bytes item s)
  unfolding queue_new on_error
  queue_new-Ensures plan s c =
      Ensures-bind (λ _. Filling temporary none) (λ _. Placed item)
        (attempt (plan make_temporary) (on_disk (make_directory temporary)) (λ t. t) s) _
        (Ensures-attempt (λ _. Filling temporary none) (plan make_temporary) _ _ s c
          (IsGrowth-IsConsistent s _ (IsGrowth-make_directory s.disk temporary dot) c) c
          (Filling-make_directory temporary s))
        λ a t ct ft.
          Ensures-bind (λ _. Placed item) (λ _. Placed item)
            (on_error (fill plan temporary bytes item) (undo plan) t) _
            (Ensures-on_error (λ _. Placed item) (fill plan temporary bytes item t) (undo plan) t
              (fill-Ensures plan t ct ft) (undo-Ensures plan))
            λ b u cu placed. (with_item-IsConsistent u cu placed, placed)
