-- ===== src/Uploader/Spool/Keep.antt =====
-- `Retry` of uploader/proscan-windows/spool.go keeps the invariant, with lemmas for the other methods.
use call_recorder.Prelude.{
  ℕ, ◌≡◌, sym, true, false, ◌||◌, none, some, arith, subst, inl, inr, Option-cases, Bool-cases,
}
use call_recorder.Prelude.Text.{Text, text_eq, text_eq_iff, text_eq_refl}
use call_recorder.Prelude.Dict.{get, put, get-put}
use call_recorder.Uploader.Effects.{
  Outcome, done, failed, torn, crash, torn_crash, returned, Exec, attempt, Plan, write_manifest,
  replace_manifest, append_ledger,
}
use call_recorder.Uploader.Spool.Disk.{SpoolItem, Disk, append_record, append_part}
use call_recorder.Uploader.Spool.State.{Spool}
use call_recorder.Uploader.Spool.Methods.{
  on_disk, put_manifest, remove_directory, write_json_atomic, retry, retried, finally, release,
  completed,
}
use call_recorder.Uploader.Spool.Recovery.{kept_at, recovers, in_ledger, in_ledger-append, records}
use call_recorder.Uploader.Spool.Invariant.{is_filled, IsBacked, IsConsistent}
use call_recorder.Uploader.Spool.Growth.{
  IsGrowth-IsConsistent, IsGrowth-append_record, IsGrowth-put_manifest,
}
use call_recorder.Uploader.Spool.Ensures.{
  Ensures, Ensures-bind, Ensures-attempt, Ensures-IsConsistent,
}

-- The invariant says nothing of the items in flight.
pub release-IsConsistent : (id : Text) (s : Spool) → IsConsistent s → IsConsistent (release id s)
release-IsConsistent id s c = record {
  distinct = c.distinct;
  whole = c.whole;
  durable = c.durable;
  backed = c.backed;
}

-- The call does all of its work or none.
abbrev pub IsWhole : Outcome → Type 0
IsWhole torn = ⊥
IsWhole torn_crash = ⊥
IsWhole _ = Unit

pub Ensures-attempt_whole :
    (Q : Unit {0} → Spool → Type 0) (o : Outcome) (whole part : Spool → Spool) (s : Spool)
    → IsWhole o
    → IsConsistent s
    → IsConsistent (whole s)
    → Q tt (whole s)
    → Ensures Q (attempt o whole part s)
unfolding attempt
Ensures-attempt_whole Q done whole part s i h w q = (w, q)
Ensures-attempt_whole Q failed whole part s i h w q = h
Ensures-attempt_whole Q torn whole part s i h w q = absurd i
Ensures-attempt_whole Q crash whole part s i h w q = h
Ensures-attempt_whole Q torn_crash whole part s i h w q = absurd i

logged :
    (d : Disk) (item : SpoolItem) (now : ℕ)
    → d.torn_line ≡ false
    → is_filled item ≡ true
    → in_ledger (append_record (completed item now) d).ledger item.fingerprint ≡ true
unfolding append_record completed is_filled records
logged d item now whole filled =
    rw (whole, in_ledger-append) (ground (arith, text_eq_refl item.fingerprint))

pub still_known :
    (d : Disk) (k f g : Text)
    → in_ledger d.ledger g ≡ true
    → (recovers (remove_directory k d) f || text_eq g f) ≡ true
    → recovers (remove_directory k d) f ≡ true
unfolding recovers remove_directory
still_known d k f g h j = ground (arith, text_eq_iff g f)

module _ (id : Text) (s : Spool) (current : SpoolItem) (here : get s.items id ≡ some current)
    (c : IsConsistent s) where
  replace_item-IsConsistent :
      (changed : SpoolItem)
      → IsBacked s.disk id changed
      → IsConsistent (record s { items = put s.items id changed })
  replace_item-IsConsistent changed b = record {
    distinct = c.distinct;
    whole = c.whole;
    durable = c.durable;
    backed = λ k i h. elim (Bool-cases (text_eq id k)) [
      | inl this ↦
          let h' = rw (get-put, this) at h in
          let e : changed ≡ i = cc in
          subst (λ j. IsBacked s.disk j i) ((text_eq_iff id k).0 this)
            (subst (IsBacked s.disk id) e b)
      | inr other ↦ c.backed k i (rw (get-put, other) at h)
    ];
  }

  retried-IsBacked : (failure : Text) (now : ℕ) → IsBacked s.disk id (retried current failure now)
  unfolding retried is_filled
  retried-IsBacked failure now =
      let b = c.backed id current here in
      record { named = b.named; filled = b.filled; kept = b.kept }

  write_changed :
      (plan : Plan) (changed : SpoolItem) (t : Spool)
      → IsConsistent t
      → IsBacked t.disk id changed
      → IsConsistent (write_json_atomic plan changed.directory changed t).1
  unfolding write_json_atomic
  write_changed plan changed t ct b =
      Ensures-IsConsistent (λ _ _. Unit {0}) _
        (Ensures-bind (λ _ u. IsBacked u.disk id changed) (λ _ _. Unit {0})
          (attempt (plan write_manifest) (λ u. u) (λ u. u) t) _
          (Ensures-attempt (λ _ u. IsBacked u.disk id changed) (plan write_manifest) _ _ t ct ct ct
            b)
          λ a u cu bu.
            Ensures-attempt (λ _ _. Unit {0}) (plan replace_manifest)
              (on_disk (put_manifest changed.directory changed)) (λ v. v) u cu
              (IsGrowth-IsConsistent u _
                (IsGrowth-put_manifest u.disk changed.directory changed bu.filled (
                  subst (λ k. kept_at u.disk.pending k changed.fingerprint ≡ true) (sym bu.named)
                    bu.kept))
                cu)
              cu tt)

  pub append_completed :
      (plan : Plan) (now : ℕ)
      → IsWhole (plan append_ledger)
      → Ensures
          (λ _ t.
            (get t.items id ≡ some current) × (in_ledger t.disk.ledger current.fingerprint ≡ true))
          (attempt
            (plan append_ledger)
            (on_disk (append_record (completed current now)))
            (on_disk append_part)
            s)
  append_completed plan now whole =
      Ensures-attempt_whole
        (λ _ t.
          (get t.items id ≡ some current) × (in_ledger t.disk.ledger current.fingerprint ≡ true))
        (plan append_ledger) _ _ s whole c
        (IsGrowth-IsConsistent s _ (IsGrowth-append_record s.disk (completed current now)) c)
        (here, logged s.disk current now c.whole (c.backed id current here).filled)

retry_gone :
    (plan : Plan) (now : ℕ) (id failure : Text) (s : Spool)
    → get s.items id ≡ none
    → retry plan now id failure s ≡ (returned tt, release id s)
unfolding retry
retry_gone plan now id failure s e = rw (e, retry)

abbrev write_retried : Plan → ℕ → Text → SpoolItem → Exec Spool (Unit {0})
write_retried plan now failure current =
    write_json_atomic plan current.directory (retried current failure now)

retry_here :
    (plan : Plan) (now : ℕ) (id failure : Text) (s : Spool) (current : SpoolItem)
    → get s.items id ≡ some current
    → retry plan now id failure s ≡ (
      (write_retried plan now failure current
          (record s { items = put s.items id (retried current failure now) })).0,
      release id
          (write_retried plan now failure current
            (record s { items = put s.items id (retried current failure now) })).1,
    )
unfolding finally retry
retry_here plan now id failure s current e = rw (e, retry)

pub retry-IsConsistent :
    (plan : Plan) (now : ℕ) (id failure : Text) (s : Spool)
    → IsConsistent s
    → IsConsistent (retry plan now id failure s).1
unfolding retried
retry-IsConsistent plan now id failure s c = elim (Option-cases (get s.items id)) [
  | inl gone ↦
      subst (λ r. IsConsistent r.1) (sym (retry_gone plan now id failure s gone))
        (release-IsConsistent id s c)
  | inr (current, here) ↦
      let b = retried-IsBacked id s current here c failure now in
      let r = retried current failure now in
      let t = record s { items = put s.items id r } in
      subst (λ r. IsConsistent r.1) (sym (retry_here plan now id failure s current here))
        (release-IsConsistent id _ (
          write_changed id s current here c plan r t
            (replace_item-IsConsistent id s current here c r b) b))
]
