-- ===== src/Uploader/Spool/Finish.antt =====
-- `Complete`, `Remember` and `ClaimDue` of uploader/proscan-windows/spool.go keep the
-- invariant where each write of the ledger and each removal is done whole or not at all.
use call_recorder.Prelude.{
  ℕ, ◌≡◌, sym, true, false, none, some, subst, inl, inr, Option-cases, Bool-cases,
}
use call_recorder.Prelude.Text.{Text, text_eq}
use call_recorder.Prelude.Dict.{get, remove, get-remove}
use call_recorder.Prelude.Dict.Distinct.{remove-IsDistinct}
use call_recorder.Uploader.Effects.{
  Outcome, done, failed, torn, crash, torn_crash, returned, Exec, ◌>>◌, attempt, modify, Plan,
  append_ledger, sync_ledger, remove_item,
}
use call_recorder.Uploader.Spool.Disk.{SpoolItem, append_record, append_part}
use call_recorder.Uploader.Spool.State.{Spool}
use call_recorder.Uploader.Spool.Methods.{
  on_disk, remove_directory, empty_directory, finally, release, complete, completed,
}
use call_recorder.Uploader.Spool.Recovery.{kept_at, in_ledger}
use call_recorder.Uploader.Spool.Changes.{kept_at-remove, recovers-remove}
use call_recorder.Uploader.Spool.Invariant.{IsConsistent}
use call_recorder.Uploader.Spool.Ensures.{
  Ensures-bind, Ensures-attempt, Ensures-IsConsistent, Ensures-trivial,
}
use call_recorder.Uploader.Spool.Keep.{IsWhole, append_completed, still_known, release-IsConsistent}

-- The directory goes, and with it the item, once the ledger has the fingerprint.
module _ (id : Text) (t : Spool) (current : SpoolItem) (here : get t.items id ≡ some current)
    (c : IsConsistent t) (logged_already : in_ledger t.disk.ledger current.fingerprint ≡ true) where
  drop_item-IsConsistent :
      IsConsistent
        (record t { items = remove t.items id; disk = remove_directory current.directory t.disk })
  unfolding remove_directory
  drop_item-IsConsistent =
      let b = c.backed id current here in
      let own : kept_at t.disk.pending current.directory current.fingerprint ≡ true =
        subst (λ k. kept_at t.disk.pending k current.fingerprint ≡ true) (sym b.named) b.kept in
      record {
        distinct = remove-IsDistinct t.disk.pending current.directory c.distinct;
        whole = c.whole;
        durable = λ f h. still_known t.disk current.directory f current.fingerprint logged_already (
            recovers-remove t.disk current.directory f current.fingerprint c.distinct own
              (c.durable f h));
        backed = λ k i h. elim (Bool-cases (text_eq id k)) [
          | inl this ↦ let h' = rw (get-remove, this) at h in absurd (cc)
          | inr other ↦
              let bi = c.backed k i (rw (get-remove, other) at h) in
              let apart : text_eq current.directory k ≡ false = rw b.named other in
              record {
                named = bi.named;
                filled = bi.filled;
                kept = rw (kept_at-remove, apart) bi.kept;
              }
        ];
      }

  drop_outcome :
      (o : Outcome)
      → IsWhole o
      → IsConsistent
          ((attempt o
                (on_disk (remove_directory current.directory))
                (on_disk (empty_directory current.directory))
              >> modify (λ u. record u { items = remove u.items id }))
            t).1
  unfolding attempt
  drop_outcome done w = drop_item-IsConsistent
  drop_outcome failed w = c
  drop_outcome torn w = absurd w
  drop_outcome crash w = c
  drop_outcome torn_crash w = absurd w

complete_gone :
    (plan : Plan) (now : ℕ) (id : Text) (s : Spool)
    → get s.items id ≡ none
    → complete plan now id s ≡ (returned tt, release id s)
unfolding complete
complete_gone plan now id s e = rw (e, complete)

abbrev finish : Plan → ℕ → Text → SpoolItem → Exec Spool (Unit {0})
finish plan now id current = do
  attempt (plan append_ledger) (on_disk (append_record (completed current now)))
      (on_disk append_part)
  attempt (plan sync_ledger) (λ t. t) (λ t. t)
  attempt (plan remove_item) (on_disk (remove_directory current.directory))
      (on_disk (empty_directory current.directory))
  modify (λ t. record t { items = remove t.items id })

pub complete_here :
    (plan : Plan) (now : ℕ) (id : Text) (s : Spool) (current : SpoolItem)
    → get s.items id ≡ some current
    → complete plan now id s
      ≡ ((finish plan now id current s).0, release id (finish plan now id current s).1)
unfolding complete finally
complete_here plan now id s current e = rw (e, complete)

-- The ledger has the fingerprint, and the item is still in memory.
abbrev Logged : Text → SpoolItem → Spool → Type 0
Logged id current t =
    (get t.items id ≡ some current) × (in_ledger t.disk.ledger current.fingerprint ≡ true)

finish-IsConsistent :
    (plan : Plan) (now : ℕ) (id : Text) (s : Spool) (current : SpoolItem)
    → IsWhole (plan append_ledger)
    → IsWhole (plan remove_item)
    → get s.items id ≡ some current
    → IsConsistent s
    → IsConsistent (finish plan now id current s).1
finish-IsConsistent plan now id s current wa wr here c =
    Ensures-IsConsistent (λ _ _. Unit {0}) _
      (Ensures-bind (λ _. Logged id current) (λ _ _. Unit {0})
        (attempt (plan append_ledger) (on_disk (append_record (completed current now)))
          (on_disk append_part) s)
        _ (append_completed id s current here c plan now wa)
        λ a t ct lt.
          Ensures-bind (λ _. Logged id current) (λ _ _. Unit {0})
            (attempt (plan sync_ledger) (λ u. u) (λ u. u) t) _
            (Ensures-attempt (λ _. Logged id current) (plan sync_ledger) _ _ t ct ct ct lt)
            λ b u cu lu.
              Ensures-trivial _ (drop_outcome id u current lu.0 cu lu.1 (plan remove_item) wr))

-- The invariant survives `Complete`, whether it succeeds, fails or dies at any of its calls, if a
-- write of the ledger and a removal of a directory are each done whole or not at all.
pub complete-IsConsistent :
    (plan : Plan) (now : ℕ) (id : Text) (s : Spool)
    → IsWhole (plan append_ledger)
    → IsWhole (plan remove_item)
    → IsConsistent s
    → IsConsistent (complete plan now id s).1
complete-IsConsistent plan now id s wa wr c = elim (Option-cases (get s.items id)) [
  | inl gone ↦
      subst (λ r. IsConsistent r.1) (sym (complete_gone plan now id s gone))
        (release-IsConsistent id s c)
  | inr (current, here) ↦
      subst (λ r. IsConsistent r.1) (sym (complete_here plan now id s current here))
        (release-IsConsistent id _ (finish-IsConsistent plan now id s current wa wr here c))
]
