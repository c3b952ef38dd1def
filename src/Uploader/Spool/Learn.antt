-- ===== src/Uploader/Spool/Learn.antt =====
-- `Remember` and `ClaimDue` of uploader/proscan-windows/spool.go keep the invariant.
use call_recorder.Prelude.{ℕ, ◌≡◌, true, false, arith, inl, inr, Bool-cases, Option-cases}
use call_recorder.Prelude.Text.{Text, text_eq_iff, text_eq_refl, is_empty}
use call_recorder.Prelude.Dict.{member, add, member-add}
use call_recorder.Uploader.Effects.{attempt, Plan, append_ledger, sync_ledger}
use call_recorder.Uploader.Spool.Disk.{CompletedRecord, Disk, append_record, append_part}
use call_recorder.Uploader.Spool.State.{Spool}
use call_recorder.Uploader.Spool.Methods.{on_disk, remember, claim_due, first_due, due_items}
use call_recorder.Uploader.Spool.Recovery.{recovers, in_ledger, in_ledger-append, records}
use call_recorder.Uploader.Spool.Invariant.{IsConsistent}
use call_recorder.Uploader.Spool.Growth.{IsGrowth-IsConsistent, IsGrowth-append_record}
use call_recorder.Uploader.Spool.Ensures.{Ensures-bind, Ensures-attempt, Ensures-IsConsistent}
use call_recorder.Uploader.Spool.Keep.{IsWhole, Ensures-attempt_whole}

learned :
    (d : Disk) (r : CompletedRecord)
    → d.torn_line ≡ false
    → is_empty r.fingerprint ≡ false
    → in_ledger (append_record r d).ledger r.fingerprint ≡ true
unfolding append_record records
learned d r whole filled = rw (whole, in_ledger-append) (ground (arith, text_eq_refl r.fingerprint))

-- What the ledger has may be known.
known-IsConsistent :
    (s : Spool) (f : Text)
    → in_ledger s.disk.ledger f ≡ true
    → IsConsistent s
    → IsConsistent (record s { known = add s.known f })
unfolding recovers
known-IsConsistent s f h c = record {
  distinct = c.distinct;
  whole = c.whole;
  durable =
      λ g k. let old = c.durable g in ground (arith, old, text_eq_iff f g, member-add s.known f g);
  backed = c.backed;
}

-- The invariant survives `Remember` of a fingerprint that is not empty, whether it succeeds, fails or
-- dies at any of its calls, if a write of the ledger is done whole or not at all.
pub remember-IsConsistent :
    (plan : Plan) (now : ℕ) (fingerprint path : Text) (s : Spool)
    → IsWhole (plan append_ledger)
    → is_empty fingerprint ≡ false
    → IsConsistent s
    → IsConsistent (remember plan now fingerprint path s).1
unfolding remember
remember-IsConsistent plan now fingerprint path s whole filled c =
    let r : CompletedRecord = record {
      fingerprint = fingerprint;
      source_path = path;
      completed_at = now;
    } in
    elim (Bool-cases (member s.known fingerprint)) [
      | inl old ↦ rw old c
      | inr new ↦ rw new (
          Ensures-IsConsistent (λ _ _. Unit {0}) _
            (Ensures-bind (λ _ t. in_ledger t.disk.ledger fingerprint ≡ true) (λ _ _. Unit {0})
              (attempt (plan append_ledger) (on_disk (append_record r)) (on_disk append_part) s) _
              (Ensures-attempt_whole (λ _ t. in_ledger t.disk.ledger fingerprint ≡ true)
                (plan append_ledger) _ _ s whole c
                (IsGrowth-IsConsistent s _ (IsGrowth-append_record s.disk r) c)
                (learned s.disk r c.whole filled))
              λ a t ct lt.
                Ensures-bind (λ _ u. in_ledger u.disk.ledger fingerprint ≡ true) (λ _ _. Unit {0})
                  (attempt (plan sync_ledger) (λ u. u) (λ u. u) t) _
                  (Ensures-attempt (λ _ u. in_ledger u.disk.ledger fingerprint ≡ true)
                    (plan sync_ledger) _ _ t ct ct ct lt)
                  λ b u cu lu. (known-IsConsistent u fingerprint lu cu, tt)))
    ]

pub claim_due-IsConsistent :
    (now : ℕ) (s : Spool) → IsConsistent s → IsConsistent (claim_due now s).1
unfolding claim_due
claim_due-IsConsistent now s c = elim (Option-cases (first_due (due_items s now s.items))) [
  | inl nothing ↦ rw (nothing, claim_due) c
  | inr (item, first) ↦
      rw (first, claim_due)
        (record { distinct = c.distinct; whole = c.whole; durable = c.durable; backed = c.backed })
]
