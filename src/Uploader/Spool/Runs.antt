-- ===== src/Uploader/Spool/Runs.antt =====
-- Sequences of the methods of `durableSpool` (uploader/proscan-windows/spool.go), in any order, by any
-- number of workers: the mutex makes them one sequence of steps.
use call_recorder.Prelude.{ℕ, ◌≡◌, true, false}
use call_recorder.Prelude.Text.{Text, is_empty}
use call_recorder.Prelude.Dict.{has, member}
use call_recorder.Uploader.Model.{ParsedRecording}
use call_recorder.Uploader.Effects.{returned, Plan, append_ledger, remove_item}
use call_recorder.Uploader.Spool.Disk.{Disk}
use call_recorder.Uploader.Spool.State.{Spool}
use call_recorder.Uploader.Spool.Methods.{queue, item_id, claim_due, retry, complete, remember}
use call_recorder.Uploader.Spool.Open.{open_spool}
use call_recorder.Uploader.Spool.Invariant.{IsConsistent}
use call_recorder.Uploader.Spool.Keep.{IsWhole, retry-IsConsistent}
use call_recorder.Uploader.Spool.Finish.{complete-IsConsistent}
use call_recorder.Uploader.Spool.Accept.{queue-IsConsistent}
use call_recorder.Uploader.Spool.Learn.{remember-IsConsistent, claim_due-IsConsistent}
use call_recorder.Uploader.Spool.Restart.{restart_remembers}

-- What methods lead to from `s`, each with a plan of its own. Appends to the ledger and removals are
-- whole or not made, fingerprints and senders are not empty, and no id is that of another recording.
pub data Reaches (sha256 : Text → Text) (s : Spool) : Spool → Type 0 where
  start : Reaches sha256 s s
  queues :
      {t : Spool} (plan : Plan) (now : ℕ) (suffix path fingerprint : Text)
      (recording : ParsedRecording)
      → Reaches sha256 s t
      → is_empty fingerprint ≡ false
      → is_empty recording.request.sender_id ≡ false
      → (has t.items (item_id sha256 recording.request.idempotency_key fingerprint) ≡ true
          → member t.known fingerprint ≡ true)
      → Reaches sha256 s (queue sha256 plan now suffix path fingerprint recording t).1
  claims : {t : Spool} (now : ℕ) → Reaches sha256 s t → Reaches sha256 s (claim_due now t).1
  retries :
      {t : Spool} (plan : Plan) (now : ℕ) (id failure : Text)
      → Reaches sha256 s t
      → Reaches sha256 s (retry plan now id failure t).1
  completes :
      {t : Spool} (plan : Plan) (now : ℕ) (id : Text)
      → Reaches sha256 s t
      → IsWhole (plan append_ledger)
      → IsWhole (plan remove_item)
      → Reaches sha256 s (complete plan now id t).1
  remembers :
      {t : Spool} (plan : Plan) (now : ℕ) (fingerprint path : Text)
      → Reaches sha256 s t
      → IsWhole (plan append_ledger)
      → is_empty fingerprint ≡ false
      → Reaches sha256 s (remember plan now fingerprint path t).1

module _ (sha256 : Text → Text) (digest : (x : Text) → is_empty (sha256 x) ≡ false) where
  Reaches-IsConsistent : (s t : Spool) → IsConsistent s → Reaches sha256 s t → IsConsistent t
  Reaches-IsConsistent s _ c start = c
  Reaches-IsConsistent s _ c (queues plan now suffix path f recording r filled sender clash) =
      queue-IsConsistent sha256 digest plan now suffix path f recording _ filled sender clash
        (Reaches-IsConsistent s _ c r)
  Reaches-IsConsistent s _ c (claims now r) =
      claim_due-IsConsistent now _ (Reaches-IsConsistent s _ c r)
  Reaches-IsConsistent s _ c (retries plan now id failure r) =
      retry-IsConsistent plan now id failure _ (Reaches-IsConsistent s _ c r)
  Reaches-IsConsistent s _ c (completes plan now id r logs removes) =
      complete-IsConsistent plan now id _ logs removes (Reaches-IsConsistent s _ c r)
  Reaches-IsConsistent s _ c (remembers plan now f path r logs filled) =
      remember-IsConsistent plan now f path _ logs filled (Reaches-IsConsistent s _ c r)

  -- From a consistent spool, after any sequence of methods in which the appends to the ledger and the
  -- removals of directories are whole or not made, every other call may fail or be the death of the
  -- process, no fingerprint or sender is empty, and no id is that of another recording: a start on the disk
  -- that is left, where it succeeds, knows each fingerprint that the spool knew.
  pub run_remembers :
      (plan : Plan) (size : ℕ) (s t u : Spool) (d : Disk) (f : Text)
      → IsConsistent s
      → Reaches sha256 s t
      → open_spool plan size t.disk ≡ (returned u, d)
      → member t.known f ≡ true
      → member u.known f ≡ true
  run_remembers plan size s t u d f c r opened known =
      restart_remembers plan size t u d f (Reaches-IsConsistent s t c r) opened known
