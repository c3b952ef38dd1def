-- ===== src/Uploader/Spool/Restart.antt =====
-- A restart of the uploader: `openDurableSpool` after any methods of uploader/proscan-windows/spool.go.
use call_recorder.Prelude.{ℕ, ◌≡◌, refl, true, some, [], arith, List, inl, inr, Option-cases}
use call_recorder.Prelude.Text.{Text}
use call_recorder.Prelude.Dict.{member}
use call_recorder.Uploader.Effects.{
  Outcome, Exit, returned, refused, crashed, Exec, ◌>>=◌, ◌>>◌, pure, gets, attempt, Plan,
  ledger_unreadable, incomplete_manifest, make_directories, open_ledger, append_open, read_pending,
}
use call_recorder.Uploader.Spool.Disk.{Disk}
use call_recorder.Uploader.Spool.State.{Spool}
use call_recorder.Uploader.Spool.Open.{
  open_spool, scan_ledger, load_entries, lift, compact_if_large, compact_ledger, Loaded,
}
use call_recorder.Uploader.Spool.Recovery.{recovers, scan_ledger-member, load_entries-member}
use call_recorder.Uploader.Spool.Invariant.{IsConsistent}

-- A spool that was opened holds what the ledger and pending/ told.
abbrev pub Read : Disk → Spool → Type 0
Read d t =
    (known : List Text) × (l : Loaded) × (scan_ledger [] d.ledger ≡ some known)
    × (load_entries d.pending ([], known) ≡ some l)
    × (t.known ≡ l.1)
    × (t.items ≡ l.0)
    × (t.in_flight ≡ [])

bind_inversion :
    {A B S : Type 0} (r : Exit A × S) (f : A → Exec S B) (b : B) (t : S)
    → ((λ (u : S). r) >>= f) r.1 ≡ (returned b, t)
    → (a : A) × (r.0 ≡ returned a) × (f a r.1 ≡ (returned b, t))
bind_inversion (returned a, u) f b t h = (a, refl, h)
bind_inversion (refused e, u) f b t h = cc
bind_inversion (crashed, u) f b t h = cc

-- A call that writes nothing leaves the disk as it is.
attempt_nothing : (o : Outcome) (d : Disk) → (attempt o (λ (x : Disk). x) (λ x. x) d).1 ≡ d
unfolding attempt
attempt_nothing o d = ground arith

pending-compact :
    (plan : Plan) (size : ℕ) (known : List Text) (d : Disk)
    → (compact_if_large plan size known d).1.pending ≡ d.pending
unfolding compact_if_large compact_ledger attempt
pending-compact plan size known d = ground arith

-- The loop over pending/ and the record that it fills.
load_step : List Text → Exec Disk Spool
load_step known = do
  pending ← gets (λ d. d.pending)
  loaded ← lift incomplete_manifest (load_entries pending ([], known))
  disk ← gets (λ d. d)
  pure (record { items = loaded.0; known = loaded.1; in_flight = []; disk = disk })

load_step-Read :
    (known : List Text) (d u d' : Disk) (t : Spool)
    → scan_ledger [] d.ledger ≡ some known
    → u.pending ≡ d.pending
    → load_step known u ≡ (returned t, d')
    → Read d t
unfolding load_step lift
load_step-Read known d u d' t e p h = elim (Option-cases (load_entries u.pending ([], known))) [
  | inl nothing ↦ absurd (ground arith)
  | inr (l, loaded) ↦ (known, l, e, rw (← p) loaded, ground arith, ground arith, ground arith)
]

-- From the ledger on.
after_scan : Plan → ℕ → List Text → Exec Disk Spool
after_scan plan size known = do
  compact_if_large plan size known
  attempt (plan append_open) (λ d. d) (λ d. d)
  attempt (plan read_pending) (λ d. d) (λ d. d)
  load_step known

after_scan-Read :
    (plan : Plan) (size : ℕ) (known : List Text) (d d' : Disk) (t : Spool)
    → scan_ledger [] d.ledger ≡ some known
    → after_scan plan size known d ≡ (returned t, d')
    → Read d t
unfolding after_scan
after_scan-Read plan size known d d' t e h =
    let c = compact_if_large plan size known d in
    let (a1, e1, h1) = bind_inversion c _ t d' h in
    let (a2, e2, h2) =
      bind_inversion (attempt (plan append_open) (λ x. x) (λ x. x) c.1) _ t d' h1 in
    let h2' = rw (attempt_nothing (plan append_open) c.1) at h2 in
    let (a3, e3, h3) =
      bind_inversion (attempt (plan read_pending) (λ x. x) (λ x. x) c.1) _ t d' h2' in
    let h3' = rw (attempt_nothing (plan read_pending) c.1) at h3 in
    load_step-Read known d c.1 d' t e (pending-compact plan size known d) h3'

scanned : Plan → ℕ → Exec Disk Spool
scanned plan size d =
    (lift ledger_unreadable (scan_ledger [] d.ledger) >>= λ known. after_scan plan size known) d

scanned-Read :
    (plan : Plan) (size : ℕ) (d d' : Disk) (t : Spool)
    → scanned plan size d ≡ (returned t, d')
    → Read d t
unfolding scanned lift
scanned-Read plan size d d' t h = elim (Option-cases (scan_ledger [] d.ledger)) [
  | inl nothing ↦ let h' = rw nothing at h in absurd (cc)
  | inr (known, e) ↦ after_scan-Read plan size known d d' t e (rw e at h)
]

pub open_spool-Read :
    (plan : Plan) (size : ℕ) (d d' : Disk) (t : Spool)
    → open_spool plan size d ≡ (returned t, d')
    → Read d t
unfolding open_spool scanned after_scan load_step
open_spool-Read plan size d d' t h =
    let (a1, e1, h1) =
      bind_inversion (attempt (plan make_directories) (λ x. x) (λ x. x) d) _ t d' h in
    let h1' = rw (attempt_nothing (plan make_directories) d) at h1 in
    let (a2, e2, h2) = bind_inversion (attempt (plan open_ledger) (λ x. x) (λ x. x) d) _ t d' h1' in
    let h2' = rw (attempt_nothing (plan open_ledger) d) at h2 in scanned-Read plan size d d' t h2'

-- A fingerprint is known after a start that succeeds exactly where the disk remembers it, in a
-- line of the ledger or in the manifest of a directory that is read.
pub member-open_spool :
    (plan : Plan) (size : ℕ) (d d' : Disk) (t : Spool) (f : Text)
    → open_spool plan size d ≡ (returned t, d')
    → member t.known f ≡ recovers d f
unfolding recovers member
member-open_spool plan size d d' t f h =
    let (known, l, scanned_all, loaded, known_is, items_is, free) =
      open_spool-Read plan size d d' t h in
    ground (
      arith,
      scan_ledger-member [] d.ledger known f scanned_all,
      load_entries-member d.pending ([], known) l f loaded,
    )

-- Whatever a consistent spool knows, a spool that is opened on its disk knows, where the opening
-- succeeds.
pub restart_remembers :
    (plan : Plan) (size : ℕ) (s t : Spool) (d' : Disk) (f : Text)
    → IsConsistent s
    → open_spool plan size s.disk ≡ (returned t, d')
    → member s.known f ≡ true
    → member t.known f ≡ true
restart_remembers plan size s t d' f c h k =
    rw (member-open_spool plan size s.disk d' t f h) (c.durable f k)
