-- ===== src/Uploader/App/Worker/Gives.antt =====
-- `Retry` and `Complete`, as a worker of uploader/proscan-windows/app.go calls them: what they leave of
-- the items and of the claims, whatever their calls answer and wherever the process dies.
use call_recorder.Prelude.{
  ℕ, ◌≡◌, refl, subst, false, none, if◌then◌else◌, inl, inr, arith, Option-cases,
}
use call_recorder.Prelude.Text.{Text, text_eq}
use call_recorder.Prelude.Dict.{
  get, put, remove, get-put, get-remove, member, discard, member-discard,
}
use call_recorder.Uploader.Effects.{
  Exec, ◌>>◌, attempt, modify, Plan, write_manifest, replace_manifest, append_ledger, sync_ledger,
  remove_item,
}
use call_recorder.Uploader.Spool.Steps.{attempt-keeps, bind-keeps}
use call_recorder.Uploader.Spool.Disk.{SpoolItem, append_record, append_part}
use call_recorder.Uploader.Spool.State.{Spool}
use call_recorder.Uploader.Spool.Methods.{
  on_disk, write_json_atomic, retry, retried, complete, completed, release, finally,
  remove_directory, empty_directory,
}

-- The claims are those of `s`, and the items but for `id`.
abbrev Same : Text → Spool → Spool → Type 0
Same id s t =
    (t.in_flight ≡ s.in_flight)
    × ((k : Text) → text_eq id k ≡ false → get t.items k ≡ get s.items k)

-- The claim of `id` is given back and no other one, and no other item is changed.
abbrev pub Releases : Text → Spool → Spool → Type 0
Releases id s t =
    ((j : Text) → member t.in_flight j ≡ (if text_eq id j then false else member s.in_flight j))
    × ((k : Text) → text_eq id k ≡ false → get t.items k ≡ get s.items k)

release-Releases : (id : Text) (s t : Spool) → Same id s t → Releases id s (release id t)
release-Releases id s t h = (
  λ j.
      subst (λ f. member (discard t.in_flight id) j ≡ (if text_eq id j then false else member f j))
        h.0 (member-discard t.in_flight id j),
  h.1,
)

steps : Plan → ℕ → Text → SpoolItem → Exec Spool (Unit {0})
unfolding attempt
steps plan now id current = do
  attempt (plan append_ledger) (on_disk (append_record (completed current now)))
      (on_disk append_part)
  attempt (plan sync_ledger) (λ t. t) (λ t. t)
  attempt (plan remove_item) (on_disk (remove_directory current.directory))
      (on_disk (empty_directory current.directory))
  modify (λ t. record t { items = remove t.items id })

remove-Same :
    (id : Text) (s t : Spool) → Same id s t → Same id s (record t { items = remove t.items id })
remove-Same id s t h = (h.0, λ k e. rw (get-remove, e) (h.1 k e))

steps-Same :
    (plan : Plan) (now : ℕ) (id : Text) (current : SpoolItem) (s : Spool)
    → Same id s (steps plan now id current s).1
unfolding steps
steps-Same plan now id current s =
    let same : Same id s s = (refl, λ k e. refl) in
    bind-keeps (Same id s)
      (attempt (plan append_ledger) (on_disk (append_record (completed current now)))
        (on_disk append_part) s)
      _ (attempt-keeps (Same id s) (plan append_ledger) _ _ s same same same)
      λ a t h.
        bind-keeps (Same id s) (attempt (plan sync_ledger) (λ u. u) (λ u. u) t) _
          (attempt-keeps (Same id s) (plan sync_ledger) _ _ t h h h)
          λ b u k.
            bind-keeps (Same id s)
              (attempt (plan remove_item) (on_disk (remove_directory current.directory))
                (on_disk (empty_directory current.directory)) u)
              _ (attempt-keeps (Same id s) (plan remove_item) _ _ u k k k)
              λ c v l. remove-Same id s v l

pub complete-Releases :
    (plan : Plan) (now : ℕ) (id : Text) (s : Spool) → Releases id s (complete plan now id s).1
unfolding complete finally steps
complete-Releases plan now id s = elim (Option-cases (get s.items id)) [
  | inl gone ↦ rw (gone, complete) (release-Releases id s s (refl, λ k e. refl))
  | inr (current, here) ↦
      rw (here, complete)
        (release-Releases id s (steps plan now id current s).1 (steps-Same plan now id current s))
]

write-Same :
    (plan : Plan) (id name : Text) (item : SpoolItem) (s t : Spool)
    → Same id s t
    → Same id s (write_json_atomic plan name item t).1
unfolding write_json_atomic
write-Same plan id name item s t h =
    bind-keeps (Same id s) (attempt (plan write_manifest) (λ u. u) (λ u. u) t) _
      (attempt-keeps (Same id s) (plan write_manifest) _ _ t h h h)
      λ a u k. attempt-keeps (Same id s) (plan replace_manifest) _ _ u k k k

write_items :
    (plan : Plan) (name : Text) (item : SpoolItem) (t : Spool)
    → (write_json_atomic plan name item t).1.items ≡ t.items
unfolding write_json_atomic
write_items plan name item t =
    bind-keeps (λ u. u.items ≡ t.items) (attempt (plan write_manifest) (λ u. u) (λ u. u) t) _
      (attempt-keeps (λ u. u.items ≡ t.items) (plan write_manifest) _ _ t refl refl refl)
      λ a u k. attempt-keeps (λ v. v.items ≡ t.items) (plan replace_manifest) _ _ u k k k

put-Same :
    (id : Text) (v : SpoolItem) (s : Spool) → Same id s (record s { items = put s.items id v })
put-Same id v s = (refl, λ k e. rw (get-put, e) refl)

pub retry-Releases :
    (plan : Plan) (now : ℕ) (id failure : Text) (s : Spool)
    → Releases id s (retry plan now id failure s).1
unfolding retry finally
retry-Releases plan now id failure s = elim (Option-cases (get s.items id)) [
  | inl gone ↦ rw (gone, retry) (release-Releases id s s (refl, λ k e. refl))
  | inr (current, here) ↦
      let changed = retried current failure now in
      let before = record s { items = put s.items id changed } in
      rw (here, retry)
        (release-Releases id s (write_json_atomic plan current.directory changed before).1
          (write-Same plan id current.directory changed s before (put-Same id changed s)))
]

-- `Retry` drops no item.
pub retry_holds :
    (plan : Plan) (now : ℕ) (id failure k : Text) (s : Spool)
    → get (retry plan now id failure s).1.items k ≡ none
    → get s.items k ≡ none
unfolding retry finally
retry_holds plan now id failure k s h = elim (Option-cases (get s.items id)) [
  | inl gone ↦ rw (gone, retry) at h
  | inr (current, here) ↦
      let changed = retried current failure now in
      let h' =
        rw
          (
            here,
            retry,
            write_items plan current.directory changed
                (record s { items = put s.items id changed }),
            get-put,
          )
          at h in
      ground arith
]
