-- ===== src/Uploader/Spool/Knows.antt =====
-- `Remember` and `Queue` of uploader/proscan-windows/spool.go: the fingerprints that are known after them.
use call_recorder.Prelude.{
  ℕ, ◌≡◌, refl, sym, subst, true, [], ◌++◌, inl, inr, arith, Bool-cases, Option-cases,
}
use call_recorder.Prelude.Text.{Text, text_eq_refl}
use call_recorder.Prelude.Dict.{get, has, member, add, member-add}
use call_recorder.Uploader.Model.{ParsedRecording}
use call_recorder.Uploader.Effects.{
  Outcome, done, failed, torn, crash, torn_crash, Exit, returned, refused, crashed, Exec, ◌>>◌,
  modify, attempt, Plan, io_error, append_ledger, sync_ledger, make_temporary, write_audio,
  write_manifest, replace_manifest, rename_temporary, remove_temporary,
}
use call_recorder.Uploader.Spool.Disk.{SpoolItem, Disk}
use call_recorder.Uploader.Spool.State.{Spool}
use call_recorder.Uploader.Spool.Methods.{
  on_disk, remember, put_audio, make_directory, remove_directory, write_json_atomic, rename_item,
  fill, on_error, queue_new, queue, queue_prefix, new_item,
}
use call_recorder.Uploader.Spool.Steps.{attempt-keeps, bind-keeps, on_error-keeps}

-- Where the method returns, the fingerprint is known; what was known stays so.
abbrev pub Remembers : {A : Type 0} → Text → Spool → Exit A × Spool → Type 0
Remembers f s (returned u, t) =
    ((g : Text) → member s.known g ≡ true → member t.known g ≡ true) × (member t.known f ≡ true)
Remembers f s (_, t) = (g : Text) → member s.known g ≡ true → member t.known g ≡ true

add_known : (s : Spool) (f g : Text) → member s.known g ≡ true → member (add s.known f) g ≡ true
add_known s f g h = rw (member-add) (ground arith)

remembered :
    (o o2 : Outcome) (whole part : Disk → Disk) (f : Text) (s : Spool)
    → Remembers f s (
        (attempt o (on_disk whole) (on_disk part)
            >> (attempt o2 (λ t. t) (λ t. t) >> modify (λ t. record t { known = add t.known f })))
          s)
unfolding attempt
remembered done done whole part f s =
    (add_known s f, rw (member-add) (ground (arith, text_eq_refl f)))
remembered done failed whole part f s = λ g h. h
remembered done torn whole part f s = λ g h. h
remembered done crash whole part f s = λ g h. h
remembered done torn_crash whole part f s = λ g h. h
remembered failed o2 whole part f s = λ g h. h
remembered torn o2 whole part f s = λ g h. h
remembered crash o2 whole part f s = λ g h. h
remembered torn_crash o2 whole part f s = λ g h. h

pub remember-Remembers :
    (plan : Plan) (now : ℕ) (f path : Text) (s : Spool) → Remembers f s (remember plan now f path s)
unfolding remember
remember-Remembers plan now f path s = elim (Bool-cases (member s.known f)) [
  | inl old ↦ rw (old, remember) (λ g h. h, old)
  | inr new ↦ rw (new, remember) (remembered (plan append_ledger) (plan sync_ledger) _ _ f s)
]

-- A first part of a method that changes nothing of what is known.
then-Remembers :
    {A B : Type 0} (f : Text) (s : Spool) (r : Exit A × Spool) (n : Exec Spool B)
    → r.1.known ≡ s.known
    → ((t : Spool) → t.known ≡ s.known → Remembers f s (n t))
    → Remembers f s (((λ (u : Spool). r) >> n) s)
then-Remembers f s (returned a, t) n h k = k t h
then-Remembers f s (refused e, t) n h k = λ g m. subst (λ x. member x g ≡ true) (sym h) m
then-Remembers f s (crashed, t) n h k = λ g m. subst (λ x. member x g ≡ true) (sym h) m

module _ (known : Spool) where
  -- Nothing more is known, and nothing is forgotten.
  abbrev Same : Spool → Type 0
  Same t = t.known ≡ known.known

  write-Same :
      (plan : Plan) (name : Text) (item : SpoolItem) (t : Spool)
      → Same t
      → Same (write_json_atomic plan name item t).1
  unfolding write_json_atomic
  write-Same plan name item t h =
      bind-keeps Same (attempt (plan write_manifest) (λ u. u) (λ u. u) t) _
        (attempt-keeps Same (plan write_manifest) _ _ t h h h)
        λ a u k. attempt-keeps Same (plan replace_manifest) _ _ u k k k

  rename-Same :
      (plan : Plan) (old new : Text) (t : Spool) → Same t → Same (rename_item plan old new t).1
  unfolding rename_item
  rename-Same plan old new t h = elim (Option-cases (get t.disk.pending new)) [
    | inl free ↦ rw (free, rename_item) (attempt-keeps Same (plan rename_temporary) _ _ t h h h)
    | inr (e, taken) ↦ rw (taken, rename_item) h
  ]

  fill-Same :
      (plan : Plan) (temporary bytes : Text) (item : SpoolItem) (t : Spool)
      → Same t
      → Same (fill plan temporary bytes item t).1
  unfolding fill
  fill-Same plan temporary bytes item t h =
      bind-keeps Same
        (attempt (plan write_audio) (on_disk (put_audio temporary item.audio_file bytes))
          (on_disk (put_audio temporary item.audio_file [])) t)
        _ (attempt-keeps Same (plan write_audio) _ _ t h h h)
        λ a u k.
          bind-keeps Same (write_json_atomic plan temporary item u) _
            (write-Same plan temporary item u k) λ b v l. rename-Same plan temporary item.id v l

-- The deferred removal of the temporary directory.
clear : Plan → Text → Exec Spool (Unit {0})
clear plan temporary =
    attempt (plan remove_temporary) (on_disk (remove_directory temporary)) (λ t. t) >> λ t.
    (refused io_error, t)

clear-Same :
    (s : Spool) (plan : Plan) (temporary : Text) (t : Spool)
    → Same s t
    → Same s (clear plan temporary t).1
unfolding clear
clear-Same s plan temporary t h =
    bind-keeps (Same s)
      (attempt (plan remove_temporary) (on_disk (remove_directory temporary)) (λ u. u) t) _
      (attempt-keeps (Same s) (plan remove_temporary) _ _ t h h h) λ a u k. k

queue_new-Remembers :
    (plan : Plan) (temporary bytes : Text) (item : SpoolItem) (s : Spool)
    → Remembers item.fingerprint s (queue_new plan temporary bytes item s)
unfolding queue_new clear on_error
queue_new-Remembers plan temporary bytes item s =
    then-Remembers item.fingerprint s
      (attempt (plan make_temporary) (on_disk (make_directory temporary)) (λ t. t) s) _
      (attempt-keeps (Same s) (plan make_temporary) _ _ s refl refl refl)
      λ t h.
        then-Remembers item.fingerprint s
          (on_error (fill plan temporary bytes item) (clear plan temporary) t) _
          (on_error-keeps (Same s) (fill plan temporary bytes item t) (clear plan temporary) t
            (fill-Same s plan temporary bytes item t h) λ u k. clear-Same s plan temporary u k)
          λ u k. (
            λ g m. rw k (add_known s item.fingerprint g m),
            rw member-add (ground (arith, text_eq_refl item.fingerprint)),
          )

-- Where `Queue` returns, the fingerprint is known; what was known stays so in any case.
pub queue-Remembers :
    (sha256 : Text → Text) (plan : Plan) (now : ℕ) (suffix path fingerprint : Text)
    (recording : ParsedRecording) (s : Spool)
    → Remembers fingerprint s (queue sha256 plan now suffix path fingerprint recording s)
unfolding queue new_item
queue-Remembers sha256 plan now suffix path f recording s = elim (Bool-cases (member s.known f)) [
  | inl old ↦ rw (old, queue) (λ g h. h, old)
  | inr new ↦
      let item = new_item sha256 path f recording now in
      elim (Bool-cases (has s.items item.id)) [
        | inl clash ↦
            rw (new, queue, clash) (add_known s f, rw (member-add) (ground (arith, text_eq_refl f)))
        | inr free ↦
            rw (new, queue, free)
              (queue_new-Remembers plan (queue_prefix ++ suffix) recording.audio_bytes item s)
      ]
]
