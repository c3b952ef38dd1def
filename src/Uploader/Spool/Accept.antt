-- ===== src/Uploader/Spool/Accept.antt =====
-- `Queue` of uploader/proscan-windows/spool.go as a whole: its three outcomes and the invariant.
use call_recorder.Prelude.{
  ℕ, ◌≡◌, refl, true, false, [], ◌∷◌, ◌++◌, arith, inl, inr, Bool-cases, take,
}
use call_recorder.Prelude.Text.{Text, is_empty, has_prefix}
use call_recorder.Prelude.Dict.{has, member}
use call_recorder.Uploader.Model.{ParsedRecording}
use call_recorder.Uploader.Effects.{Plan}
use call_recorder.Uploader.Spool.State.{Spool}
use call_recorder.Uploader.Spool.Methods.{queue, queue_prefix, new_item, item_id, hex}
use call_recorder.Uploader.Spool.Invariant.{is_filled, IsConsistent}
use call_recorder.Uploader.Spool.Ensures.{Ensures-IsConsistent}
use call_recorder.Uploader.Spool.Queue.{queue_new-Ensures}

-- What is used of SHA-256: a digest is not empty.
module _ (sha256 : Text → Text) (digest : (x : Text) → is_empty (sha256 x) ≡ false) where
  id_parts :
      (x : Text)
      → is_empty x ≡ false
      → (is_empty (hex (take 16 x)) ≡ false) × (has_prefix (hex (take 16 x)) (b'.' ∷ []) ≡ false)
  unfolding hex is_empty has_prefix
  id_parts [] h = cc
  id_parts (b ∷ x) h = (refl, ground arith)

  item_id-IsName :
      (key fingerprint : Text)
      → (is_empty (item_id sha256 key fingerprint) ≡ false)
        × (has_prefix (item_id sha256 key fingerprint) (b'.' ∷ []) ≡ false)
  unfolding item_id
  item_id-IsName key fingerprint =
      id_parts (sha256 (key ++ 0 ∷ fingerprint)) (digest (key ++ 0 ∷ fingerprint))

  new_item-filled :
      (path fingerprint : Text) (recording : ParsedRecording) (now : ℕ)
      → is_empty fingerprint ≡ false
      → is_empty recording.request.sender_id ≡ false
      → is_filled (new_item sha256 path fingerprint recording now) ≡ true
  unfolding is_filled new_item is_empty
  new_item-filled path fingerprint recording now f g =
      ground (arith, item_id-IsName recording.request.idempotency_key fingerprint)

  module _ (plan : Plan) (now : ℕ) (suffix path fingerprint : Text) (recording : ParsedRecording)
      (s : Spool) (some_fingerprint : is_empty fingerprint ≡ false)
      (some_sender : is_empty recording.request.sender_id ≡ false)
      (no_clash : has s.items (item_id sha256 recording.request.idempotency_key fingerprint) ≡ true
        → member s.known fingerprint ≡ true) where
    -- `Queue` keeps the invariant, whatever its calls answer and wherever the process dies, if digests,
    -- the fingerprint and the sender are not empty, and an item with the id of the new one is there
    -- only where the fingerprint is known.
    pub queue-IsConsistent :
        IsConsistent s → IsConsistent (queue sha256 plan now suffix path fingerprint recording s).1
    unfolding queue new_item
    queue-IsConsistent c = elim (Bool-cases (member s.known fingerprint)) [
      | inl old ↦ rw old c
      | inr new ↦
          elim (Bool-cases
            (has s.items (item_id sha256 recording.request.idempotency_key fingerprint))) [
              | inl clash ↦ let known = no_clash clash in absurd (cc)
              | inr free ↦
                  let item = new_item sha256 path fingerprint recording now in
                  rw (new, free)
                    (Ensures-IsConsistent _ _ (
                      queue_new-Ensures (queue_prefix ++ suffix) recording.audio_bytes item
                        (unfold has_prefix in refl)
                        (new_item-filled path fingerprint recording now some_fingerprint
                          some_sender)
                        (item_id-IsName recording.request.idempotency_key fingerprint).1 plan s c))
            ]
    ]
