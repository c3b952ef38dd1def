-- ===== src/Uploader/App/Worker/Rounds.antt =====
-- What a round of `uploadWorker` of uploader/proscan-windows/app.go does to the spool.
use call_recorder.Prelude.{
  ℕ, ◌≡◌, refl, sym, ap, Bool, true, none, some, ◌++◌, inl, inr, ◌⊎◌, arith, Bool-cases,
  Option-cases,
}
use call_recorder.Prelude.Text.{Text, text_eq, text_eq_iff, codes}
use call_recorder.Prelude.Dict.{get, member, add, member-add}
use call_recorder.Prelude.Result.{Result, ok, Result-cases}
use call_recorder.Uploader.Effects.{Plan}
use call_recorder.Uploader.Client.{LoggerClient}
use call_recorder.Uploader.Spool.Disk.{SpoolItem}
use call_recorder.Uploader.Spool.State.{Spool}
use call_recorder.Uploader.Spool.Methods.{claim_due, first_due, due_items}
use call_recorder.Uploader.Spool.Claims.{claim_due-none, claim_due-some}
use call_recorder.Uploader.App.Worker.{
  Clients, choose_client, Round, settle_item, send_item, handle_item, after_claim, work,
}
use call_recorder.Uploader.App.Worker.Gives.{
  Releases, complete-Releases, retry-Releases, retry_holds,
}

module _ {W : Type 0} (send : LoggerClient → SpoolItem → W → Result (Text × Bool) × W)
    (settle : SpoolItem → W → Result Text × W) (clients : Clients) (plan : Plan) (now : ℕ) where
  -- The server has confirmed the item, and its source is settled.
  abbrev pub Confirmed : SpoolItem → W → Type 0
  Confirmed item w =
      (client : LoggerClient) × (sent : SpoolItem) × (confirmed : Text × Bool) × (t : Text)
      × (choose_client clients item ≡ some (client, sent))
      × ((send client sent w).0 ≡ ok confirmed)
      × ((settle sent (send client sent w).1).0 ≡ ok t)

  -- What follows a claim gives that claim back, and drops at most the claimed item, and that only
  -- if it is confirmed.
  abbrev Handled : SpoolItem → Spool → W → Round × Spool × W → Type 0
  Handled item s w r =
      Releases item.id s r.1
      × ((k : Text)
          → get r.1.items k ≡ none
          → (get s.items k ≡ none) ⊎ ((k ≡ item.id) × Confirmed item w))

  handle-Handled :
      (item : SpoolItem) (s : Spool) (w : W)
      → Handled item s w (handle_item send settle clients plan now item s w)
  unfolding handle_item send_item settle_item
  handle-Handled item s w = elim (Option-cases (choose_client clients item)) [
    | inl nobody ↦
        let failure = codes "no credentials configured for sender " ++ item.request.sender_id in
        rw (nobody, handle_item)
          (
            retry-Releases plan now item.id failure s,
            λ k h. inl (retry_holds plan now item.id failure k s h),
          )
    | inr ((client, sent), chosen) ↦ elim (Result-cases (send client sent w).0) [
      | inr (e, refused) ↦
          rw (chosen, handle_item, refused, send_item)
            (retry-Releases plan now item.id e s, λ k h. inl (retry_holds plan now item.id e k s h))
      | inl (confirmed, answered) ↦ elim (Result-cases (settle sent (send client sent w).1).0) [
        | inr (e, stuck) ↦
            rw (chosen, handle_item, answered, send_item, stuck, settle_item)
              (
                retry-Releases plan now item.id e s,
                λ k h. inl (retry_holds plan now item.id e k s h),
              )
        | inl (t, settled) ↦
            rw (chosen, handle_item, answered, send_item, settled, settle_item)
              (
                complete-Releases plan now item.id s,
                λ k h. elim (Bool-cases (text_eq item.id k)) [
                  | inl same ↦ inr (
                    sym ((text_eq_iff item.id k).0 same),
                    (client, sent, confirmed, t, refl, answered, settled),
                  )
                  | inr other ↦
                      let kept = (complete-Releases plan now item.id s).1 k other in inl (cc)
                ],
              )
      ]
    ]
  ]

  -- A round of a worker without an item due changes nothing but the result; with one it is what
  -- follows the claim.
  work-cases :
      (s : Spool) (w : W)
      → (work send settle clients plan now s w ≡ (Round.idle, s, w))
        ⊎ ((item : SpoolItem) × (claim_due now s
              ≡ (some item, record s { in_flight = add s.in_flight item.id }))
            × (work send settle clients plan now s w
                ≡ handle_item send settle clients plan now item
                    (record s { in_flight = add s.in_flight item.id })
                    w))
  unfolding work after_claim
  work-cases s w = elim (Option-cases (first_due (due_items s now s.items))) [
    | inl free ↦
        inl (ap (λ c. after_claim send settle clients plan now c w) (claim_due-none now s free))
    | inr (item, due) ↦ inr (
      item,
      claim_due-some now s item due,
      ap (λ c. after_claim send settle clients plan now c w) (claim_due-some now s item due),
    )
  ]

  -- What leaves the spool in a round is what stands under the id of the item that the round claimed, and
  -- it leaves only if a client was found for that item, the server confirmed its upload and its source
  -- was settled.
  pub drops-Confirmed :
      (s : Spool) (w : W) (k : Text) (v : SpoolItem)
      → get s.items k ≡ some v
      → get (work send settle clients plan now s w).1.items k ≡ none
      → (item : SpoolItem) × ((claim_due now s).0 ≡ some item) × (k ≡ item.id) × Confirmed item w
  drops-Confirmed s w k v here gone = elim (work-cases s w) [
    | inl idle ↦ let g = rw idle at gone in absurd (cc)
    | inr (item, claimed, rest) ↦
        elim ((handle-Handled item (record s { in_flight = add s.in_flight item.id }) w).1 k
          (rw rest at gone)) [
            | inl before ↦ absurd (cc)
            | inr (own, confirmed) ↦ (item, rw claimed refl, own, confirmed)
          ]
  ]

  -- No worker holds an item behind a round that was not held before it: a round gives its own
  -- claim back, whatever the server and the operating system answer.
  pub work_holds :
      (s : Spool) (w : W) (j : Text)
      → member (work send settle clients plan now s w).1.in_flight j ≡ true
      → member s.in_flight j ≡ true
  work_holds s w j h = elim (work-cases s w) [
    | inl idle ↦ rw idle at h
    | inr (item, claimed, rest) ↦
        let given =
          (handle-Handled item (record s { in_flight = add s.in_flight item.id }) w).0.0 j in
        let h' = rw (rest, given, member-add) at h in ground arith
  ]
