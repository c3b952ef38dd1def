-- ===== src/Uploader/App/Worker.antt =====
-- `uploadWorker` of uploader/proscan-windows/app.go: one round of its inner loop, from a claim to its end.
pub mod Gives
pub mod Rounds
use call_recorder.Prelude.{ℕ, Bool, true, false, Option, none, some, [], ◌∷◌, ◌++◌}
use call_recorder.Prelude.Text.{Text, codes}
use call_recorder.Prelude.Dict.{Dict, get}
use call_recorder.Prelude.Result.{Result, ok, err}
use call_recorder.Uploader.Effects.{Plan}
use call_recorder.Uploader.Client.{LoggerClient}
use call_recorder.Uploader.Spool.Disk.{SpoolItem}
use call_recorder.Uploader.Spool.State.{Spool}
use call_recorder.Uploader.Spool.Methods.{claim_due, retry, complete}

-- The clients of `uploaderApplication`: by sender, for all, and by system.
pub record Clients : Type 0 where
  pub by_sender : Dict LoggerClient
  pub global : Option LoggerClient
  pub by_system : Dict LoggerClient

-- The copy of the item that was claimed, under another sender.
unfoldable pub under_sender : SpoolItem → LoggerClient → SpoolItem
under_sender item client = record item {
  request = record (item.request) { sender_id = client.sender_id };
}

unfoldable pub client_by_system : Clients → SpoolItem → Option (LoggerClient × SpoolItem)
unfolding under_sender
client_by_system c item = elim (get c.by_system item.request.call.system_id) [
  | none ↦ none
  | some client ↦ some (client, under_sender item client)
]

-- The client for an item, with the item as it is sent.
unfoldable pub choose_client : Clients → SpoolItem → Option (LoggerClient × SpoolItem)
unfolding client_by_system
choose_client c item = elim (get c.by_sender item.request.sender_id) [
  | some client ↦ some (client, item)
  | none ↦ elim c.global [ some client ↦ some (client, item) | none ↦ client_by_system c item ]
]

-- What a round did.
pub data Round : Type 0 where
  idle retried finished : Round

-- `W` is the state of the server and of the files; `send` is `Upload`, and `settle` what the
-- configuration says is to be done with the source: `copyUploadedSource`, `deleteUploadedSource` or
-- nothing.
module _ {W : Type 0} (send : LoggerClient → SpoolItem → W → Result (Text × Bool) × W)
    (settle : SpoolItem → W → Result Text × W) (clients : Clients) where
  -- Behind the upload. What `Retry` and `Complete` return is only logged.
  unfoldable pub settle_item : Plan → ℕ → SpoolItem → SpoolItem → Spool → W → Round × Spool × W
  settle_item plan now item sent s w =
      let settled = settle sent w in
      elim settled.0 [
        | err e ↦ (retried, (retry plan now item.id e s).1, settled.1)
        | ok destination ↦ (finished, (complete plan now item.id s).1, settled.1)
      ]

  unfoldable pub send_item :
      Plan → ℕ → SpoolItem → LoggerClient → SpoolItem → Spool → W → Round × Spool × W
  send_item plan now item client sent s w =
      let answer = send client sent w in
      elim answer.0 [
        | err e ↦ (retried, (retry plan now item.id e s).1, answer.1)
        | ok confirmed ↦ settle_item plan now item sent s answer.1
      ]

  unfoldable pub handle_item : Plan → ℕ → SpoolItem → Spool → W → Round × Spool × W
  handle_item plan now item s w = elim (choose_client clients item) [
    | none ↦
        let failure = codes "no credentials configured for sender " ++ item.request.sender_id in
        (retried, (retry plan now item.id failure s).1, w)
    | some (client, sent) ↦ send_item plan now item client sent s w
  ]

  unfoldable pub after_claim : Plan → ℕ → Option SpoolItem × Spool → W → Round × Spool × W
  after_claim plan now (none, s) w = (idle, s, w)
  after_claim plan now (some item, s) w = handle_item plan now item s w

  -- The claim, and what follows it.
  unfoldable pub work : Plan → ℕ → Spool → W → Round × Spool × W
  unfolding after_claim
  work plan now s w = after_claim plan now (claim_due now s) w
