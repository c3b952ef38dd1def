-- ===== src/Uploader/App/Start/Served.antt =====
-- The clients of a started uploader (uploader/proscan-windows/app.go) serve what its watches queue.
use call_recorder.Prelude.{
  ◌≡◌, refl, ap, none, some, List, [], ◌∷◌, ◌⊎◌, inl, inr, Bool-cases, sym, subst,
}
use call_recorder.Prelude.Text.{Text, text_eq, text_eq_iff, text_eq_refl}
use call_recorder.Prelude.Dict.{Dict, get, put, get-put}
use call_recorder.Prelude.Result.{Result, ok, err, Result-cases}
use call_recorder.Uploader.Config.{Config, WatchConfig, credentials_for_watch}
use call_recorder.Uploader.Client.{LoggerClient, new_logger_client_with_credentials}
use call_recorder.Uploader.Spool.Disk.{SpoolItem}
use call_recorder.Uploader.App.Worker.{Clients, choose_client}
use call_recorder.Uploader.App.Start.{
  client_of, add_client, add_global, new_logger_client_for_watch, new_logger_client, watch_clients,
  with_global, start_clients,
}

-- A sender has a client, and each client stands under its own sender.
abbrev Serves : Text → Clients → Type 0
Serves sender clients =
    (client : LoggerClient) × (get clients.by_sender sender ≡ some client)
    × (client.sender_id ≡ sender)

put-Serves :
    (sender : Text) (m : Dict LoggerClient) (client : LoggerClient)
    → (c : LoggerClient) × (get m sender ≡ some c) × (c.sender_id ≡ sender)
    → (c : LoggerClient) × (get (put m client.sender_id client) sender ≡ some c)
      × (c.sender_id ≡ sender)
put-Serves sender m client (c, e, own) = elim (Bool-cases (text_eq client.sender_id sender)) [
  | inl same ↦ (client, rw (get-put, same) refl, (text_eq_iff client.sender_id sender).0 same)
  | inr other ↦ (c, rw (get-put, other) e, own)
]

put_own :
    (m : Dict LoggerClient) (client : LoggerClient)
    → (c : LoggerClient) × (get (put m client.sender_id client) client.sender_id ≡ some c)
      × (c.sender_id ≡ client.sender_id)
put_own m client = (client, rw (get-put, text_eq_refl) refl, refl)

abbrev pub Among : WatchConfig → List WatchConfig → Type 0
Among w [] = ⊥
Among w (v ∷ vs) = (w ≡ v) ⊎ Among w vs

add_client-Serves :
    (w : WatchConfig) (client : LoggerClient) (sender : Text) (c : Clients)
    → Serves sender c
    → Serves sender (add_client w client c)
unfolding add_client
add_client-Serves w client sender c h = put-Serves sender c.by_sender client h

add_global-Serves :
    (r : Result LoggerClient) (sender : Text) (c : Clients)
    → Serves sender c
    → Serves sender (add_global r c)
unfolding add_global
add_global-Serves (err e) sender c h = h
add_global-Serves (ok client) sender c h = put-Serves sender c.by_sender client h

chosen :
    (clients : Clients) (item : SpoolItem) (sender : Text) (client : LoggerClient)
    → item.request.sender_id ≡ sender
    → get clients.by_sender sender ≡ some client
    → choose_client clients item ≡ some (client, item)
unfolding choose_client
chosen clients item sender client queued found =
    let own = subst (λ x. get clients.by_sender x ≡ some client) (sym queued) found in
    rw (choose_client, own) refl

module _ (getenv : Text → Text) (read_file : Text → Result Text) (c : Config) where
  made-Serves :
      (w : WatchConfig) (client : LoggerClient) (sender key : Text) (before : Clients)
      → credentials_for_watch getenv read_file c w ≡ ok (sender, key)
      → new_logger_client_for_watch getenv read_file c w ≡ ok client
      → Serves sender (add_client w client before)
  unfolding new_logger_client_for_watch client_of new_logger_client_with_credentials add_client
  made-Serves w client sender key before own made =
      let made' : ok (new_logger_client_with_credentials c.logger.url sender key) ≡ ok client =
        rw (new_logger_client_for_watch, own) at made in
      let same : new_logger_client_with_credentials c.logger.url sender key ≡ client = cc in
      let named : client.sender_id ≡ sender = ap (λ x. x.sender_id) (sym same) in
      subst
        (λ x.
          (d : LoggerClient) × (get (put before.by_sender client.sender_id client) x ≡ some d)
          × (d.sender_id ≡ x))
        named (put_own before.by_sender client)

  watch_clients-keeps :
      (ws : List WatchConfig) (sender : Text) (before after : Clients)
      → watch_clients getenv read_file c ws before ≡ ok after
      → Serves sender before
      → Serves sender after
  unfolding watch_clients
  watch_clients-keeps [] sender before after e h =
      let same : before ≡ after = cc in subst (Serves sender) same h
  watch_clients-keeps (w ∷ ws) sender before after e h =
      elim (Result-cases (new_logger_client_for_watch getenv read_file c w)) [
        | inr (failure, bad) ↦ let e' = rw (watch_clients, bad) at e in absurd (cc)
        | inl (client, made) ↦
            watch_clients-keeps ws sender (add_client w client before) after
              (rw (watch_clients, made) at e) (add_client-Serves w client sender before h)
      ]

  watch_clients-Serves :
      (ws : List WatchConfig) (w : WatchConfig) (sender key : Text) (before after : Clients)
      → watch_clients getenv read_file c ws before ≡ ok after
      → Among w ws
      → credentials_for_watch getenv read_file c w ≡ ok (sender, key)
      → Serves sender after
  unfolding watch_clients
  watch_clients-Serves [] w sender key before after e place own = absurd place
  watch_clients-Serves (v ∷ ws) w sender key before after e place own =
      elim (Result-cases (new_logger_client_for_watch getenv read_file c v)) [
        | inr (failure, bad) ↦ let e' = rw (watch_clients, bad) at e in absurd (cc)
        | inl (client, made) ↦
            let rest = rw (watch_clients, made) at e in
            elim place [
              | inr later ↦
                  watch_clients-Serves ws w sender key (add_client v client before) after rest later
                    own
              | inl this ↦ watch_clients-keeps ws sender (add_client v client before) after rest (
                  made-Serves v client sender key before
                    (subst (λ x. credentials_for_watch getenv read_file c x ≡ ok (sender, key)) this
                      own)
                    made)
            ]
      ]

  -- In a started uploader each watch's sender has a client: for an item that is queued under the sender
  -- of a watch, a worker chooses a client with that sender, and sends the item as it is.
  pub start_clients-Serves :
      (w : WatchConfig) (sender key : Text) (clients : Clients) (item : SpoolItem)
      → start_clients getenv read_file c ≡ ok clients
      → Among w c.watch_directories
      → credentials_for_watch getenv read_file c w ≡ ok (sender, key)
      → item.request.sender_id ≡ sender
      → (client : LoggerClient) × (choose_client clients item ≡ some (client, item))
        × (client.sender_id ≡ sender)
  unfolding start_clients with_global choose_client
  start_clients-Serves w sender key clients item e place own queued =
      let none_yet : Clients = record { by_sender = []; global = none; by_system = [] } in
      elim (Result-cases (watch_clients getenv read_file c c.watch_directories none_yet)) [
        | inr (failure, bad) ↦ let e' = rw (with_global, bad) at e in absurd (cc)
        | inl (made, all) ↦
            let served =
              watch_clients-Serves c.watch_directories w sender key none_yet made all place own in
            let whole : ok (add_global (new_logger_client getenv read_file c) made) ≡ ok clients =
              rw (with_global, all) at e in
            let same : add_global (new_logger_client getenv read_file c) made ≡ clients = cc in
            let (client, found, is) =
              subst (Serves sender) same
                (add_global-Serves (new_logger_client getenv read_file c) sender made served) in
            (client, chosen clients item sender client queued found, is)
      ]
