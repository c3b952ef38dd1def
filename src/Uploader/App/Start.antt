-- ===== src/Uploader/App/Start.antt =====
-- The clients that `newUploaderApplication` of uploader/proscan-windows/app.go makes of a configuration,
-- with `newLoggerClient` and `newLoggerClientForWatch` of client.go. The time zone, the spool and the
-- notifier that it opens as well are not part of this.
pub mod Served
use call_recorder.Prelude.{none, List, [], ◌∷◌}
use call_recorder.Prelude.Text.{Text}
use call_recorder.Prelude.Dict.{Dict, put}
use call_recorder.Prelude.Result.{Result, ok, err}
use call_recorder.Prelude.{some}
use call_recorder.Uploader.Config.{Config, WatchConfig, credentials_for_watch}
use call_recorder.Uploader.Client.{LoggerClient, new_logger_client_with_credentials}
use call_recorder.Uploader.App.Worker.{Clients}

-- watchConfig{}
abbrev pub no_watch_config : WatchConfig
no_watch_config = record {
  path = [];
  system_id = [];
  system_name = [];
  receiver_id = [];
  sender_id = [];
  api_key_file = [];
  recursive = none;
  use_tpe2_radio_id = none;
  proscan_system_as_site = none;
  conventional_id_prefix = [];
}

-- The client of the credentials.
unfoldable pub client_of : Text → Result (Text × Text) → Result LoggerClient
unfolding new_logger_client_with_credentials
client_of url (ok (sender, key)) = ok (new_logger_client_with_credentials url sender key)
client_of url (err e) = err e

-- The client of a watch, under its sender and its system.
unfoldable pub add_client : WatchConfig → LoggerClient → Clients → Clients
add_client w client c = record c {
  by_sender = put c.by_sender client.sender_id client;
  by_system = put c.by_system w.system_id client;
}

-- The client for all, where there are credentials for it.
unfoldable pub add_global : Result LoggerClient → Clients → Clients
add_global (err e) c = c
add_global (ok client) c = record c {
  global = some client;
  by_sender = put c.by_sender client.sender_id client;
}

module _ (getenv : Text → Text) (read_file : Text → Result Text) (c : Config) where
  -- `newLoggerClientForWatch`
  unfoldable pub new_logger_client_for_watch : WatchConfig → Result LoggerClient
  unfolding client_of
  new_logger_client_for_watch w =
      client_of c.logger.url (credentials_for_watch getenv read_file c w)

  -- `newLoggerClient`
  unfoldable pub new_logger_client : Result LoggerClient
  unfolding new_logger_client_for_watch
  new_logger_client = new_logger_client_for_watch no_watch_config

  -- The loop over the watches, which ends with the first error.
  unfoldable pub watch_clients : List WatchConfig → Clients → Result Clients
  unfolding add_client
  watch_clients [] clients = ok clients
  watch_clients (w ∷ ws) clients = elim (new_logger_client_for_watch w) [
    | err e ↦ err e
    | ok client ↦ watch_clients ws (add_client w client clients)
  ]

  unfoldable pub with_global : Result Clients → Result Clients
  unfolding add_global new_logger_client
  with_global (err e) = err e
  with_global (ok clients) = ok (add_global new_logger_client clients)

  -- What `newUploaderApplication` makes of the configuration.
  unfoldable pub start_clients : Result Clients
  unfolding watch_clients with_global
  start_clients =
      with_global (
        watch_clients c.watch_directories
          (record { by_sender = []; global = none; by_system = [] }))
