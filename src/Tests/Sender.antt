-- ===== src/Tests/Sender.antt =====
-- The theorems about the client and the configuration of uploader/proscan-windows at concrete inputs.
use call_recorder.Prelude.{ℕ, ◌≡◌, suc, refl, inl, false, Option, none, some, [], ◌∷◌}
use call_recorder.Prelude.Int.{pos, is_outside_range}
use call_recorder.Prelude.Text.{
  Text, codes, text_eq, is_empty, trim_space, trim_left, trim_right, is_space, to_lower, equal_fold,
  lower_byte, has_prefix, contains_any, has_byte,
}
use call_recorder.Prelude.Dict.{member}
use call_recorder.Prelude.Result.{Result, ok, err}
use call_recorder.Uploader.Model.{CreateUploadRequest, UploadResponse}
use call_recorder.Uploader.Client.{
  LoggerClient, json, HttpResponse, upload, upload_audio, answer, decode_upload_response,
  decode_body, checked_response,
}
use call_recorder.Uploader.Client.Accepts.{Confirms, upload-Confirms}
use call_recorder.Uploader.Config.{
  with_sender, api_key, WatchConfig, Config, Url, is_blank, one_if, watch_key, check_watches,
  all_own_credentials, has_no_element, is_loopback_host, check_url, credential_sources,
  check_credentials, check_values, validate, credentials_for_watch,
}
use call_recorder.Uploader.Config.Usable.{Gives, credentials-Gives}
use call_recorder.Uploader.App.Paths.{
  normalize_path, root_of, covers, is_better, watch_from, watch_for_path, IsDeepest,
  watch_for_path-IsDeepest,
}
use call_recorder.Uploader.App.Worker.{Clients, choose_client}
use call_recorder.Uploader.App.Start.{
  client_of, add_client, add_global, new_logger_client_for_watch, new_logger_client, watch_clients,
  with_global, start_clients,
}
use call_recorder.Uploader.App.Start.Served.{start_clients-Serves}
use call_recorder.Uploader.Spool.Methods.{new_item}
use call_recorder.Tests.Spools.{request, item}

abbrev pub client : LoggerClient
client = record { base_url = codes "https://h"; sender_id = codes "SCANNER"; api_key = codes "k" }

abbrev accepted : UploadResponse
accepted = record {
  upload_token = codes "t";
  duplicate = false;
  retryable = false;
  call_id = codes "c1";
  status = codes "accepted";
  error = [];
}

-- A server that counts the requests and takes each.
abbrev takes_metadata : LoggerClient → CreateUploadRequest → ℕ → Option HttpResponse × ℕ
takes_metadata c r n = (some (record { status_code = 200; body = json accepted }), suc n)

abbrev takes_audio : LoggerClient → Text → Text → ℕ → Option HttpResponse × ℕ
takes_audio c token bytes n = (some (record { status_code = 201; body = json accepted }), suc n)

abbrev no_text : ℕ → Text
no_text n = []

upload-Confirms_example :
    Confirms no_text takes_metadata takes_audio client request
      (some (1 ∷ 2 ∷ []))
      0
      (codes "c1")
      false
unfolding upload upload_audio answer decode_upload_response decode_body checked_response is_empty
upload-Confirms_example =
    upload-Confirms no_text takes_metadata takes_audio client request (some (1 ∷ 2 ∷ [])) 0
      (codes "c1") false refl

abbrev pub watch : WatchConfig
watch = record {
  path = codes "/rec";
  system_id = codes "LANARK";
  system_name = codes "Lanark";
  receiver_id = [];
  sender_id = [];
  api_key_file = [];
  recursive = none;
  use_tpe2_radio_id = none;
  proscan_system_as_site = none;
  conventional_id_prefix = codes "CONV";
}

abbrev config : Config
config = record {
  version = pos 1;
  logger = record {
    url = codes "https://h";
    sender_id = codes "SCANNER";
    api_key = [];
    api_key_file = [];
    api_key_environment = codes "KEY";
    request_timeout_seconds = pos 60;
  };
  spool_directory = codes "/spool";
  timezone = codes "America/Toronto";
  settle_seconds = pos 3;
  rescan_seconds = pos 10;
  upload_workers = pos 2;
  max_audio_bytes = pos 4096;
  include_existing = none;
  completed_directory = [];
  delete_uploaded_files = none;
  log_file = [];
  watch_directories = watch ∷ [];
}

abbrev key_in_environment : Text → Text
key_in_environment name = codes "secret"

abbrev no_file : Text → Result Text
no_file path = err (codes "no such file")

abbrev one_url : Text → Option Url
one_url u = some (codes "https", codes "h", codes "h")

credentials-Gives_example : Gives (credentials_for_watch key_in_environment no_file config watch)
unfolding validate check_url check_values check_watches check_credentials credential_sources
    all_own_credentials has_no_element is_blank one_if watch_key is_outside_range trim_space
    trim_left trim_right is_space is_empty to_lower lower_byte text_eq equal_fold is_loopback_host
    contains_any has_byte member
credentials-Gives_example =
    credentials-Gives key_in_environment no_file config one_url (λ h. false) [] watch [] refl refl
      (λ h. refl) (λ h. absurd (cc)) (λ h. absurd (cc))

-- Two watches, one of them below the other.
abbrev deeper : WatchConfig
deeper = record watch { path = codes "/rec/fire" }

watch_for_path-IsDeepest_example :
    IsDeepest b'/' (λ p. p) (codes "/rec/fire/a.mp3") (watch ∷ deeper ∷ []) (some deeper)
unfolding watch_for_path watch_from covers is_better root_of normalize_path text_eq has_prefix
    to_lower lower_byte trim_right
watch_for_path-IsDeepest_example =
    watch_for_path-IsDeepest b'/' (λ p. p) (watch ∷ deeper ∷ []) (codes "/rec/fire/a.mp3")

abbrev clients_of : Result Clients → Clients
clients_of (ok c) = c
clients_of (err e) = record { by_sender = []; global = none; by_system = [] }

-- An item that was queued under the sender of the configuration.
abbrev started : Clients
unfolding start_clients
started = clients_of (start_clients key_in_environment no_file config)

start_clients-Serves_example :
    (client : LoggerClient) × (choose_client started item ≡ some (client, item))
    × (client.sender_id ≡ codes "SCANNER")
unfolding start_clients with_global add_global watch_clients add_client new_logger_client
    new_logger_client_for_watch client_of credentials_for_watch is_blank is_empty trim_space
    trim_left trim_right is_space with_sender api_key new_item
start_clients-Serves_example =
    start_clients-Serves key_in_environment no_file config watch (codes "SCANNER") (codes "secret")
      started item refl (inl refl) refl refl
