-- ===== src/Server/Limits.antt =====
-- The two tables that the server of backend/cmd/server/main.go keeps in memory: how many uploads a
-- sender has made in its window, and how often a sign-in has failed. `now` is the clock in
-- nanoseconds since Go's zero time; a Go map is an association list with no key twice.
pub mod Rate
use call_recorder.Prelude.{
  ℕ, suc, ◌+◌, ◌*◌, ◌==◌, Bool, true, false, ◌||◌, Option, none, some, [], ◌∷◌, ◌++◌, length,
  if◌then◌else◌, ltb, leb,
}
use call_recorder.Prelude.Text.{Text, to_upper, to_lower, trim_space}
use call_recorder.Prelude.Dict.{Dict, get, put, remove}

abbrev pub second : ℕ
second = 1000000000

abbrev pub minute : ℕ
minute = 60 * second

pub record IngestionWindow : Type 0 where
  pub count : ℕ
  pub start : ℕ

-- `now.Sub(start) >= time.Minute`.
abbrev pub is_over : ℕ → IngestionWindow → Bool
is_over now w = leb (w.start + minute) now

-- The window that counts: a missing one is Go's zero value.
unfoldable pub current_window : ℕ → Option IngestionWindow → IngestionWindow
current_window now none = record { count = 0; start = now }
current_window now (some w) =
    if w.start == 0 || is_over now w then record { count = 0; start = now } else w

-- The sweep deletes each window that is over.
unfoldable pub sweep_windows : ℕ → Dict IngestionWindow → Dict IngestionWindow
sweep_windows now [] = []
sweep_windows now ((k, w) ∷ m) =
    let rest = sweep_windows now m in if is_over now w then rest else (k, w) ∷ rest

-- remote|SENDER
unfoldable pub rate_key : Text → Text → Text
rate_key remote sender = remote ++ b'|' ∷ to_upper (trim_space sender)

-- `ingestionAllowed`; `remote` is the host of the request's address.
unfoldable pub ingestion_allowed :
    ℕ → Text → Text → Dict IngestionWindow → Bool × Dict IngestionWindow
ingestion_allowed now remote sender rates =
    let key = rate_key remote sender in
    let window = current_window now (get rates key) in
    let counted = record window { count = window.count + 1 } in
    let rates' = put rates key counted in
    (leb counted.count 600, if ltb 10000 (length rates') then sweep_windows now rates' else rates')

pub record LoginFailure : Type 0 where
  pub count : ℕ
  pub until : ℕ

-- remote:name
unfoldable pub login_key : Text → Text → Text
login_key remote username = remote ++ b':' ∷ to_lower username

-- `loginBlocked`
unfoldable pub login_blocked : ℕ → Text → Text → Dict LoginFailure → Bool × Dict LoginFailure
login_blocked now remote username fails = elim (get fails (login_key remote username)) [
  | none ↦ (false, fails)
  | some item ↦
      if ltb item.until now
      then (false, remove fails (login_key remote username))
      else (leb 5 item.count, fails)
]

unfoldable pub sweep_failures : ℕ → Dict LoginFailure → Dict LoginFailure
sweep_failures now [] = []
sweep_failures now ((k, item) ∷ m) =
    let rest = sweep_failures now m in if ltb item.until now then rest else (k, item) ∷ rest

unfoldable pub failure_count : Option LoginFailure → ℕ
failure_count none = 0
failure_count (some item) = item.count

-- `recordLoginFailure`
unfoldable pub record_login_failure : ℕ → Text → Text → Dict LoginFailure → Dict LoginFailure
record_login_failure now remote username fails =
    let swept = if leb 10000 (length fails) then sweep_failures now fails else fails in
    let key = login_key remote username in
    put swept key (record { count = failure_count (get swept key) + 1; until = now + 15 * minute })

-- `clearLoginFailures`
unfoldable pub clear_login_failures : Text → Text → Dict LoginFailure → Dict LoginFailure
clear_login_failures remote username fails = remove fails (login_key remote username)
