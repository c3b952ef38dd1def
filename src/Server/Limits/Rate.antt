-- ===== src/Server/Limits/Rate.antt =====
-- `ingestionAllowed` of backend/cmd/server/main.go: at most 600 uploads in a window of a minute.
use call_recorder.Prelude.{
  ℕ, suc, ◌+◌, ◌-◌, ◌<◌, false, Option, none, some, List, [], ◌∷◌, length, if◌then◌else◌, ltb, ◌≡◌,
  inl, inr, arith, Bool-cases,
}
use call_recorder.Prelude.Text.{Text, text_eq, text_eq_refl}
use call_recorder.Prelude.Dict.{Dict, get, put, get-put}
use call_recorder.Server.Limits.{
  IngestionWindow, minute, is_over, current_window, sweep_windows, rate_key, ingestion_allowed,
}

-- The sweep deletes windows that are over, and no other.
get-sweep :
    (now : ℕ) (m : Dict IngestionWindow) (k : Text) (w : IngestionWindow)
    → get m k ≡ some w
    → is_over now w ≡ false
    → get (sweep_windows now m) k ≡ some w
unfolding get sweep_windows
get-sweep now [] k w h live = absurd (cc)
get-sweep now ((j, v) ∷ m) k w h live = elim (Bool-cases (text_eq j k)) [
  | inl same ↦ ground arith
  | inr other ↦ elim (Bool-cases (is_over now v)) [
    | inl over ↦ rw over (get-sweep now m k w (rw other at h) live)
    | inr kept ↦ rw (kept, other) (get-sweep now m k w (rw other at h) live)
  ]
]

-- The window of a request is live at its own time.
current-live :
    (now : ℕ) (o : Option IngestionWindow) (n : ℕ)
    → is_over now (record (current_window now o) { count = n }) ≡ false
unfolding current_window
current-live now none n = ground arith
current-live now (some w) n = ground arith

-- After a request its window stands in the table, with one more request counted, whether or not
-- the table was swept.
pub get-ingestion_allowed :
    (now : ℕ) (remote sender : Text) (m : Dict IngestionWindow)
    → get (ingestion_allowed now remote sender m).1 (rate_key remote sender)
      ≡ some (record (current_window now (get m (rate_key remote sender))) {
        count = (current_window now (get m (rate_key remote sender))).count + 1;
      })
unfolding ingestion_allowed
get-ingestion_allowed now remote sender m =
    let k = rate_key remote sender in
    let w = current_window now (get m k) in
    let v : IngestionWindow = record w { count = w.count + 1 } in
    let stored : get (put m k v) k ≡ some v = rw (get-put, text_eq_refl) in
    elim (Bool-cases (ltb 10000 (length (put m k v)))) [
      | inl swept ↦
          rw swept (get-sweep now (put m k v) k v stored (current-live now (get m k) (w.count + 1)))
      | inr kept ↦ rw kept stored
    ]

-- Requests of one sender at these times: how many were allowed, and the table behind them.
unfoldable pub run_requests : Text → Text → List ℕ → Dict IngestionWindow → ℕ × Dict IngestionWindow
run_requests remote sender [] m = (0, m)
run_requests remote sender (now ∷ times) m =
    let r = ingestion_allowed now remote sender m in
    let later = run_requests remote sender times r.1 in
    ((if r.0 then suc later.0 else later.0), later.1)

abbrev pub Within : ℕ → List ℕ → Type 0
Within start [] = Unit
Within start (now ∷ times) = (now < start + minute) × Within start times

abbrev left : ℕ → ℕ
left c = 600 - c
