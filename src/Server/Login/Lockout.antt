-- ===== src/Server/Login/Lockout.antt =====
-- What the table of failures does to a sign-in (backend/cmd/server/main.go).
use call_recorder.Prelude.{
  ℕ, ◌+◌, ◌*◌, ◌≤◌, Bool, true, false, not, ◌&&◌, Option, some, List, [], ◌∷◌, length,
  if◌then◌else◌, ltb, leb, ◌≡◌, inl, inr, refl, arith, Bool-cases,
}
use call_recorder.Prelude.Text.{
  Text, text_eq, text_eq_refl, trim_space, codes, has_prefix, has_byte, contains_any,
}
use call_recorder.Prelude.Dict.{Dict, get, get-put}
use call_recorder.Server.Limits.{
  LoginFailure, minute, login_key, login_blocked, sweep_failures, failure_count,
  record_login_failure,
}
use call_recorder.Server.Login.{
  User, Reply, invalid, too_many, LoginRequest, safe_return, check_password,
}

conditions : (a b c : Bool) → (a && not b && not c) ≡ true → (a ≡ true) × (b ≡ false) × (c ≡ false)
conditions a b c h = ground arith

get-sweep_failures :
    (now : ℕ) (m : Dict LoginFailure) (k : Text) (v : LoginFailure)
    → get m k ≡ some v
    → now ≤ v.until
    → get (sweep_failures now m) k ≡ some v
unfolding get sweep_failures
get-sweep_failures now [] k v h live = absurd (cc)
get-sweep_failures now ((j, u) ∷ m) k v h live = elim (Bool-cases (text_eq j k)) [
  | inl same ↦ ground arith
  | inr other ↦ elim (Bool-cases (ltb u.until now)) [
    | inl over ↦ rw over (get-sweep_failures now m k v (rw other at h) live)
    | inr kept ↦ rw (kept, other) (get-sweep_failures now m k v (rw other at h) live)
  ]
]

-- A failure is counted on top of those whose time is not over, swept or not.
pub get-record_login_failure :
    (now : ℕ) (remote username : Text) (m : Dict LoginFailure) (v : LoginFailure)
    → get m (login_key remote username) ≡ some v
    → now ≤ v.until
    → get (record_login_failure now remote username m) (login_key remote username)
      ≡ some (record { count = v.count + 1; until = now + 15 * minute })
unfolding record_login_failure failure_count
get-record_login_failure now remote username m v h live = elim (Bool-cases (leb 10000 (length m))) [
  | inl full ↦
      rw (full, get-put, text_eq_refl)
        (rw (get-sweep_failures now m (login_key remote username) v h live))
  | inr room ↦ rw (room, get-put, text_eq_refl) (rw h)
]

-- Whatever the form says, the page to go to after a sign-in begins with one slash, not two, and holds
-- no line break.
pub safe_return_is_path :
    (url : Text)
    → (has_prefix (safe_return url (codes "/")) (codes "/") ≡ true)
      × (has_prefix (safe_return url (codes "/")) (codes "//") ≡ false)
      × (contains_any (safe_return url (codes "/")) (13 ∷ 10 ∷ []) ≡ false)
unfolding safe_return has_prefix contains_any has_byte
safe_return_is_path url =
    elim (Bool-cases (
      has_prefix url (codes "/")
      && not (has_prefix url (codes "//"))
      && not (contains_any url (13 ∷ 10 ∷ [])))) [
        | inl fine ↦ rw fine (conditions _ _ _ fine)
        | inr bad ↦ rw bad (refl, refl, refl)
      ]

login_blocked_full :
    (now : ℕ) (remote username : Text) (fails : Dict LoginFailure) (v : LoginFailure)
    → get fails (login_key remote username) ≡ some v
    → 5 ≤ v.count
    → now ≤ v.until
    → login_blocked now remote username fails ≡ (true, fails)
unfolding login_blocked
login_blocked_full now remote username fails v h five live =
    rw (h, login_blocked)
      (elim (Bool-cases (ltb v.until now)) [
        | inl over ↦ absurd (ground arith)
        | inr kept ↦ rw kept (ground arith)
      ])

-- Five failures whose time is not over lock the name: the handler refuses without a look at the
-- password and leaves the table alone.
pub locked_out :
    (verify : Text → Text → Bool) (dummy : Text) (users : Text → Option User) (now : ℕ)
    (session : Bool) (r : LoginRequest) (fails : Dict LoginFailure) (v : LoginFailure)
    → get fails (login_key r.remote (trim_space r.username)) ≡ some v
    → 5 ≤ v.count
    → now ≤ v.until
    → check_password verify dummy users now session r fails ≡ (too_many, fails)
unfolding check_password
locked_out verify dummy users now session r fails v h five live =
    rw (login_blocked_full now r.remote (trim_space r.username) fails v h five live) refl

-- A failure is counted whatever the table holds.
record_login_failure-counts :
    (now : ℕ) (remote username : Text) (m : Dict LoginFailure)
    → (v : LoginFailure) × (get
          (record_login_failure now remote username m)
          (login_key remote username)
        ≡ some v)
      × (1 ≤ v.count)
      × (v.until ≡ now + 15 * minute)
unfolding record_login_failure
record_login_failure-counts now remote username m =
    let swept = if leb 10000 (length m) then sweep_failures now m else m in
    (
      record {
        count = failure_count (get swept (login_key remote username)) + 1;
        until = now + 15 * minute;
      },
      rw (get-put, text_eq_refl) refl,
      omega arith,
      refl,
    )

-- The table is not changed for a lock whose time is not over.
login_blocked_live :
    (now : ℕ) (remote username : Text) (fails : Dict LoginFailure) (v : LoginFailure)
    → get fails (login_key remote username) ≡ some v
    → now ≤ v.until
    → (login_blocked now remote username fails).1 ≡ fails
unfolding login_blocked
login_blocked_live now remote username fails v h live =
    rw (h, login_blocked)
      (elim (Bool-cases (ltb v.until now)) [
        | inl over ↦ absurd (ground arith)
        | inr kept ↦ rw kept refl
      ])

-- A sign-in: when it is made, whether a session can be made for it, and its request.
pub record Attempt : Type 0 where
  pub time : ℕ
  pub session : Bool
  pub request : LoginRequest

module _ (verify : Text → Text → Bool) (dummy : Text) (users : Text → Option User) where
  abbrev pub sign_in : Attempt → Dict LoginFailure → Reply × Dict LoginFailure
  sign_in a fails = check_password verify dummy users a.time a.session a.request fails

  -- The table behind sign-ins, one after another.
  unfoldable pub after_attempts : List Attempt → Dict LoginFailure → Dict LoginFailure
  after_attempts [] fails = fails
  after_attempts (a ∷ rest) fails = after_attempts rest (sign_in a fails).1

  -- Each sign-in is of this name from this address, and is answered as invalid.
  unfoldable pub AllInvalid : Text → Text → List Attempt → Dict LoginFailure → Type 0
  AllInvalid remote name [] fails = Unit
  AllInvalid remote name (a ∷ rest) fails =
      (a.request.remote ≡ remote)
      × (trim_space a.request.username ≡ name)
      × ((sign_in a fails).0 ≡ invalid)
      × AllInvalid remote name rest (sign_in a fails).1

  -- What an invalid sign-in leaves.
  invalid_records :
      (a : Attempt) (fails : Dict LoginFailure)
      → (sign_in a fails).0 ≡ invalid
      → (sign_in a fails).1
        ≡ record_login_failure a.time a.request.remote
            (trim_space a.request.username)
            (login_blocked a.time a.request.remote (trim_space a.request.username) fails).1
  unfolding check_password
  invalid_records a fails h = ground (arith, h)

  -- Each sign-in comes before the time of the failure before it is over, and `now` before the last's.
  unfoldable pub IsClose : ℕ → List Attempt → ℕ → Type 0
  IsClose until [] now = now ≤ until
  IsClose until (a ∷ rest) now = (a.time ≤ until) × IsClose (a.time + 15 * minute) rest now

  -- The count of the name and address goes up by one with each invalid sign-in.
  get-after_attempts :
      (now : ℕ) (remote name : Text) (attempts : List Attempt) (fails : Dict LoginFailure)
      (v : LoginFailure)
      → get fails (login_key remote name) ≡ some v
      → AllInvalid remote name attempts fails
      → IsClose v.until attempts now
      → (w : LoginFailure) × (get (after_attempts attempts fails) (login_key remote name) ≡ some w)
        × (w.count ≡ v.count + length attempts)
        × (now ≤ w.until)
  unfolding after_attempts AllInvalid IsClose
  get-after_attempts now remote name [] fails v h invalids close = (v, h, omega arith, close)
  get-after_attempts now remote name (a ∷ rest) fails v h (from, of, refused, later) close =
      let table : (sign_in a fails).1 ≡ record_login_failure a.time remote name fails =
        rw
          (
            invalid_records a fails refused,
            from,
            of,
            login_blocked_live a.time remote name fails v h close.0,
          )
          refl in
      let counted : get (sign_in a fails).1 (login_key remote name)
          ≡ some (record { count = v.count + 1; until = a.time + 15 * minute }) =
        rw table (get-record_login_failure a.time remote name fails v h close.0) in
      let (w, found, count, live) =
        get-after_attempts now remote name rest (sign_in a fails).1 _ counted later close.1 in
      (w, found, omega arith, live)

  -- In any table: after five sign-ins or more of a name from one address that are answered as invalid,
  -- each no later than fifteen minutes behind the one before it, a sign-in of that name from that address
  -- is refused for the next fifteen minutes, whatever the password, and the table stays as it is.
  pub five_failures_lock :
      (first : Attempt) (rest : List Attempt) (next : Attempt) (fails : Dict LoginFailure)
      → 4 ≤ length rest
      → AllInvalid next.request.remote (trim_space next.request.username) (first ∷ rest) fails
      → IsClose (first.time + 15 * minute) rest next.time
      → sign_in next (after_attempts (first ∷ rest) fails)
        ≡ (too_many, after_attempts (first ∷ rest) fails)
  unfolding after_attempts AllInvalid
  five_failures_lock first rest next fails four (from, of, refused, later) close =
      let remote = next.request.remote in
      let name = trim_space next.request.username in
      let before = (login_blocked first.time remote name fails).1 in
      let table : (sign_in first fails).1 ≡ record_login_failure first.time remote name before =
        rw (invalid_records first fails refused, from, of) refl in
      let (v, found, one, until) = record_login_failure-counts first.time remote name before in
      let (w, kept, count, live) =
        get-after_attempts next.time remote name rest (sign_in first fails).1 v (rw table found)
          later (rw until close) in
      locked_out verify dummy users next.time next.session next.request _ w kept (omega arith) live
