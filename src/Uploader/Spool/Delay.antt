-- ===== src/Uploader/Spool/Delay.antt =====
-- `retryDelay`, `sanitizeError` of uploader/proscan-windows/spool.go.
pub mod Bounds
use mathlib.Core.List.{reverse}
use call_recorder.Prelude.{
  ℕ, zero, suc, ◌+◌, ◌*◌, ◌^◌, ◌≤◌, ◌<◌, min, Bool, true, false, List, [], ◌∷◌, ◌++◌, take, length,
  if◌then◌else◌, ltb, ◌≡◌, arith, length-take,
}
use call_recorder.Prelude.Text.{Text, is_space, is_empty}

abbrev pub second : ℕ
second = 1000000000

abbrev pub minute : ℕ
minute = 60 * second

-- An attempt count is never negative.
unfoldable pub retry_delay : ℕ → ℕ
retry_delay attempt =
    if ltb attempt 1
    then second
    else let delay = second * 2 ^ min attempt 8 in
      if ltb (5 * minute) delay then 5 * minute else delay

-- strings.Fields: the word read so far stands in `word`, in reverse.
flush : Text → List Text → List Text
flush [] rest = rest
flush word rest = reverse word ∷ rest

fields_from : Text → Text → List Text
fields_from word [] = flush word []
fields_from word (c ∷ s) =
    let ended = flush word (fields_from [] s) in
    let more = fields_from (c ∷ word) s in if is_space c then ended else more

unfoldable pub fields : Text → List Text
unfolding flush fields_from is_space
fields = fields_from []

-- strings.Join
unfoldable pub join : List Text → Text → Text
join [] sep = []
join (x ∷ []) sep = x
join (x ∷ xs) sep = x ++ sep ++ join xs sep

-- The error's text; Go's nil error is the empty text.
unfoldable pub sanitize_error : Text → Text
unfolding fields join
sanitize_error message =
    let value = join (fields message) (b' ' ∷ []) in
    if ltb 500 (length value) then take 500 value else value
