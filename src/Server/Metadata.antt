-- ===== src/Server/Metadata.antt =====
-- The metadata of an upload in backend/cmd/server/main.go: its types, `validateMetadata`,
-- `uniquePatches`, `contentTypeMatches` and `canonicalizeIncomingCall`. Times are nanoseconds since
-- Go's zero time.
pub mod Patches
pub mod Canonical
use call_recorder.Prelude.{
  ℕ, ◌+◌, ◌*◌, ◌==◌, Bool, true, false, not, ◌&&◌, ◌||◌, Option, none, some, List, [], ◌∷◌, length,
  if◌then◌else◌, ltb,
}
use call_recorder.Prelude.Int.{ℤ, pos, less_than, is_zero}
use call_recorder.Prelude.Text.{
  Text, text_eq, is_empty, codes, trim_space, to_upper, to_lower, equal_fold, contains_any,
}
use call_recorder.Server.Limits.{second}

pub record PatchMetadata : Type 0 where
  pub talkgroup_id : Text
  pub talkgroup_name : Text

-- `callMetadata`
pub record CallMetadata : Type 0 where
  pub imported : Bool
  pub source_call_id : Text
  pub start_time : ℤ
  pub duration_ms : ℤ
  pub receiver_id : Text
  pub system_id : Text
  pub system_name : Text
  pub site_id : Text
  pub site_name : Text
  pub talkgroup_id : Text
  pub talkgroup_name : Text
  pub talkgroup_tag : Text
  pub radio_id : Text
  pub radio_name : Text
  pub radio_tag : Text
  pub frequency : Text
  pub lcn : Text
  pub voice_service : Text
  pub call_type : Text
  pub group_call : Option Bool
  pub audio_offset_ms : Option ℤ
  pub transcript : Text
  pub notes : Text
  pub patches : List PatchMetadata

-- `createUploadRequest`
pub record UploadRequest : Type 0 where
  pub sender_id : Text
  pub idempotency_key : Text
  pub audio_format : Text
  pub call : CallMetadata

-- The errors of `validateMetadata`, in the order of its tests.
pub data MetadataError : Type 0 where
  bad_sender bad_format bad_time missing_identifier too_long too_many_patches : MetadataError
  control_character bad_offset in_future : MetadataError

-- Some text is longer than its bound.
unfoldable pub any_over : List (Text × ℕ) → Bool
any_over [] = false
any_over ((t, n) ∷ rest) = ltb n (length t) || any_over rest

-- Some text holds NUL, CR or LF.
unfoldable pub any_control : List Text → Bool
any_control [] = false
any_control (t ∷ rest) = contains_any t (0 ∷ 13 ∷ 10 ∷ []) || any_control rest

abbrev pub bounded_fields : UploadRequest → List (Text × ℕ)
bounded_fields r =
    let c = r.call in
    (r.idempotency_key, 240)
    ∷ (c.source_call_id, 240)
    ∷ (c.receiver_id, 240)
    ∷ (c.system_id, 240)
    ∷ (c.system_name, 500)
    ∷ (c.site_id, 240)
    ∷ (c.site_name, 500)
    ∷ (c.talkgroup_id, 240)
    ∷ (c.talkgroup_name, 500)
    ∷ (c.talkgroup_tag, 240)
    ∷ (c.radio_id, 240)
    ∷ (c.radio_name, 500)
    ∷ (c.radio_tag, 240)
    ∷ (c.frequency, 120)
    ∷ (c.lcn, 120)
    ∷ (c.voice_service, 120)
    ∷ (c.call_type, 120)
    ∷ (c.transcript, 100000)
    ∷ (c.notes, 10000)
    ∷ []

abbrev pub identifiers : UploadRequest → List Text
identifiers r =
    let c = r.call in
    r.sender_id ∷ c.source_call_id ∷ c.receiver_id ∷ c.system_id ∷ c.site_id ∷ c.talkgroup_id
    ∷ c.radio_id ∷ c.frequency ∷ c.lcn ∷ c.call_type ∷ []

-- An offset that is given lies outside the call.
unfoldable pub is_outside : Option ℤ → ℤ → Bool
is_outside none duration = false
is_outside (some offset) duration = less_than offset (pos 0) || less_than duration offset

abbrev pub day : ℕ
day = 86400 * second

-- `validateMetadata`, at the time `now`.
unfoldable pub validate_metadata : ℕ → UploadRequest → Option MetadataError
validate_metadata now r =
    let c = r.call in
    if is_empty r.sender_id || ltb 100 (length r.sender_id)
    then some bad_sender
    else if not (text_eq r.audio_format (codes "mp3")) && not (text_eq r.audio_format (codes "wav"))
    then some bad_format
    else if is_zero c.start_time
        || not (less_than (pos 0) c.duration_ms)
        || less_than (pos 86400000) c.duration_ms
    then some bad_time
    else if is_empty c.system_id || is_empty c.talkgroup_id
    then some missing_identifier
    else if any_over (bounded_fields r)
    then some too_long
    else if ltb 64 (length c.patches)
    then some too_many_patches
    else if any_control (identifiers r)
    then some control_character
    else if is_outside c.audio_offset_ms c.duration_ms
    then some bad_offset
    else if less_than (pos (now + day)) c.start_time
    then some in_future
    else none

unfoldable pub is_member : Text → List Text → Bool
is_member t [] = false
is_member t (x ∷ xs) = text_eq x t || is_member t xs

abbrev pub trimmed : PatchMetadata → PatchMetadata
trimmed p = record {
  talkgroup_id = trim_space p.talkgroup_id;
  talkgroup_name = trim_space p.talkgroup_name;
}

-- Nothing in the identifier, or a text that is too long.
abbrev pub is_unusable : PatchMetadata → Bool
is_unusable p =
    is_empty p.talkgroup_id || ltb 240 (length p.talkgroup_id) || ltb 500 (length p.talkgroup_name)

-- The loop of `uniquePatches` behind the patches it has kept, whose identifiers are `seen`.
unfoldable pub unique_patches_from : List Text → List PatchMetadata → List PatchMetadata
unique_patches_from seen [] = []
unique_patches_from seen (value ∷ values) =
    let p = trimmed value in
    let skip = unique_patches_from seen values in
    let keep = p ∷ unique_patches_from (p.talkgroup_id ∷ seen) values in
    if is_unusable p then skip else if is_member p.talkgroup_id seen then skip else keep

-- `uniquePatches`
unfoldable pub unique_patches : List PatchMetadata → List PatchMetadata
unique_patches = unique_patches_from []

-- What stands in front of the first semicolon.
unfoldable pub before_semicolon : Text → Text
before_semicolon [] = []
before_semicolon (c ∷ s) = let rest = c ∷ before_semicolon s in if c == b';' then [] else rest

-- `contentTypeMatches`
unfoldable pub content_type_matches : Text → Text → Bool
content_type_matches format content_type =
    let ct = to_lower (before_semicolon content_type) in
    (text_eq format (codes "mp3")
      && (text_eq ct (codes "audio/mpeg") || text_eq ct (codes "audio/mp3")))
    || (text_eq format (codes "wav")
        && (text_eq ct (codes "audio/wav")
            || text_eq ct (codes "audio/x-wav")
            || text_eq ct (codes "audio/wave")))

-- The call with another system.
abbrev pub with_system : CallMetadata → Text → Text → CallMetadata
with_system c id name = record c { system_id = id; system_name = name }

-- `canonicalizeIncomingCall`
unfoldable pub canonicalize_incoming_call : Text → CallMetadata → CallMetadata
canonicalize_incoming_call sender c =
    let sender' = to_upper (trim_space sender) in
    let receiver = to_upper (trim_space c.receiver_id) in
    if text_eq sender' (codes "SCANNER")
    then if text_eq receiver (codes "BCD996P2")
      then with_system c (codes "SCANNER-DIGITAL") (codes "Scanner Digital")
      else if text_eq receiver (codes "BCT15X")
      then with_system c (codes "SCANNER-ANALOG") (codes "Scanner Analog")
      else c
    else if text_eq sender' (codes "LANARK-FIRE")
    then if equal_fold c.system_id (codes "LANARK")
      then with_system c (codes "LANARK-FIRE") (codes "lanark")
      else c
    else c

-- The fields as `createUpload` reads them from the request.
unfoldable pub normalize : UploadRequest → UploadRequest
normalize r = record {
  sender_id = to_upper (trim_space r.sender_id);
  idempotency_key = trim_space r.idempotency_key;
  audio_format = to_lower (trim_space r.audio_format);
  call = record (r.call) { patches = unique_patches r.call.patches };
}
