-- ===== src/Server/Metadata/Canonical.antt =====
-- The renaming of systems (`canonicalizeIncomingCall` of backend/cmd/server/main.go), which
-- `createUpload` makes after it has tested the metadata.
use call_recorder.Prelude.{
  ℕ, Bool, false, none, some, if◌then◌else◌, ◌≡◌, refl, arith, Bool-cases, ◌⊎◌, inl, inr,
}
use call_recorder.Prelude.Text.{
  Text, text_eq, is_empty, codes, trim_space, to_upper, equal_fold, contains_any,
}
use call_recorder.Server.Metadata.{
  CallMetadata, UploadRequest, MetadataError, any_over, any_control, validate_metadata,
  canonicalize_incoming_call, with_system,
}

-- The systems that the renaming can set.
pub data IsSystem : Text → Text → Type 0 where
  digital : IsSystem (codes "SCANNER-DIGITAL") (codes "Scanner Digital")
  analog : IsSystem (codes "SCANNER-ANALOG") (codes "Scanner Analog")
  lanark : IsSystem (codes "LANARK-FIRE") (codes "lanark")

-- The call is left as it is or gets one of three systems.
pub canonicalize_incoming_call-cases :
    (sender : Text) (c : CallMetadata)
    → (canonicalize_incoming_call sender c ≡ c)
      ⊎ ((id : Text) × (name : Text) × IsSystem id name
          × (canonicalize_incoming_call sender c ≡ with_system c id name))
unfolding canonicalize_incoming_call
canonicalize_incoming_call-cases sender c =
    elim (Bool-cases (text_eq (to_upper (trim_space sender)) (codes "SCANNER"))) [
      | inl scanner ↦
          elim (Bool-cases (text_eq (to_upper (trim_space c.receiver_id)) (codes "BCD996P2"))) [
            | inl first ↦ rw (scanner, first) (inr (_, _, IsSystem.digital, refl))
            | inr other ↦
                elim (Bool-cases (text_eq (to_upper (trim_space c.receiver_id)) (codes "BCT15X"))) [
                  | inl second ↦ rw (scanner, other, second) (inr (_, _, IsSystem.analog, refl))
                  | inr third ↦ rw (scanner, other, third) (inl refl)
                ]
          ]
      | inr other ↦
          elim (Bool-cases (text_eq (to_upper (trim_space sender)) (codes "LANARK-FIRE"))) [
            | inl fire ↦ elim (Bool-cases (equal_fold c.system_id (codes "LANARK"))) [
              | inl old ↦ rw (other, fire, old) (inr (_, _, IsSystem.lanark, refl))
              | inr new ↦ rw (other, fire, new) (inl refl)
            ]
            | inr neither ↦ rw (other, neither) (inl refl)
          ]
    ]

-- What the nine tests of the validation say, told apart by the first that fails.
validate_metadata-cases :
    (b1 b2 b3 b4 b5 b6 b7 b8 b9 d4 d5 d7 : Bool)
    → (if b1
        then some MetadataError.bad_sender
        else if b2
        then some MetadataError.bad_format
        else if b3
        then some MetadataError.bad_time
        else if b4
        then some MetadataError.missing_identifier
        else if b5
        then some MetadataError.too_long
        else if b6
        then some MetadataError.too_many_patches
        else if b7
        then some MetadataError.control_character
        else if b8
        then some MetadataError.bad_offset
        else if b9
        then some MetadataError.in_future
        else none)
      ≡ none
    → (b4 ≡ false → d4 ≡ false)
    → (b5 ≡ false → d5 ≡ false)
    → (b7 ≡ false → d7 ≡ false)
    → (if b1
        then some MetadataError.bad_sender
        else if b2
        then some MetadataError.bad_format
        else if b3
        then some MetadataError.bad_time
        else if d4
        then some MetadataError.missing_identifier
        else if d5
        then some MetadataError.too_long
        else if b6
        then some MetadataError.too_many_patches
        else if d7
        then some MetadataError.control_character
        else if b8
        then some MetadataError.bad_offset
        else if b9
        then some MetadataError.in_future
        else none)
      ≡ none
validate_metadata-cases b1 b2 b3 b4 b5 b6 b7 b8 b9 d4 d5 d7 h h4 h5 h7 = ground arith

-- A request that the validation accepts is still one it accepts when its system is renamed.
pub with_system-IsValid :
    (now : ℕ) (r : UploadRequest) (id name : Text)
    → IsSystem id name
    → validate_metadata now r ≡ none
    → validate_metadata now (record r { call = with_system r.call id name }) ≡ none
unfolding validate_metadata any_over any_control contains_any is_empty
with_system-IsValid now r _ _ digital h =
    validate_metadata-cases _ _ _ _ _ _ _ _ _ _ _ _ h (λ e. ground arith) (λ e. ground arith)
      (λ e. ground arith)
with_system-IsValid now r _ _ analog h =
    validate_metadata-cases _ _ _ _ _ _ _ _ _ _ _ _ h (λ e. ground arith) (λ e. ground arith)
      (λ e. ground arith)
with_system-IsValid now r _ _ lanark h =
    validate_metadata-cases _ _ _ _ _ _ _ _ _ _ _ _ h (λ e. ground arith) (λ e. ground arith)
      (λ e. ground arith)

-- A request that passes the validation passes it too with the call that the renaming of systems
-- makes of its call.
pub canonicalize_incoming_call-IsValid :
    (now : ℕ) (r : UploadRequest)
    → validate_metadata now r ≡ none
    → validate_metadata now (record r { call = canonicalize_incoming_call r.sender_id r.call })
      ≡ none
canonicalize_incoming_call-IsValid now r h =
    elim (canonicalize_incoming_call-cases r.sender_id r.call) [
      | inl same ↦ rw same h
      | inr (id, name, system, changed) ↦ rw changed (with_system-IsValid now r id name system h)
    ]
