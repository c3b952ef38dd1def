-- ===== src/Server/Metadata/Patches.antt =====
-- The patches that an upload keeps (`uniquePatches` of backend/cmd/server/main.go).
use call_recorder.Prelude.{
  true, false, List, [], ◌∷◌, ◌++◌, ◌⊎◌, ◌≡◌, refl, ap, subst, arith, Bool-cases, inl, inr,
}
use call_recorder.Prelude.Text.{Text, text_eq_refl, trim_space}
use call_recorder.Server.Metadata.{
  PatchMetadata, trimmed, is_unusable, is_member, unique_patches_from, unique_patches,
}

-- Each identifier is usable, stands nowhere in `seen` and only once in the list.
abbrev pub IsUnique : List Text → List PatchMetadata → Type 0
IsUnique seen [] = Unit
IsUnique seen (p ∷ ps) =
    (is_unusable p ≡ false)
    × (is_member p.talkgroup_id seen ≡ false)
    × IsUnique (p.talkgroup_id ∷ seen) ps

-- The loop keeps patches whose identifiers are new.
pub unique_patches_from-IsUnique :
    (seen : List Text) (values : List PatchMetadata)
    → IsUnique seen (unique_patches_from seen values)
unfolding unique_patches_from
unique_patches_from-IsUnique seen [] = _
unique_patches_from-IsUnique seen (v ∷ values) = elim (Bool-cases (is_unusable (trimmed v))) [
  | inl bad ↦ rw bad (unique_patches_from-IsUnique seen values)
  | inr good ↦ elim (Bool-cases (is_member (trim_space v.talkgroup_id) seen)) [
    | inl old ↦ rw (good, old) (unique_patches_from-IsUnique seen values)
    | inr new ↦
        rw (good, new)
          (good, new, unique_patches_from-IsUnique (trim_space v.talkgroup_id ∷ seen) values)
  ]
]

-- The identifiers of patches.
abbrev pub ids : List PatchMetadata → List Text
ids [] = []
ids (p ∷ ps) = p.talkgroup_id ∷ ids ps

-- One of the patches is this one but for white space.
abbrev pub IsTrimmed : PatchMetadata → List PatchMetadata → Type 0
IsTrimmed p [] = ⊥
IsTrimmed p (v ∷ values) = (p ≡ trimmed v) ⊎ IsTrimmed p values

-- Each kept patch is one of the request's.
abbrev pub AreOf : List PatchMetadata → List PatchMetadata → Type 0
AreOf values [] = Unit
AreOf values (p ∷ ps) = IsTrimmed p values × AreOf values ps

-- Each patch of the request has no usable identifier, or its identifier stands among those.
abbrev pub AreMet : List Text → List PatchMetadata → Type 0
AreMet kept [] = Unit
AreMet kept (v ∷ values) =
    ((is_unusable (trimmed v) ≡ true) ⊎ (is_member (trim_space v.talkgroup_id) kept ≡ true))
    × AreMet kept values

AreOf-more :
    (v : PatchMetadata) (values ps : List PatchMetadata) → AreOf values ps → AreOf (v ∷ values) ps
AreOf-more v values [] h = tt
AreOf-more v values (p ∷ ps) h = (inr h.0, AreOf-more v values ps h.1)

unique_patches_from-AreOf :
    (seen : List Text) (values : List PatchMetadata)
    → AreOf values (unique_patches_from seen values)
unfolding unique_patches_from
unique_patches_from-AreOf seen [] = tt
unique_patches_from-AreOf seen (v ∷ values) = elim (Bool-cases (is_unusable (trimmed v))) [
  | inl bad ↦ rw bad (AreOf-more v values _ (unique_patches_from-AreOf seen values))
  | inr good ↦ elim (Bool-cases (is_member (trim_space v.talkgroup_id) seen)) [
    | inl old ↦ rw (good, old) (AreOf-more v values _ (unique_patches_from-AreOf seen values))
    | inr new ↦
        rw (good, new)
          (
            inl refl,
            AreOf-more v values _
                (unique_patches_from-AreOf (trim_space v.talkgroup_id ∷ seen) values),
          )
  ]
]

-- A usable patch that the loop meets is among those it had seen or those it keeps.
pub unique_patches_from-keeps :
    (seen : List Text) (before : List PatchMetadata) (v : PatchMetadata)
    (after : List PatchMetadata)
    → is_unusable (trimmed v) ≡ false
    → (is_member (trim_space v.talkgroup_id) seen ≡ true)
      ⊎ (is_member
            (trim_space v.talkgroup_id)
            (ids (unique_patches_from seen (before ++ v ∷ after)))
          ≡ true)
unfolding unique_patches_from is_member
unique_patches_from-keeps seen [] v after usable =
    elim (Bool-cases (is_member (trim_space v.talkgroup_id) seen)) [
      | inl old ↦ inl old
      | inr new ↦ inr (rw (usable, new, text_eq_refl) refl)
    ]
unique_patches_from-keeps seen (x ∷ before) v after usable =
    elim (Bool-cases (is_unusable (trimmed x))) [
      | inl bad ↦ rw bad (unique_patches_from-keeps seen before v after usable)
      | inr good ↦ elim (Bool-cases (is_member (trim_space x.talkgroup_id) seen)) [
        | inl old ↦ rw (good, old) (unique_patches_from-keeps seen before v after usable)
        | inr new ↦
            rw (good, new)
              (let later =
                  unique_patches_from-keeps (trim_space x.talkgroup_id ∷ seen) before v after
                    usable in
                ground arith)
      ]
    ]

append-cons :
    (before : List PatchMetadata) (v : PatchMetadata) (after : List PatchMetadata)
    → (before ++ v ∷ []) ++ after ≡ before ++ v ∷ after
append-cons [] v after = refl
append-cons (x ∷ before) v after = ap (λ xs. x ∷ xs) (append-cons before v after)

unique_patches-AreMet :
    (before after : List PatchMetadata) → AreMet (ids (unique_patches (before ++ after))) after
unfolding unique_patches is_member
unique_patches-AreMet before [] = tt
unique_patches-AreMet before (v ∷ after) = (
  elim (Bool-cases (is_unusable (trimmed v))) [
    | inl bad ↦ inl bad
    | inr usable ↦ elim (unique_patches_from-keeps [] before v after usable) [
      | inl old ↦ absurd (cc)
      | inr kept ↦ inr kept
    ]
  ],
  subst (λ values. AreMet (ids (unique_patches values)) after) (append-cons before v after)
      (unique_patches-AreMet (before ++ v ∷ []) after),
)

-- For every list of patches: the kept patches have usable identifiers, no two of them the same; each
-- of them is a patch of the list but for the white space around its texts; and each patch of the list
-- has no usable identifier or one that is kept.
pub unique_patches-IsComplete :
    (values : List PatchMetadata)
    → IsUnique [] (unique_patches values)
      × AreOf values (unique_patches values)
      × AreMet (ids (unique_patches values)) values
unfolding unique_patches
unique_patches-IsComplete values = (
  unique_patches_from-IsUnique [] values,
  unique_patches_from-AreOf [] values,
  unique_patches-AreMet [] values,
)
