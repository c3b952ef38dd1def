-- ===== src/Server/Users/Count.antt =====
-- The number of enabled administrators (backend/cmd/server/main.go) under the changes of the table users.
use call_recorder.Prelude.{◌+◌, ◌≡◌, refl, false, some, [], ◌∷◌, inl, inr, arith, Bool-cases}
use call_recorder.Prelude.Text.{Text, text_eq, text_eq_iff}
use call_recorder.Prelude.Dict.{Dict, get, put, has, remove}
use call_recorder.Prelude.Dict.Distinct.{IsDistinct}
use call_recorder.Server.Users.{UserRow, one_if_admin, enabled_admins}

remove_missing : (m : Dict UserRow) (k : Text) → has m k ≡ false → remove m k ≡ m
unfolding has remove
remove_missing [] k h = refl
remove_missing ((j, u) ∷ m) k h = elim (Bool-cases (text_eq j k)) [
  | inl same ↦ absurd (ground arith)
  | inr other ↦ rw (other, remove_missing m k (ground arith)) refl
]

-- A row is replaced.
pub admins-put :
    (m : Dict UserRow) (k : Text) (old new : UserRow)
    → get m k ≡ some old
    → enabled_admins (put m k new) + one_if_admin old ≡ enabled_admins m + one_if_admin new
unfolding get put enabled_admins
admins-put [] k old new h = absurd (cc)
admins-put ((j, u) ∷ m) k old new h = elim (Bool-cases (text_eq j k)) [
  | inl same ↦
      let this : some u ≡ some old = rw same at h in
      let row : u ≡ old = cc in rw (same, row) (omega arith)
  | inr other ↦ let rest = admins-put m k old new (rw other at h) in rw other (omega arith)
]

-- A row is added.
pub admins-insert :
    (m : Dict UserRow) (k : Text) (new : UserRow)
    → has m k ≡ false
    → enabled_admins (put m k new) ≡ enabled_admins m + one_if_admin new
unfolding has put enabled_admins
admins-insert [] k new h = omega arith
admins-insert ((j, u) ∷ m) k new h = elim (Bool-cases (text_eq j k)) [
  | inl same ↦ absurd (ground arith)
  | inr other ↦ let rest = admins-insert m k new (ground arith) in rw other (omega arith)
]

-- A row is deleted.
pub admins-remove :
    (m : Dict UserRow) (k : Text) (old : UserRow)
    → IsDistinct m
    → get m k ≡ some old
    → enabled_admins (remove m k) + one_if_admin old ≡ enabled_admins m
unfolding get remove enabled_admins
admins-remove [] k old d h = absurd (cc)
admins-remove ((j, u) ∷ m) k old d h = elim (Bool-cases (text_eq j k)) [
  | inl same ↦
      let this : some u ≡ some old = rw same at h in
      let row : u ≡ old = cc in
      let alone = remove_missing m k (rw ((text_eq_iff j k).0 same) at d.0) in
      rw (same, row, alone) (omega arith)
  | inr other ↦ let rest = admins-remove m k old d.1 (rw other at h) in rw other (omega arith)
]
