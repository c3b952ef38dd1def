-- ===== src/Prelude/Dict/Distinct.antt =====
-- Association lists in which no key stands twice, as in a Go map.
use mathlib.Core.Bool.{true, false, ◌||◌}
use mathlib.Core.List.{[], ◌∷◌}
use mathlib.Core.Logic.{inl, inr}
use mathlib.Core.Option.{none, some}
use mathlib.Core.Path.{◌≡◌, refl}
use native.Mathlib.Omega.{arith}
use call_recorder.Prelude.Tests.{if◌then◌else◌, Bool-cases}
use call_recorder.Prelude.Text.{Text, text_eq, text_eq_iff}
use call_recorder.Prelude.Dict.{Dict, get, put, remove, has}

module _ {ℓ} {V : Type ℓ} where
  abbrev pub IsDistinct : Dict V → Type 0
  IsDistinct [] = Unit
  IsDistinct ((k, v) ∷ m) = (has m k ≡ false) × IsDistinct m

  pub has-put : (m : Dict V) (k j : Text) (v : V) → has (put m k v) j ≡ (text_eq k j || has m j)
  unfolding has put
  has-put [] k j v = refl
  has-put ((i, w) ∷ m) k j v =
      ground (arith, text_eq_iff k j, text_eq_iff i k, text_eq_iff i j, has-put m k j v)

  pub has-remove :
      (m : Dict V) (k j : Text) → has (remove m k) j ≡ (if text_eq k j then false else has m j)
  unfolding has remove
  has-remove [] k j = ground arith
  has-remove ((i, w) ∷ m) k j =
      ground (arith, text_eq_iff k j, text_eq_iff i k, text_eq_iff i j, has-remove m k j)

  pub put-IsDistinct : (m : Dict V) (k : Text) (v : V) → IsDistinct m → IsDistinct (put m k v)
  unfolding has put
  put-IsDistinct [] k v h = (refl, tt)
  put-IsDistinct ((i, w) ∷ m) k v h = elim (Bool-cases (text_eq i k)) [
    | inl same ↦ rw same (rw ((text_eq_iff i k).0 same) at h.0, h.1)
    | inr other ↦ rw other (
      rw (has-put m k i v) (ground (arith, text_eq_iff k i, text_eq_iff i k)),
      put-IsDistinct m k v h.1,
    )
  ]

  pub remove-IsDistinct : (m : Dict V) (k : Text) → IsDistinct m → IsDistinct (remove m k)
  unfolding has remove
  remove-IsDistinct [] k h = tt
  remove-IsDistinct ((i, w) ∷ m) k h = elim (Bool-cases (text_eq i k)) [
    | inl same ↦ rw same (remove-IsDistinct m k h.1)
    | inr other ↦ rw other (
      rw (has-remove m k i) (ground (arith, text_eq_iff k i, text_eq_iff i k)),
      remove-IsDistinct m k h.1,
    )
  ]

  -- A key has a value exactly where it stands in the map.
  pub get_of_has : (m : Dict V) (k : Text) → has m k ≡ true → (v : V) × (get m k ≡ some v)
  unfolding has get
  get_of_has [] k h = absurd (cc)
  get_of_has ((i, w) ∷ m) k h = elim (Bool-cases (text_eq i k)) [
    | inl same ↦ (w, rw same)
    | inr other ↦ let r = get_of_has m k (rw other at h) in (r.0, rw other r.1)
  ]

  pub has_of_get : (m : Dict V) (k : Text) (v : V) → get m k ≡ some v → has m k ≡ true
  unfolding has get
  has_of_get [] k v h = cc
  has_of_get ((i, w) ∷ m) k v h = ground (arith, has_of_get m k v)

  pub get_of_not_has : (m : Dict V) (k : Text) → has m k ≡ false → get m k ≡ none
  unfolding has get
  get_of_not_has [] k h = refl
  get_of_not_has ((i, w) ∷ m) k h = ground (arith, get_of_not_has m k)
