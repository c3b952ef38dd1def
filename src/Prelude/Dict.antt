-- ===== src/Prelude/Dict.antt =====
-- Go maps with text keys as association lists; a set is a list of texts.
pub mod Distinct
use mathlib.Core.Bool.{Bool, true, false, ◌||◌}
use mathlib.Core.List.{List, [], ◌∷◌}
use mathlib.Core.Logic.{inl, inr}
use mathlib.Core.Option.{Option, none, some}
use mathlib.Core.Path.{◌≡◌, refl}
use native.Mathlib.Omega.{arith}
use call_recorder.Prelude.Tests.{if◌then◌else◌, Bool-cases}
use call_recorder.Prelude.Text.{Text, text_eq, text_eq_iff}

abbrev pub Dict {ℓ} : Type ℓ → Type ℓ
Dict V = List (Text × V)

module _ {ℓ} {V : Type ℓ} where
  -- v, ok := m[k]
  unfoldable pub get : Dict V → Text → Option V
  get [] k = none
  get ((j, v) ∷ m) k = if text_eq j k then some v else get m k

  -- _, ok := m[k]
  unfoldable pub has : Dict V → Text → Bool
  has [] k = false
  has ((j, v) ∷ m) k = text_eq j k || has m k

  -- m[k] = v
  unfoldable pub put : Dict V → Text → V → Dict V
  put [] k v = (k, v) ∷ []
  put ((j, w) ∷ m) k v = if text_eq j k then (k, v) ∷ m else (j, w) ∷ put m k v

  -- delete(m, k)
  unfoldable pub remove : Dict V → Text → Dict V
  remove [] k = []
  remove ((j, w) ∷ m) k = let rest = remove m k in if text_eq j k then rest else (j, w) ∷ rest

  pub get-put :
      (m : Dict V) (k j : Text) (v : V)
      → get (put m k v) j ≡ (if text_eq k j then some v else get m j)
  unfolding get put
  get-put [] k j v = refl
  get-put ((i, w) ∷ m) k j v =
      ground (arith, text_eq_iff k j, text_eq_iff i k, text_eq_iff i j, get-put m k j v)

  pub get-remove :
      (m : Dict V) (k j : Text) → get (remove m k) j ≡ (if text_eq k j then none else get m j)
  unfolding get remove
  get-remove [] k j = ground arith
  get-remove ((i, w) ∷ m) k j =
      ground (arith, text_eq_iff k j, text_eq_iff i k, text_eq_iff i j, get-remove m k j)

-- s[k]
unfoldable pub member : List Text → Text → Bool
member [] k = false
member (j ∷ s) k = text_eq j k || member s k

-- s[k] = true
unfoldable pub add : List Text → Text → List Text
unfolding member
add s k = if member s k then s else k ∷ s

-- delete(s, k)
unfoldable pub discard : List Text → Text → List Text
discard [] k = []
discard (j ∷ s) k = let rest = discard s k in if text_eq j k then rest else j ∷ rest

pub member-add : (s : List Text) (k j : Text) → member (add s k) j ≡ (text_eq k j || member s j)
unfolding add
member-add s k j = elim (Bool-cases (member s k)) [
  | inl old ↦ rw old (ground (arith, text_eq_iff k j))
  | inr new ↦ rw new (unfold member in refl)
]

pub member-discard :
    (s : List Text) (k j : Text)
    → member (discard s k) j ≡ (if text_eq k j then false else member s j)
unfolding member discard
member-discard [] k j = ground arith
member-discard (i ∷ s) k j =
    ground (arith, text_eq_iff k j, text_eq_iff i k, text_eq_iff i j, member-discard s k j)
