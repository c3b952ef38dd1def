-- ===== src/Prelude/Text/Trim.antt =====
-- What trimming keeps and what it leaves as it is.
use mathlib.Core.Bool.{Bool, true, false}
use mathlib.Core.List.{[], ◌∷◌, map}
use mathlib.Core.Logic.{inl, inr}
use mathlib.Core.Path.{◌≡◌, refl}
use Prim.Native.Nat.{ℕ}
use call_recorder.Prelude.Tests.{Bool-cases}
use call_recorder.Prelude.Lists.{All}
use call_recorder.Prelude.Text.{Text, trim_left, trim_onto, trim_right}

pub All-map :
    (P Q : ℕ → Type 0) (f : ℕ → ℕ) (s : Text)
    → ((c : ℕ) → P c → Q (f c))
    → All P s
    → All Q (map f s)
All-map P Q f [] h a = tt
All-map P Q f (c ∷ s) h a = (h c a.0, All-map P Q f s h a.1)

pub All-weaker : (P Q : ℕ → Type 0) (s : Text) → ((c : ℕ) → P c → Q c) → All P s → All Q s
All-weaker P Q [] h a = tt
All-weaker P Q (c ∷ s) h a = (h c a.0, All-weaker P Q s h a.1)

module _ (p : ℕ → Bool) where
  pub trim_left-All : (P : ℕ → Type 0) (s : Text) → All P s → All P (trim_left p s)
  unfolding trim_left
  trim_left-All P [] a = tt
  trim_left-All P (c ∷ s) a = elim (Bool-cases (p c)) [
    | inl gone ↦ rw gone (trim_left-All P s a.1)
    | inr kept ↦ rw kept a
  ]

  onto-All :
      (P : ℕ → Type 0) (b : Bool) (c : ℕ) (s : Text) → P c → All P s → All P (trim_onto b c s)
  unfolding trim_onto
  onto-All P true c [] h a = tt
  onto-All P true c (d ∷ s) h a = (h, a)
  onto-All P false c s h a = (h, a)

  pub trim_right-All : (P : ℕ → Type 0) (s : Text) → All P s → All P (trim_right p s)
  unfolding trim_right
  trim_right-All P [] a = tt
  trim_right-All P (c ∷ s) a = onto-All P (p c) c (trim_right p s) a.0 (trim_right-All P s a.1)

  -- Without a byte of the set nothing is trimmed.
  pub trim_left-none : (s : Text) → All (λ c. p c ≡ false) s → trim_left p s ≡ s
  unfolding trim_left
  trim_left-none [] a = refl
  trim_left-none (c ∷ s) a = rw (a.0) refl

  pub trim_right-none : (s : Text) → All (λ c. p c ≡ false) s → trim_right p s ≡ s
  unfolding trim_right trim_onto
  trim_right-none [] a = refl
  trim_right-none (c ∷ s) a = rw (a.0, trim_right-none s a.1) refl

  trim_left_idem : (s : Text) → trim_left p (trim_left p s) ≡ trim_left p s
  unfolding trim_left
  trim_left_idem [] = refl
  trim_left_idem (c ∷ s) = elim (Bool-cases (p c)) [
    | inl gone ↦ rw gone (trim_left_idem s)
    | inr kept ↦ rw (kept, kept) refl
  ]

  onto_again :
      (b : Bool) (c : ℕ) (s : Text)
      → p c ≡ b
      → trim_right p s ≡ s
      → trim_right p (trim_onto b c s) ≡ trim_onto b c s
  unfolding trim_right trim_onto
  onto_again true c [] e h = refl
  onto_again true c (d ∷ s) e h = rw (e, h) refl
  onto_again false c s e h = rw (e, h) refl

  pub trim_right_idem : (s : Text) → trim_right p (trim_right p s) ≡ trim_right p s
  unfolding trim_right
  trim_right_idem [] = refl
  trim_right_idem (c ∷ s) = onto_again (p c) c (trim_right p s) refl (trim_right_idem s)

  -- What is trimmed on the left stays so when it is trimmed on the right.
  pub trim_both :
      (s : Text) → trim_left p (trim_right p (trim_left p s)) ≡ trim_right p (trim_left p s)
  unfolding trim_left trim_right trim_onto
  trim_both [] = refl
  trim_both (c ∷ s) = elim (Bool-cases (p c)) [
    | inl gone ↦ rw gone (trim_both s)
    | inr kept ↦ rw (kept, kept, kept) refl
  ]

  module _ (f : ℕ → ℕ) (same : (c : ℕ) → p (f c) ≡ p c) where
    pub trim_left-map : (s : Text) → trim_left p (map f s) ≡ map f (trim_left p s)
    unfolding trim_left
    trim_left-map [] = refl
    trim_left-map (c ∷ s) = elim (Bool-cases (p c)) [
      | inl gone ↦ rw (same c, gone) (trim_left-map s)
      | inr kept ↦ rw (same c, kept) refl
    ]

    onto-map : (b : Bool) (c : ℕ) (s : Text) → trim_onto b (f c) (map f s) ≡ map f (trim_onto b c s)
    unfolding trim_onto
    onto-map true c [] = refl
    onto-map true c (d ∷ s) = refl
    onto-map false c s = refl

    pub trim_right-map : (s : Text) → trim_right p (map f s) ≡ map f (trim_right p s)
    unfolding trim_right
    trim_right-map [] = refl
    trim_right-map (c ∷ s) = rw (same c, trim_right-map s) (onto-map (p c) c (trim_right p s))
