-- ===== src/Uploader/Spool/Claims.antt =====
-- `ClaimDue` of uploader/proscan-windows/spool.go: which item a worker gets.
use call_recorder.Prelude.{
  ℕ, ◌≤◌, true, false, Option, none, some, List, [], ◌∷◌, ◌≡◌, ◌≢◌, refl, sym, ap, subst, ◌⊎◌, inl,
  inr, arith, All, Bool-cases,
}
use call_recorder.Prelude.Text.{Text, text_eq_refl}
use call_recorder.Prelude.Dict.{Dict, member, add, member-add}
use call_recorder.Uploader.Spool.Disk.{SpoolItem}
use call_recorder.Uploader.Spool.State.{Spool}
use call_recorder.Uploader.Spool.Methods.{less, is_due, due_items, first_of, first_due, claim_due}

-- `item` is one of the values of the map.
abbrev pub Holds : Dict SpoolItem → SpoolItem → Type 0
Holds [] item = ⊥
Holds ((k, v) ∷ m) item = (v ≡ item) ⊎ Holds m item

-- No due item of the map comes before `item`.
abbrev pub IsFirst : Spool → ℕ → SpoolItem → Dict SpoolItem → Type 0
IsFirst s now item [] = Unit
IsFirst s now item ((k, v) ∷ m) =
    (is_due s now v ≡ true → less v item ≡ false) × IsFirst s now item m

abbrev pub NoneDue : Spool → ℕ → Dict SpoolItem → Type 0
NoneDue s now [] = Unit
NoneDue s now ((k, v) ∷ m) = (is_due s now v ≡ false) × NoneDue s now m

less_refl : (a : SpoolItem) → less a a ≡ false
unfolding less
less_refl a = ground arith

-- Not being less is transitive.
less_trans : (a b c : SpoolItem) → less a b ≡ false → less b c ≡ false → less a c ≡ false
unfolding less
less_trans a b c h k = ground arith

less_asym : (a b : SpoolItem) → less a b ≡ true → less b a ≡ false
unfolding less
less_asym a b h = ground arith

abbrev Least : SpoolItem → List SpoolItem → Type 0
Least r xs = All (λ x. less x r ≡ false) xs

first_of_lower :
    (best x : SpoolItem) (xs : List SpoolItem)
    → less x best ≡ true
    → first_of best (x ∷ xs) ≡ first_of x xs
unfolding first_of
first_of_lower best x xs h = rw h

first_of_kept :
    (best x : SpoolItem) (xs : List SpoolItem)
    → less x best ≡ false
    → first_of best (x ∷ xs) ≡ first_of best xs
unfolding first_of
first_of_kept best x xs h = rw h

first_of_nil : (best : SpoolItem) → first_of best [] ≡ best
unfolding first_of
first_of_nil best = refl

abbrev IsLeast : SpoolItem → List SpoolItem → SpoolItem → Type 0
IsLeast best xs r = (less best r ≡ false) × Least r xs

first_of-Least : (best : SpoolItem) (xs : List SpoolItem) → IsLeast best xs (first_of best xs)
first_of-Least best [] = (rw first_of_nil (less_refl best), tt)
first_of-Least best (x ∷ xs) = elim (Bool-cases (less x best)) [
  | inl lower ↦
      let ih = first_of-Least x xs in
      subst (IsLeast best (x ∷ xs)) (sym (first_of_lower best x xs lower))
        (less_trans best x (first_of x xs) (less_asym x best lower) ih.0, ih)
  | inr kept ↦
      let ih = first_of-Least best xs in
      subst (IsLeast best (x ∷ xs)) (sym (first_of_kept best x xs kept))
        (ih.0, (less_trans x best (first_of best xs) kept ih.0, ih.1))
]

abbrev Among : SpoolItem → List SpoolItem → Type 0
Among r [] = ⊥
Among r (x ∷ xs) = (x ≡ r) ⊎ Among r xs

first_of-Among : (best : SpoolItem) (xs : List SpoolItem) → Among (first_of best xs) (best ∷ xs)
first_of-Among best [] = inl (sym (first_of_nil best))
first_of-Among best (x ∷ xs) = elim (Bool-cases (less x best)) [
  | inl lower ↦
      subst (λ r. Among r (best ∷ x ∷ xs)) (sym (first_of_lower best x xs lower))
        (inr (first_of-Among x xs))
  | inr kept ↦
      subst (λ r. Among r (best ∷ x ∷ xs)) (sym (first_of_kept best x xs kept))
        (elim (first_of-Among best xs) [ inl e ↦ inl e | inr m ↦ inr (inr m) ])
]

-- What is in the list of due items is due, and is in the map.
due_items-Holds :
    (s : Spool) (now : ℕ) (m : Dict SpoolItem) (r : SpoolItem)
    → Among r (due_items s now m)
    → Holds m r × (is_due s now r ≡ true)
unfolding due_items
due_items-Holds s now [] r h = absurd h
due_items-Holds s now ((k, v) ∷ m) r h = elim (Bool-cases (is_due s now v)) [
  | inl due ↦ elim (rw due at h) [
    | inl e ↦ (inl e, rw (← e) due)
    | inr t ↦ let ih = due_items-Holds s now m r t in (inr ih.0, ih.1)
  ]
  | inr idle ↦ let ih = due_items-Holds s now m r (rw idle at h) in (inr ih.0, ih.1)
]

due_items-IsFirst :
    (s : Spool) (now : ℕ) (m : Dict SpoolItem) (r : SpoolItem)
    → Least r (due_items s now m)
    → IsFirst s now r m
unfolding due_items
due_items-IsFirst s now [] r h = tt
due_items-IsFirst s now ((k, v) ∷ m) r h = elim (Bool-cases (is_due s now v)) [
  | inl due ↦ let l = rw due at h in (λ _. l.0, due_items-IsFirst s now m r l.1)
  | inr idle ↦ (λ e. absurd (cc), due_items-IsFirst s now m r (rw idle at h))
]

due_items-NoneDue :
    (s : Spool) (now : ℕ) (m : Dict SpoolItem) → due_items s now m ≡ [] → NoneDue s now m
unfolding due_items
due_items-NoneDue s now [] h = tt
due_items-NoneDue s now ((k, v) ∷ m) h = elim (Bool-cases (is_due s now v)) [
  | inl due ↦ cc (rw due at h)
  | inr idle ↦ (idle, due_items-NoneDue s now m (rw idle at h))
]

-- The list of due items, with what it says of the first of them.
first_due-cases :
    (xs : List SpoolItem)
    → ((xs ≡ []) × (first_due xs ≡ none))
      ⊎ ((r : SpoolItem) × (first_due xs ≡ some r) × Among r xs × Least r xs)
unfolding first_due
first_due-cases [] = inl (refl, refl)
first_due-cases (x ∷ xs) = inr (first_of x xs, refl, first_of-Among x xs, first_of-Least x xs)

-- What `ClaimDue` promises of its result and of the state that it leaves.
abbrev pub IsClaim : ℕ → Spool → Option SpoolItem × Spool → Type 0
IsClaim now s (none, t) = (t ≡ s) × NoneDue s now s.items
IsClaim now s (some r, t) =
    Holds s.items r
    × (r.next_attempt ≤ now)
    × (member s.in_flight r.id ≡ false)
    × IsFirst s now r s.items
    × (t ≡ record s { in_flight = add s.in_flight r.id })
    × (member t.in_flight r.id ≡ true)

is_due-parts :
    (s : Spool) (now : ℕ) (r : SpoolItem)
    → is_due s now r ≡ true
    → (r.next_attempt ≤ now) × (member s.in_flight r.id ≡ false)
unfolding is_due
is_due-parts s now r h = ground arith

member-add_self : (s : List Text) (k : Text) → member (add s k) k ≡ true
member-add_self s k = rw (member-add, text_eq_refl)

pub claim_due-none :
    (now : ℕ) (s : Spool) → first_due (due_items s now s.items) ≡ none → claim_due now s ≡ (none, s)
unfolding claim_due
claim_due-none now s e = rw (e, claim_due)

pub claim_due-some :
    (now : ℕ) (s : Spool) (r : SpoolItem)
    → first_due (due_items s now s.items) ≡ some r
    → claim_due now s ≡ (some r, record s { in_flight = add s.in_flight r.id })
unfolding claim_due
claim_due-some now s r e = rw (e, claim_due)

-- A worker gets an item of the spool that is due and that no worker holds, and no other such item
-- comes before it; it is then held, and nothing else changes. It gets none, and nothing changes,
-- only where no item is due and free.
pub claim_due-IsClaim : (now : ℕ) (s : Spool) → IsClaim now s (claim_due now s)
claim_due-IsClaim now s = elim (first_due-cases (due_items s now s.items)) [
  | inl (empty, e) ↦
      subst (IsClaim now s) (sym (claim_due-none now s e))
        (refl, due_items-NoneDue s now s.items empty)
  | inr (r, e, among, least) ↦
      let held = due_items-Holds s now s.items r among in
      let parts = is_due-parts s now r held.1 in
      subst (IsClaim now s) (sym (claim_due-some now s r e)) (
        held.0,
        parts.0,
        parts.1,
        due_items-IsFirst s now s.items r least,
        refl,
        member-add_self s.in_flight r.id,
      )
]

-- Two claims with no return of the item in between are of two items.
pub claim_due_twice :
    (now later : ℕ) (s t u : Spool) (a b : SpoolItem)
    → claim_due now s ≡ (some a, t)
    → claim_due later t ≡ (some b, u)
    → a.id ≢ b.id
claim_due_twice now later s t u a b p q same =
    let first = subst (IsClaim now s) p (claim_due-IsClaim now s) in
    let second = subst (IsClaim later t) q (claim_due-IsClaim later t) in
    cc (first.5, second.2, ap (member t.in_flight) same)
