-- ===== src/Uploader/ProScan/Identifier.antt =====
-- `stableIdentifier` of uploader/proscan-windows/proscan.go gives identifiers that it leaves as they are.
use call_recorder.Prelude.{
  ℕ, ◌==◌, ◌≡◌, refl, ap, ◌∙◌, Bool, true, false, ◌&&◌, ◌||◌, [], ◌∷◌, All, map, leb, arith, inl,
  inr, Bool-cases,
}
use call_recorder.Prelude.Text.{
  Text, is_space, trim_left, trim_right, trim_space, upper_byte, to_upper,
}
use call_recorder.Prelude.Text.Trim.{
  All-map, All-weaker, trim_left-All, trim_right-All, trim_left-none, trim_right-none,
  trim_right_idem, trim_both, trim_left-map, trim_right-map,
}
use call_recorder.Uploader.ProScan.{is_identifier_byte, clean, is_edge, stable_identifier}

-- A byte of an identifier: a capital, a digit, a dot, an underscore or a hyphen.
abbrev pub is_stable_byte : ℕ → Bool
is_stable_byte c =
    (leb b'A' c && leb c b'Z') || (leb b'0' c && leb c b'9') || c == b'.' || c == b'_' || c == b'-'

clean-All : (inside : Bool) (s : Text) → All (λ c. is_identifier_byte c ≡ true) (clean inside s)
unfolding clean
clean-All inside [] = tt
clean-All inside (c ∷ s) = elim (Bool-cases (is_identifier_byte c)) [
  | inl fine ↦ rw (clean, fine) (fine, clean-All false s)
  | inr bad ↦ elim (Bool-cases inside) [
    | inl again ↦ rw (clean, bad, again) (clean-All true s)
    | inr first ↦ rw (clean, bad, first) (unfold is_identifier_byte in refl, clean-All true s)
  ]
]

clean-none : (s : Text) → All (λ c. is_identifier_byte c ≡ true) s → clean false s ≡ s
unfolding clean
clean-none [] a = refl
clean-none (c ∷ s) a = rw (a.0, clean-none s a.1) refl

-- What `stable_identifier` makes capital.
shortened : Text → Text
shortened t = trim_right is_edge (trim_left is_edge (clean false (trim_space t)))

shortened-All : (t : Text) → All (λ c. is_identifier_byte c ≡ true) (shortened t)
unfolding shortened
shortened-All t =
    trim_right-All is_edge _ _ (trim_left-All is_edge _ _ (clean-All false (trim_space t)))

upper_byte_idem : (c : ℕ) → upper_byte (upper_byte c) ≡ upper_byte c
unfolding upper_byte
upper_byte_idem c = ground arith

upper_idem : (s : Text) → to_upper (to_upper s) ≡ to_upper s
unfolding to_upper
upper_idem [] = refl
upper_idem (c ∷ s) = rw (upper_byte_idem c, upper_idem s) refl

edge-upper : (c : ℕ) → is_edge (upper_byte c) ≡ is_edge c
unfolding is_edge upper_byte
edge-upper c = ground arith

stable_identifier-All : (t : Text) → All (λ c. is_stable_byte c ≡ true) (stable_identifier t)
unfolding stable_identifier shortened to_upper
stable_identifier-All t =
    All-map (λ c. is_identifier_byte c ≡ true) (λ c. is_stable_byte c ≡ true) upper_byte _
      (λ c h. unfold is_identifier_byte upper_byte in ground arith) (shortened-All t)

no_space : (c : ℕ) → is_stable_byte c ≡ true → is_space c ≡ false
unfolding is_space
no_space c h = ground arith

identifier_byte : (c : ℕ) → is_stable_byte c ≡ true → is_identifier_byte c ≡ true
unfolding is_identifier_byte
identifier_byte c h = ground arith

fixed :
    (r : Text)
    → trim_space r ≡ r
    → clean false r ≡ r
    → trim_left is_edge r ≡ r
    → trim_right is_edge r ≡ r
    → to_upper r ≡ r
    → stable_identifier r ≡ r
unfolding stable_identifier
fixed r a b c d e = rw (stable_identifier, a, b, c, d, e) refl

space_fixed : (r : Text) → All (λ c. is_space c ≡ false) r → trim_space r ≡ r
unfolding trim_space
space_fixed r a = rw (trim_left-none is_space r a) (trim_right-none is_space r a)

left_fixed : (t : Text) → trim_left is_edge (to_upper (shortened t)) ≡ to_upper (shortened t)
unfolding to_upper shortened
left_fixed t =
    trim_left-map is_edge upper_byte edge-upper (shortened t)
    ∙ ap (map upper_byte) (trim_both is_edge (clean false (trim_space t)))

right_fixed : (t : Text) → trim_right is_edge (to_upper (shortened t)) ≡ to_upper (shortened t)
unfolding to_upper shortened
right_fixed t =
    trim_right-map is_edge upper_byte edge-upper (shortened t)
    ∙ ap (map upper_byte) (trim_right_idem is_edge (trim_left is_edge (clean false (trim_space t))))

-- An identifier that `stableIdentifier` has made has capitals, digits, dots, underscores and hyphens
-- only, and `stableIdentifier` leaves it as it is.
pub stable_identifier_idem :
    (t : Text)
    → All (λ c. is_stable_byte c ≡ true) (stable_identifier t)
      × (stable_identifier (stable_identifier t) ≡ stable_identifier t)
unfolding stable_identifier shortened
stable_identifier_idem t =
    let bytes = stable_identifier-All t in
    (
      bytes,
      fixed (stable_identifier t)
          (space_fixed (stable_identifier t) (All-weaker _ _ (stable_identifier t) no_space bytes))
          (clean-none (stable_identifier t)
            (All-weaker _ _ (stable_identifier t) identifier_byte bytes))
          (left_fixed t) (right_fixed t) (upper_idem (shortened t)),
    )
