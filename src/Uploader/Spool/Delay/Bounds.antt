-- ===== src/Uploader/Spool/Delay/Bounds.antt =====
-- Bounds of `retryDelay` and `sanitizeError` (uploader/proscan-windows/spool.go).
use call_recorder.Prelude.{
  ℕ, zero, suc, ◌*◌, ◌≤◌, min, ◌⊎◌, inl, inr, ltb, ◌≡◌, refl, arith, length, length-take, [], ◌∷◌,
  Bool-cases,
}
use call_recorder.Prelude.Text.{Text}
use call_recorder.Uploader.Spool.Delay.{second, retry_delay, sanitize_error, join, fields}

-- From the eighth attempt on the delay is 256 seconds.
pub retry_delay_late : (a : ℕ) → 8 ≤ a → retry_delay a ≡ 256 * second
unfolding retry_delay
retry_delay_late a h = let e : min a 8 ≡ 8 = omega arith in rw e (ground arith)

-- Up to there it is 2 ^ a seconds.
abbrev pub Grows : ℕ → Type 0
Grows a =
    (retry_delay (suc a) ≡ 2 * retry_delay a)
    ⊎ ((retry_delay a ≡ 256 * second) × (retry_delay (suc a) ≡ 256 * second))

-- One more attempt doubles the delay, or it has reached 256 seconds and stays there.
pub retry_delay-suc : (a : ℕ) → Grows a
unfolding retry_delay
retry_delay-suc zero = inl refl
retry_delay-suc (suc zero) = inl refl
retry_delay-suc (suc (suc zero)) = inl refl
retry_delay-suc (suc (suc (suc zero))) = inl refl
retry_delay-suc (suc (suc (suc (suc zero)))) = inl refl
retry_delay-suc (suc (suc (suc (suc (suc zero))))) = inl refl
retry_delay-suc (suc (suc (suc (suc (suc (suc zero)))))) = inl refl
retry_delay-suc (suc (suc (suc (suc (suc (suc (suc zero))))))) = inl refl
retry_delay-suc (suc (suc (suc (suc (suc (suc (suc (suc n)))))))) =
    let a : ℕ = suc (suc (suc (suc (suc (suc (suc (suc n))))))) in
    inr (retry_delay_late a (omega arith), retry_delay_late (suc a) (omega arith))

-- Every delay lies between one second and 256 seconds.
pub retry_delay_bounds : (a : ℕ) → (second ≤ retry_delay a) × (retry_delay a ≤ 256 * second)
unfolding retry_delay
retry_delay_bounds zero = omega arith
retry_delay_bounds (suc zero) = omega arith
retry_delay_bounds (suc (suc zero)) = omega arith
retry_delay_bounds (suc (suc (suc zero))) = omega arith
retry_delay_bounds (suc (suc (suc (suc zero)))) = omega arith
retry_delay_bounds (suc (suc (suc (suc (suc zero))))) = omega arith
retry_delay_bounds (suc (suc (suc (suc (suc (suc zero)))))) = omega arith
retry_delay_bounds (suc (suc (suc (suc (suc (suc (suc zero))))))) = omega arith
retry_delay_bounds (suc (suc (suc (suc (suc (suc (suc (suc n)))))))) =
    omega (arith, retry_delay_late (suc (suc (suc (suc (suc (suc (suc (suc n)))))))) (omega arith))

-- An error message that is kept has at most 500 bytes.
pub length-sanitize_error : (message : Text) → length (sanitize_error message) ≤ 500
unfolding sanitize_error
length-sanitize_error message =
    elim (Bool-cases (ltb 500 (length (join (fields message) (b' ' ∷ []))))) [
      | inl long ↦ rw long (omega (arith, length-take 500 (join (fields message) (b' ' ∷ []))))
      | inr short ↦ rw short (ground arith)
    ]
