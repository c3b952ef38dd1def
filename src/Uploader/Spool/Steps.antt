-- ===== src/Uploader/Spool/Steps.antt =====
-- A property that each call of a method (uploader/proscan-windows/spool.go) keeps, whatever the operating
-- system answers, and the method with them.
use call_recorder.Uploader.Effects.{
  Outcome, done, failed, torn, crash, torn_crash, Exit, returned, refused, crashed, Exec, ◌>>=◌,
  attempt,
}
use call_recorder.Uploader.Spool.State.{Spool}
use call_recorder.Uploader.Spool.Methods.{on_error}

module _ (P : Spool → Type 0) where
  pub attempt-keeps :
      (o : Outcome) (whole part : Spool → Spool) (s : Spool)
      → P s
      → P (whole s)
      → P (part s)
      → P (attempt o whole part s).1
  unfolding attempt
  attempt-keeps done whole part s h w p = w
  attempt-keeps failed whole part s h w p = h
  attempt-keeps torn whole part s h w p = p
  attempt-keeps crash whole part s h w p = h
  attempt-keeps torn_crash whole part s h w p = p

  pub bind-keeps :
      {A B : Type 0} (r : Exit A × Spool) (f : A → Exec Spool B)
      → P r.1
      → ((a : A) (t : Spool) → P t → P (f a t).1)
      → P (((λ (u : Spool). r) >>= f) r.1).1
  bind-keeps (returned a, t) f h k = k a t h
  bind-keeps (refused e, t) f h k = h
  bind-keeps (crashed, t) f h k = h

  pub on_error-keeps :
      {A : Type 0} (r : Exit A × Spool) (handler : Exec Spool A) (s : Spool)
      → P r.1
      → ((t : Spool) → P t → P (handler t).1)
      → P (on_error (λ (u : Spool). r) handler s).1
  unfolding on_error
  on_error-keeps (returned a, t) handler s h k = h
  on_error-keeps (refused e, t) handler s h k = k t h
  on_error-keeps (crashed, t) handler s h k = h
