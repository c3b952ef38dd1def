-- ===== src/Uploader/Spool/Ensures.antt =====
-- A method keeps the invariant of `durableSpool` on every outcome of its calls, and ensures more
-- where it returns.
use call_recorder.Uploader.Effects.{
  Outcome, done, failed, torn, crash, torn_crash, Exit, returned, refused, crashed, Exec, ◌>>=◌,
  attempt,
}
use call_recorder.Uploader.Spool.State.{Spool}
use call_recorder.Uploader.Spool.Methods.{on_error}
use call_recorder.Uploader.Spool.Invariant.{IsConsistent}

abbrev pub Ensures : {A : Type 0} → (A → Spool → Type 0) → Exit A × Spool → Type 0
Ensures Q (returned a, t) = IsConsistent t × Q a t
Ensures Q (_, t) = IsConsistent t

pub Ensures-bind :
    {A B : Type 0} (Q : A → Spool → Type 0) (R : B → Spool → Type 0) (r : Exit A × Spool)
    (f : A → Exec Spool B)
    → Ensures Q r
    → ((a : A) (t : Spool) → IsConsistent t → Q a t → Ensures R (f a t))
    → Ensures R (((λ (u : Spool). r) >>= f) r.1)
Ensures-bind Q R (returned a, t) f h k = k a t h.0 h.1
Ensures-bind Q R (refused e, t) f h k = h
Ensures-bind Q R (crashed, t) f h k = h

-- A call of which no part can be done.
pub Ensures-attempt :
    (Q : Unit {0} → Spool → Type 0) (o : Outcome) (whole part : Spool → Spool) (s : Spool)
    → IsConsistent s
    → IsConsistent (whole s)
    → IsConsistent (part s)
    → Q tt (whole s)
    → Ensures Q (attempt o whole part s)
unfolding attempt
Ensures-attempt Q done whole part s h w p q = (w, q)
Ensures-attempt Q failed whole part s h w p q = h
Ensures-attempt Q torn whole part s h w p q = p
Ensures-attempt Q crash whole part s h w p q = h
Ensures-attempt Q torn_crash whole part s h w p q = p

pub Ensures-IsConsistent :
    {A : Type 0} (Q : A → Spool → Type 0) (r : Exit A × Spool) → Ensures Q r → IsConsistent r.1
Ensures-IsConsistent Q (returned a, t) h = h.0
Ensures-IsConsistent Q (refused e, t) h = h
Ensures-IsConsistent Q (crashed, t) h = h

pub Ensures-on_error :
    {A : Type 0} (Q : A → Spool → Type 0) (r : Exit A × Spool) (handler : Exec Spool A) (s : Spool)
    → Ensures Q r
    → ((t : Spool) → IsConsistent t → Ensures Q (handler t))
    → Ensures Q (on_error (λ (u : Spool). r) handler s)
unfolding on_error
Ensures-on_error Q (returned a, t) handler s h k = h
Ensures-on_error Q (refused e, t) handler s h k = k t h
Ensures-on_error Q (crashed, t) handler s h k = h

pub Ensures-trivial :
    {A : Type 0} (r : Exit A × Spool) → IsConsistent r.1 → Ensures (λ _ _. Unit {0}) r
Ensures-trivial (returned a, t) h = (h, tt)
Ensures-trivial (refused e, t) h = h
Ensures-trivial (crashed, t) h = h
