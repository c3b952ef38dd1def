-- ===== src/Uploader/Effects.antt =====
-- Calls of the operating system. A plan gives each call its outcome: what it was asked for, an
-- error that changed nothing, an error after a part of it, or the death of the process before
-- it or in the middle of it. What a method wrote before an error or a crash stays written.
pub data Outcome : Type 0 where
  done failed torn crash torn_crash : Outcome

pub data Failure : Type 0 where
  io_error incomplete_manifest ledger_unreadable : Failure

pub data Exit {ℓ} (A : Type ℓ) : Type ℓ where
  returned : A → Exit A
  refused : Failure → Exit A
  crashed : Exit A

-- A method of an object whose state is `S`.
abbrev pub Exec {ℓ} : Type ℓ → Type ℓ → Type ℓ
Exec S A = S → Exit A × S

module _ {ℓ} {S A B : Type ℓ} where
  abbrev continue : Exit A → (A → Exec S B) → Exec S B
  continue (returned a) f s = f a s
  continue (refused e) f s = (refused e, s)
  continue crashed f s = (crashed, s)

  infixl 10 ◌>>=◌ ◌>>◌
  abbrev pub ◌>>=◌ : Exec S A → (A → Exec S B) → Exec S B
  ◌>>=◌ m f s = let r = m s in continue r.0 f r.1

  abbrev pub ◌>>◌ : Exec S A → Exec S B → Exec S B
  m >> n = m >>= λ _. n

module _ {ℓ} {S A : Type ℓ} where
  abbrev pub pure : A → Exec S A
  pure a s = (returned a, s)

  abbrev pub gets : (S → A) → Exec S A
  gets f s = (returned (f s), s)

-- A change of the state that cannot fail.
abbrev pub modify : {S : Type 0} → (S → S) → Exec S (Unit {0})
modify f s = (returned tt, f s)

-- A call whose whole effect is `whole`, and which may stop after `part` of it.
unfoldable pub attempt : {S : Type 0} → Outcome → (S → S) → (S → S) → Exec S (Unit {0})
attempt done whole part s = (returned tt, whole s)
attempt failed whole part s = (refused io_error, s)
attempt torn whole part s = (refused io_error, part s)
attempt crash whole part s = (crashed, s)
attempt torn_crash whole part s = (crashed, part s)

-- The calls that a method makes, each at most once in a run of it.
pub data Call : Type 0 where
  make_directories open_ledger write_compact replace_compact append_open read_pending : Call
  make_temporary write_audio write_manifest replace_manifest rename_temporary : Call
  remove_temporary append_ledger sync_ledger remove_item : Call

abbrev pub Plan : Type 0
Plan = Call → Outcome
