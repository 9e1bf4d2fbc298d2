-- ===== src/Base/Command.antt =====
-- Commands over a state: what a call returns with the new state, or how it goes wrong.
use mathlib.Core.Path.{◌≡◌}
use mathlib.Core.Bool.{Bool}
use secmem_alloc.Base.Tests.{if◌then◌else◌}

-- A failed debug assertion or an arithmetic overflow of a debug build, an abort of the process,
-- and a use of memory that Rust leaves undefined.
pub data Fault : Type 0 where
  panic abort undefined_behaviour : Fault

pub data Outcome (A : Type 0) : Type 0 where
  done : A → Outcome A
  fault : Fault → Outcome A

abbrev pub M : Type 0 → Type 0 → Type 0
M S A = S → Outcome (A × S)

abbrev pub and_then : {S A B : Type 0} → Outcome (A × S) → (A → M S B) → Outcome (B × S)
and_then (done (a, s)) f = f a s
and_then (fault e) f = fault e

infixl 5 ◌>>=◌ ◌>>◌
abbrev pub ◌>>=◌ : {S A B : Type 0} → M S A → (A → M S B) → M S B
◌>>=◌ m f s = and_then (m s) f

abbrev pub ◌>>◌ : {S B : Type 0} → M S (Unit {0}) → M S B → M S B
◌>>◌ m k s = and_then (m s) (λ _. k)

abbrev pub pure : {S A : Type 0} → A → M S A
pure a s = done (a, s)

abbrev pub throw : {S A : Type 0} → Fault → M S A
throw e s = fault e

abbrev pub gets : {S A : Type 0} → (S → A) → M S A
gets f s = done (f s, s)

abbrev pub modify : {S : Type 0} → (S → S) → M S (Unit {0})
modify f s = done (tt, f s)

-- `debug_assert!`, and `debug_checked_precondition!` of `mirai_annotations`, in a debug build.
abbrev pub debug_assert : {S : Type 0} → Bool → M S (Unit {0})
debug_assert b = if b then pure tt else throw panic

-- Rust's `Result`.
pub data Result (A E : Type 0) : Type 0 where
  ok : A → Result A E
  err : E → Result A E

-- A command has one outcome.
pub done_inj : {A : Type 0} {a b : A} {o : Outcome A} → o ≡ done a → o ≡ done b → a ≡ b
done_inj p q = cc
