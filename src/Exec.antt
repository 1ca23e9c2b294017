-- ===== src/Exec.antt =====
-- Methods that change an object and may raise: Python's exceptions as values. What was written
-- before a raise stays written, so the state comes back beside the exception too. Rules for
-- reasoning about actions are in the child.
pub mod Keeps
use unified_runtime_primitiv.Base.{String, Option, Bool, true, false}
use unified_runtime_primitiv.Data.{ProcessResult}

-- What may be raised. The first three are the program's own classes; `other_error` is any other
-- subclass of `Exception`, and `base_exception` one that is a `BaseException` alone, as
-- `KeyboardInterrupt` is. The program tells no more of them apart.
pub data Exception : Type 0 where
  postconditions_violated : Option ProcessResult → String → Exception
  preconditions_violated : String → Exception
  start_preconditions_violated : String → Exception
  runtime_error value_error : String → Exception
  timeout_error cancelled_error : Exception
  other_error base_exception : String → Exception

pub data Result (A : Type 0) : Type 0 where
  ok : A → Result A
  raised : Exception → Result A

-- An `Exception`, as opposed to a `BaseException` alone.
abbrev pub IsOrdinary : Exception → Type 0
IsOrdinary cancelled_error = ⊥
IsOrdinary (base_exception t) = ⊥
IsOrdinary _ = Unit

-- It returns, or raises an `Exception`.
abbrev pub Returns : {A : Type 0} → Result A → Type 0
Returns (ok a) = Unit
Returns (raised e) = IsOrdinary e

abbrev pub Exec : Type 0 → Type 0 → Type 0
Exec S A = S → Result A × S

abbrev pub ⊤ : Type 0
⊤ = Unit

abbrev pub pure : {S A : Type 0} → A → Exec S A
pure a s = (ok a, s)

abbrev pub raise : {S A : Type 0} → Exception → Exec S A
raise e s = (raised e, s)

abbrev pub gets : {S A : Type 0} → (S → A) → Exec S A
gets f s = (ok (f s), s)

abbrev pub modify : {S : Type 0} → (S → S) → Exec S ⊤
modify f s = (ok tt, f s)

abbrev pub continue : {S A B : Type 0} → Result A × S → (A → Exec S B) → Result B × S
continue (ok a, s) f = f a s
continue (raised e, s) f = (raised e, s)

infixl 5 ◌>>=◌ ◌>>◌
abbrev pub ◌>>=◌ : {S A B : Type 0} → Exec S A → (A → Exec S B) → Exec S B
◌>>=◌ m f s = continue (m s) f

abbrev pub ◌>>◌ : {S A B : Type 0} → Exec S A → Exec S B → Exec S B
m >> n = m >>= λ _. n

-- `if not test: raise e`
abbrev pub require : {S : Type 0} → Bool → Exception → Exec S ⊤
require true e = pure tt
require false e = raise e

-- `try: m` with `handler` for its `except` clauses, which raises again what none of them names.
abbrev pub handle : {S A : Type 0} → Result A × S → (Exception → Exec S A) → Result A × S
handle (ok a, s) handler = (ok a, s)
handle (raised e, s) handler = handler e s

abbrev pub try : {S A : Type 0} → Exec S A → (Exception → Exec S A) → Exec S A
try m handler s = handle (m s) handler

-- `try: m finally: cleanup`. What the cleanup raises comes in place of what `m` did.
abbrev pub finish : {S A : Type 0} → Result A → Result ⊤ × S → Result A × S
finish r (ok _, s) = (r, s)
finish r (raised e, s) = (raised e, s)

abbrev pub finally : {S A : Type 0} → Exec S A → Exec S ⊤ → Exec S A
finally m cleanup s = let (r, s') = m s in finish r (cleanup s')
