-- ===== src/Exec/Keeps.antt =====
-- A relation between the state before and after an action: one rule for each way to build one.
use unified_runtime_primitiv.Base.{Bool, true, false}
use unified_runtime_primitiv.Exec.{
  Exec, Exception, Result, ok, raised, pure, raise, continue, ◌>>=◌, require, handle, try,
}

-- Whether `m` returns or raises, `R` relates the states before and after.
pub record Keeps {S A : Type 0} (R : S → S → Type 0) (m : Exec S A) : Type 0 where
  pub at : (s : S) → R s (m s).1

-- The rules ask that `R` is reflexive and transitive.
pub record Preorder {S : Type 0} (R : S → S → Type 0) : Type 0 where
  pub same : (s : S) → R s s
  pub then : (s t u : S) → R s t → R t u → R s u

module _ {S : Type 0} {R : S → S → Type 0} (order : Preorder R) where
  pub Keeps-pure : {A : Type 0} (a : A) → Keeps R (pure a)
  Keeps-pure a = record { at = order.same }

  pub Keeps-raise : {A : Type 0} (e : Exception) → Keeps R (raise {A = A} e)
  Keeps-raise e = record { at = order.same }

  pub Keeps-require : (b : Bool) (e : Exception) → Keeps R (require b e)
  Keeps-require true e = record { at = order.same }
  Keeps-require false e = record { at = order.same }

  continue-keeps :
      {A B : Type 0} (r : Result A) (f : A → Exec S B) (s t : S)
      → R s t
      → ((a : A) → Keeps R (f a))
      → R s (continue (r, t) f).1
  continue-keeps (ok a) f s t h k = order.then s t _ h ((k a).at t)
  continue-keeps (raised e) f s t h k = h

  pub Keeps-bind :
      {A B : Type 0} (m : Exec S A) (f : A → Exec S B)
      → Keeps R m
      → ((a : A) → Keeps R (f a))
      → Keeps R (m >>= f)
  Keeps-bind m f km kf = record {
    at = λ s. let (r, t) = m s in continue-keeps r f s t (km.at s) kf;
  }

  handle-keeps :
      {A : Type 0} (r : Result A) (f : Exception → Exec S A) (s t : S)
      → R s t
      → ((e : Exception) → Keeps R (f e))
      → R s (handle (r, t) f).1
  handle-keeps (ok a) f s t h k = h
  handle-keeps (raised e) f s t h k = order.then s t _ h ((k e).at t)

  pub Keeps-try :
      {A : Type 0} (m : Exec S A) (f : Exception → Exec S A)
      → Keeps R m
      → ((e : Exception) → Keeps R (f e))
      → Keeps R (try m f)
  Keeps-try m f km kf = record { at = λ s. let (r, t) = m s in handle-keeps r f s t (km.at s) kf }
