-- ===== src/Exec.antt =====
-- Methods that run effects on a state and may raise. What was done before a raise stays done, so
-- the state comes back beside the error too.
pub mod Keeps
use ai_runtime.Prelude.{Option, none, some}
use ai_runtime.Errors.{Error, Result, ok, err}

abbrev pub Exec {ℓ} : Type ℓ → Type ℓ → Type ℓ
Exec S A = S → Result A × S

module _ {ℓ} {S A : Type ℓ} where
  abbrev pub pure : A → Exec S A
  pure a s = (ok a, s)

  abbrev pub raise : Error → Exec S A
  raise e s = (err e, s)

  -- A pure function that may raise.
  abbrev pub lift : Result A → Exec S A
  lift r s = (r, s)

  -- A read of the state.
  abbrev pub gets : (S → A) → Exec S A
  gets f s = (ok (f s), s)

  -- `if found is None: raise e`
  abbrev pub or_raise : Option A → Error → Exec S A
  or_raise none e s = (err e, s)
  or_raise (some a) e s = (ok a, s)

module _ {ℓ} {S A B : Type ℓ} where
  -- How a method goes on from what a call gave.
  abbrev pub continue : Result A → (A → Exec S B) → Exec S B
  continue (ok a) f s = f a s
  continue (err e) f s = (err e, s)

  infixl 5 ◌>>=◌ ◌>>◌
  abbrev pub ◌>>=◌ : Exec S A → (A → Exec S B) → Exec S B
  ◌>>=◌ m f s = let (r, s') = m s in continue r f s'

  abbrev pub ◌>>◌ : Exec S A → Exec S B → Exec S B
  m >> n = m >>= λ _. n

module _ {ℓ} {S A : Type ℓ} where
  abbrev pub handle : Result A → (Error → Exec S A) → Exec S A
  handle (ok a) h s = (ok a, s)
  handle (err e) h s = h e s

  -- `try: m` with `except Exception as err: h(err)`
  abbrev pub catch : Exec S A → (Error → Exec S A) → Exec S A
  catch m h s = let (r, s') = m s in handle r h s'

  -- A handler that runs `cleanup` and raises the error again.
  abbrev pub on_error : Exec S (Unit {ℓ}) → Exec S A → Exec S A
  on_error cleanup m = catch m (λ e. cleanup >> raise e)
