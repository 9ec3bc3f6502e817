-- ===== src/Exec/Keeps.antt =====
-- What a method leaves alone, and what its result says of its parts, over the combinators of Exec.
use ai_runtime.Prelude.{◌≡◌, refl}
use ai_runtime.Errors.{Result, ok, err}
use ai_runtime.Exec.{Exec, lift, continue, ◌>>=◌}

module _ {S : Type 0} (P : S → Type 0) where
  -- A run from a state with `P` ends in one.
  abbrev pub Keeps : {A : Type 0} → Exec S A → Type 0
  Keeps m = (s : S) → P s → P (m s).1

  module _ {A B : Type 0} where
    continue-Keeps :
        (r : Result A) (f : A → Exec S B) → ((a : A) → Keeps (f a)) → Keeps (continue r f)
    continue-Keeps (ok a) f k s h = k a s h
    continue-Keeps (err e) f k s h = h

    pub bind-Keeps :
        (m : Exec S A) (f : A → Exec S B) → Keeps m → ((a : A) → Keeps (f a)) → Keeps (m >>= f)
    bind-Keeps m f k l s h = continue-Keeps (m s).0 f l (m s).1 (k s h)

  pub lift-Keeps : {A : Type 0} (r : Result A) → Keeps (lift r)
  lift-Keeps r s h = h

module _ {S A B : Type 0} where
  -- A chain that returned: its first part returned, and the rest went on from there.
  pub continue_ok :
      (r : Result A) (f : A → Exec S B) (s : S) (b : B)
      → (continue r f s).0 ≡ ok b
      → (a : A) × (r ≡ ok a) × ((f a s).0 ≡ ok b)
  continue_ok (ok a) f s b h = (a, refl, h)
  continue_ok (err e) f s b h = cc
