-- ===== src/Prelude/Fuel.antt =====
-- Fallible code whose recursion or loop is on fuel. `none` is a run that has used it up.
use mathlib.Core.Path.{◌≡◌, refl}
use mathlib.Core.Logic.{◌⊎◌, inl, inr}
use mathlib.Core.Option.{Option, none, some}
use sqlite_sparql.Prelude.Errors.{Result, SparqlError, ok, err}

abbrev pub Fueled : Type 0 → Type 0
Fueled A = Option (Result A)

-- the `?` operator over it
infixl 5 ◌>>=◌
abbrev pub ◌>>=◌ : {A B : Type 0} → Fueled A → (A → Fueled B) → Fueled B
none >>= f = none
some (err e) >>= f = some (err e)
some (ok a) >>= f = f a

pub Fueled-cases :
    {A : Type 0} (m : Fueled A)
    → ((a : A) × (m ≡ some (ok a))) ⊎ ((m ≡ none) ⊎ ((e : SparqlError) × (m ≡ some (err e))))
Fueled-cases none = inr (inl refl)
Fueled-cases (some (ok a)) = inl (a, refl)
Fueled-cases (some (err e)) = inr (inr (e, refl))
