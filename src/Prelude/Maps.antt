-- ===== src/Prelude/Maps.antt =====
-- `HashMap` as an association list.
use mathlib.Core.Path.{◌≡◌}
use mathlib.Core.List.{List, [], ◌∷◌}
use mathlib.Core.Option.{Option, none, some}
use native.Mathlib.Omega.{arith}
use sqlite_sparql.Prelude.Tests.{Eq, ◌==◌, if◌then◌else◌}

abbrev pub HashMap {ℓ} : Type ℓ → Type ℓ → Type ℓ
HashMap K V = List (K × V)

-- `unwrap_or(d)`, `entry(k).or_default()`
abbrev pub or_default {ℓ} : {V : Type ℓ} → Option V → V → V
or_default (some v) d = v
or_default none d = d

module _ {ℓ} {K V : Type ℓ} ⦃e : Eq K⦄ where
  unfoldable pub get : HashMap K V → K → Option V
  get [] k = none
  get ((j, v) ∷ m) k = if j == k then some v else get m k

  unfoldable pub put : HashMap K V → K → V → HashMap K V
  put [] k v = (k, v) ∷ []
  put ((j, w) ∷ m) k v = if j == k then (k, v) ∷ m else (j, w) ∷ put m k v

  unfoldable pub remove_key : HashMap K V → K → HashMap K V
  remove_key [] k = []
  remove_key ((j, v) ∷ m) k = let rest = remove_key m k in if j == k then rest else (j, v) ∷ rest

  pub get-put :
      (m : HashMap K V) (k j : K) (v : V) → get (put m k v) j ≡ (if k == j then some v else get m j)
  unfolding get put
  get-put [] k j v = ground arith
  get-put ((i, w) ∷ m) k j v =
      ground (arith, get-put m k j v, e.beq_iff i k, e.beq_iff i j, e.beq_iff k j)

  pub get-remove_key :
      (m : HashMap K V) (k j : K) → get (remove_key m k) j ≡ (if k == j then none else get m j)
  unfolding get remove_key
  get-remove_key [] k j = ground arith
  get-remove_key ((i, w) ∷ m) k j =
      ground (arith, get-remove_key m k j, e.beq_iff i k, e.beq_iff i j, e.beq_iff k j)
