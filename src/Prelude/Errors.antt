-- ===== src/Prelude/Errors.antt =====
-- src/error.rs: the errors of the crate and its `Result`. The message that a variant carries is
-- the format string of the source, with its places unfilled.
use Prim.Native.String.{String}
use mathlib.Core.Path.{◌≡◌, refl}
use mathlib.Core.Logic.{◌⊎◌, inl, inr}
use mathlib.Core.Option.{Option, none, some}

pub data SparqlError : Type 0 where
  parse_error eval_error rdf_parse_error rdf_serialize_error : String → SparqlError
  invalid_argument store_error json_error utf8_error : String → SparqlError
  rdf_star_unsupported : SparqlError

-- The variants stand as in Rust's `Result<T>` of this module, whose error type is fixed.
pub data Result {ℓ} (T : Type ℓ) : Type ℓ where
  err : SparqlError → Result T
  ok : T → Result T

-- the `?` operator, followed by what uses its value
infixl 5 ◌>>=◌
abbrev pub ◌>>=◌ {ℓ κ} : {T : Type ℓ} {U : Type κ} → Result T → (T → Result U) → Result U
err e >>= next = err e
ok value >>= next = next value

-- `o.ok_or_else(|| e)`
abbrev pub ok_or {ℓ} : {A : Type ℓ} → Option A → SparqlError → Result A
ok_or (some a) e = ok a
ok_or none e = err e

-- a block that returns has got past its first `?`
pub >>=-eq-ok {ℓ κ} :
    {T : Type ℓ} {U : Type κ} {u : U} (r : Result T) (next : T → Result U)
    → (r >>= next) ≡ ok u
    → (value : T) × (r ≡ ok value) × (next value ≡ ok u)
>>=-eq-ok (err e) next h = cc
>>=-eq-ok (ok value) next h = (value, refl, h)

pub Result-cases {ℓ} :
    {A : Type ℓ} (r : Result A) → ((a : A) × (r ≡ ok a)) ⊎ ((e : SparqlError) × (r ≡ err e))
Result-cases (ok a) = inl (a, refl)
Result-cases (err e) = inr (e, refl)

pub ok-injective {ℓ} : {A : Type ℓ} {a b : A} → ok a ≡ ok b → a ≡ b
ok-injective h = cc h
