-- ===== src/Owl/Inconsistency/Integers.antt =====
-- The integers that literal_violates_datatype of src/functions/rdf_owl_rl/inconsistency.rs accepts.
use Prim.Native.Nat.{◌^◌}
use Prim.Native.String.{[], ◌∷◌}
use sqlite_sparql.Prelude.{
  ℕ, ◌≤◌, String, ◌≡◌, ◌↔◌, true, none, some, arith, digits, digits_value, parse_i64, ltb, pos,
  if◌then◌else◌,
}
use sqlite_sparql.Rdf.{NamedNode, Literal}
use sqlite_sparql.Owl.Inconsistency.Datatypes.{literal_violates_datatype}

abbrev pub xsd_integer : NamedNode
xsd_integer = "http://www.w3.org/2001/XMLSchema#integer"

abbrev pub integer_literal : String → Literal
integer_literal s = record { value = s; datatype = xsd_integer; language = none }

parse_i64-digits :
    (s : String) (n : ℕ)
    → digits s ≡ some n
    → parse_i64 s ≡ (if ltb n (2 ^ 63) then some (pos n) else none)
unfolding parse_i64 digits digits_value
parse_i64-digits [] n h = cc
parse_i64-digits (c ∷ s) n h = ground (arith, h)

-- A literal of xsd:integer that is a text of digits violates its datatype exactly from 2^63 on, although
-- every such text is in the lexical space of that datatype.
pub integer_refused :
    (s : String) (n : ℕ)
    → digits s ≡ some n
    → (literal_violates_datatype (integer_literal s) ≡ true) ↔ (2 ^ 63 ≤ n)
unfolding literal_violates_datatype
integer_refused s n h = ground (arith, parse_i64-digits s n h)
