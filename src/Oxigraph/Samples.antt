-- ===== src/Oxigraph/Samples.antt =====
-- Concrete instances of the other two interfaces, which the examples use: term constructors that
-- accept every text, and JSON values in which every text decodes to one row.
use sqlite_sparql.Prelude.{String, List, [], ◌∷◌, false, Option, none, some}
use sqlite_sparql.Oxigraph.{TermParsers, Json}

abbrev pub parsers : TermParsers
parsers = record {
  new_named_node = λ s. some s;
  new_blank_node = λ s. some s;
  new_language_tagged_literal =
      λ v t. some (record { value = v; datatype = "rdf:langString"; language = some t });
  new_typed_literal = λ v d. record { value = v; datatype = d; language = none };
  new_simple_literal = λ v. record { value = v; datatype = "xsd:string"; language = none };
  first_quad = λ s. none;
}

pub data Value : Type 0 where
  text : String → Value
  row : String → String → String → Value
  rows : Value

unfoldable pub as_array : Value → Option (List Value)
as_array (text s) = none
as_array (row s p o) = some (text s ∷ text p ∷ text o ∷ [])
as_array rows = some (row "urn:x" "urn:p" "urn:y" ∷ [])

unfoldable pub as_str : Value → Option String
as_str (text s) = some s
as_str _ = none

abbrev pub json : Json
json = record {
  Value = Value;
  from_str = λ s. some rows;
  from_str_vec = λ s. some (row "urn:x" "urn:p" "urn:y" ∷ []);
  as_array = as_array;
  as_str = as_str;
  is_null = λ v. false;
}
