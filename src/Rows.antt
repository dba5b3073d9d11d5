-- ===== src/Rows.antt =====
-- The rows of the JSON arguments: `parse_rows` of src/functions/rdf_bulk.rs and
-- `parse_retracted_json` of src/functions/rdf_dred.rs. A message's row number is left out.
mod Examples
pub mod Agreement
use sqlite_sparql.Prelude.{
  ℕ, String, List, [], ◌∷◌, Bool, true, false, not, ◌&&◌, ◌||◌, Option, none, some, Result, ok, err,
  invalid_argument, json_error, ◌>>=◌, ok_or, HashSet, insert, length, ltb, if◌then◌else◌,
}
use sqlite_sparql.Rdf.{Quad}
use sqlite_sparql.Rdf.Equality.{quad_eq}
use sqlite_sparql.Oxigraph.{TermParsers, Json}
use sqlite_sparql.Terms.{build_quad}

module _ (api : TermParsers) (json : Json) where
  open json use {Value, from_str, from_str_vec, as_array, as_str, is_null}

  unfoldable pub row_string : Value → Result String
  row_string v = ok_or (as_str v) (invalid_argument "row {row_idx}: {field} must be a string")

  -- `build_row_quad`: the error of `build_quad` under a row number
  unfoldable pub build_row_quad : String → String → String → Option String → Result Quad
  build_row_quad s p o graph = elim (build_quad api s p o graph) [
    | ok quad ↦ ok quad
    | err _ ↦ err (invalid_argument "row {row_idx}: {e}")
  ]

  -- the match on `row_arr.len()`
  unfoldable pub row_fields : List Value → Result (Value × Value × Value × Option Value)
  row_fields (s ∷ p ∷ o ∷ []) = ok (s, p, o, none)
  row_fields (s ∷ p ∷ o ∷ g ∷ []) = ok (s, p, o, some g)
  row_fields _ = err (invalid_argument "row {i}: expected 3 or 4 elements, got {n}")

  unfoldable pub row_graph : Option Value → Result (Option String)
  unfolding row_string
  row_graph none = ok none
  row_graph (some v) = if is_null v then ok none else (row_string v >>= λ g. ok (some g))

  unfoldable pub parse_row : Value → Result Quad
  unfolding row_fields row_string row_graph build_row_quad
  parse_row row = do
    row_arr ← ok_or (as_array row) (invalid_argument "row {i}: expected JSON array")
    fields ← row_fields row_arr
    s ← row_string fields.0
    p ← row_string fields.1
    o ← row_string fields.2
    g_opt ← row_graph fields.3
    build_row_quad s p o g_opt

  unfoldable pub parse_each : List Value → Result (List Quad)
  unfolding parse_row
  parse_each [] = ok []
  parse_each (row ∷ rows) = do quad ← parse_row row; quads ← parse_each rows; ok (quad ∷ quads)

  unfoldable pub parse_rows : String → Result (List Quad)
  unfolding parse_each
  parse_rows text = do
    outer ← ok_or (from_str_vec text) (json_error "JSON error: {0}")
    parse_each outer

  -- `string_field`
  unfoldable pub string_field : Value → Result String
  string_field v =
      ok_or (as_str v) (invalid_argument "rdf_dred_overdelete: row {idx}: {name} must be a string")

  abbrev pub retracted_fields : List Value → Result (Value × Value × Value × Option Value)
  retracted_fields (s ∷ p ∷ o ∷ []) = ok (s, p, o, none)
  retracted_fields (s ∷ p ∷ o ∷ g ∷ []) = ok (s, p, o, if is_null g then none else some g)
  retracted_fields _ = err (
      invalid_argument
        "rdf_dred_overdelete: row {idx} must have 3 or 4 elements (subject, predicate, object[, graph])")

  unfoldable pub retracted_graph : Option Value → Result (Option String)
  unfolding string_field
  retracted_graph none = ok none
  retracted_graph (some g) = string_field g >>= λ t. ok (some t)

  unfoldable pub parse_retracted_row : Value → Result Quad
  unfolding string_field retracted_graph
  parse_retracted_row row = do
    arr ←
        ok_or (as_array row) (invalid_argument "rdf_dred_overdelete: row {idx} is not a JSON array")
    fields ← retracted_fields arr
    s ← string_field fields.0
    p ← string_field fields.1
    o ← string_field fields.2
    g ← retracted_graph fields.3
    build_quad api s p o g

  -- the loop of `parse_retracted_json`, with the set `out`
  unfoldable pub collect_retracted : HashSet Quad → List Value → Result (HashSet Quad)
  unfolding parse_retracted_row
  collect_retracted out [] = ok out
  collect_retracted out (row ∷ rows) = do
    quad ← parse_retracted_row row
    collect_retracted (insert out quad) rows

  unfoldable pub parse_retracted_json : String → Result (HashSet Quad)
  unfolding collect_retracted
  parse_retracted_json text = do
    parsed ←
        ok_or (from_str text)
          (invalid_argument "rdf_dred_overdelete: retracted_premises_json parse error: {e}")
    rows ← ok_or (as_array parsed) (
        invalid_argument
          "rdf_dred_overdelete: retracted_premises_json must be a JSON array of [s, p, o] or [s, p, o, graph] rows")
    collect_retracted [] rows
