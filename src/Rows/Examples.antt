-- ===== src/Rows/Examples.antt =====
-- The two readers of rows on a text of one row.
use sqlite_sparql.Prelude.{List, ◌≡◌, refl, ok, string_eq, contains, HashSet}
use sqlite_sparql.Rdf.{Quad}
use sqlite_sparql.Rdf.Equality.{quad_eq, subject_eq, term_eq, triple_eq, graph_name_eq}
use sqlite_sparql.Oxigraph.Samples.{parsers, json, as_array}
use sqlite_sparql.Rows.{parse_rows, parse_retracted_json}
use sqlite_sparql.Rows.Agreement.{rows_agree}
use mathlib.Core.Option

same_decoding : json.from_str_vec "[…]" ≡ Option.bind (json.from_str "[…]") json.as_array
unfolding Option.bind as_array
same_decoding = refl

rows_agree_example :
    ((quads : List Quad)
      → parse_rows parsers json "[…]" ≡ ok quads
      → (set : HashSet Quad) × (parse_retracted_json parsers json "[…]" ≡ ok set)
        × ((q : Quad) → contains set q ≡ contains quads q))
    × ((set : HashSet Quad)
        → parse_retracted_json parsers json "[…]" ≡ ok set
        → (quads : List Quad) × (parse_rows parsers json "[…]" ≡ ok quads))
rows_agree_example = rows_agree parsers json "[…]" same_decoding
