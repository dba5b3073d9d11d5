-- ===== src/Bulk/Examples.antt =====
-- Batches of src/functions/rdf_bulk.rs: one row, into an empty store.
use sqlite_sparql.Prelude.{
  List, [], ◌∷◌, ◌≡◌, ◌⊎◌, refl, true, false, SparqlError, ok, err, string_eq, contains,
  starts_with, to_set,
}
use sqlite_sparql.Rdf.{named_node, named_node_term, default_graph, Quad}
use sqlite_sparql.Rdf.Equality.{quad_eq, subject_eq, term_eq, triple_eq, graph_name_eq}
use sqlite_sparql.Oxigraph.ListStore.{list_store, list_store-IsQuadSet}
use sqlite_sparql.Oxigraph.Samples.{parsers, json, as_array, as_str}
use sqlite_sparql.Rows.{parse_rows}
use sqlite_sparql.Terms.{build_quad}
use sqlite_sparql.Bulk.{insert_many, delete_many}
use sqlite_sparql.Bulk.Counts.{Inserted, Removed, batch_atomic, delete_many-insert_many}

abbrev x : Quad
x = record {
  subject = named_node "urn:x";
  predicate = "urn:p";
  object = named_node_term "urn:y";
  graph_name = default_graph;
}

abbrev one_row : List Quad
one_row = x ∷ []

parsed : parse_rows parsers json "[…]" ≡ ok one_row
unfolding parse_rows as_array as_str build_quad starts_with
parsed = refl

nothing_there :
    (r : Quad) → contains one_row r ≡ true → contains (list_store-IsQuadSet.contents []) r ≡ false
unfolding to_set
nothing_there r m = refl

inserted_one : (insert_many list_store parsers json [] "[…]").1 ≡ ok 1
unfolding insert_many parse_rows as_array as_str build_quad starts_with to_set
inserted_one = refl

batch_atomic_example :
    ((e : SparqlError) × (parse_rows parsers json "[…]" ≡ err e)
      × (insert_many list_store parsers json [] "[…]" ≡ ([], err e))
      × (delete_many list_store parsers json [] "[…]" ≡ ([], err e)))
    ⊎ ((quads : List Quad) × (parse_rows parsers json "[…]" ≡ ok quads)
        × Inserted list_store list_store-IsQuadSet parsers json [] quads
            (insert_many list_store parsers json [] "[…]")
        × Removed list_store list_store-IsQuadSet parsers json [] 0 quads
            (delete_many list_store parsers json [] "[…]"))
batch_atomic_example = batch_atomic list_store list_store-IsQuadSet parsers json [] "[…]"

delete_many-insert_many_example :
    let s' = (insert_many list_store parsers json [] "[…]").0 in
    ((delete_many list_store parsers json s' "[…]").1 ≡ ok 1)
    × ((r : Quad)
        → contains
            (list_store-IsQuadSet.contents (delete_many list_store parsers json s' "[…]").0)
            r
          ≡ contains (list_store-IsQuadSet.contents []) r)
delete_many-insert_many_example =
    delete_many-insert_many list_store list_store-IsQuadSet parsers json [] "[…]" one_row 1 parsed
      nothing_there inserted_one
