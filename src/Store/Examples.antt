-- ===== src/Store/Examples.antt =====
-- The operations of src/store.rs on a store of one quad.
use sqlite_sparql.Prelude.{
  suc, List, [], ◌∷◌, ◌≡◌, refl, false, not, ◌&&◌, ◌||◌, none, ok, ◌==◌, contains, starts_with,
  if◌then◌else◌,
}
use sqlite_sparql.Rdf.{named_node, named_node_term, default_graph, GraphName, Quad}
use sqlite_sparql.Rdf.Equality.{quad_eq, graph_name_eq}
use sqlite_sparql.Oxigraph.ListStore.{list_store, list_store-IsQuadSet}
use sqlite_sparql.Oxigraph.Samples.{parsers}
use sqlite_sparql.Terms.{build_quad}
use sqlite_sparql.Store.{insert_triple_in_graph, delete_triple_in_graph, count_graph}
use sqlite_sparql.Store.Counts.{insert_counted, delete_counted}

abbrev x : Quad
x = record {
  subject = named_node "urn:x";
  predicate = "urn:p";
  object = named_node_term "urn:y";
  graph_name = default_graph;
}

abbrev held : List Quad → List Quad
held s = list_store-IsQuadSet.contents s

accepted_x : build_quad parsers "urn:x" "urn:p" "urn:y" none ≡ ok x
unfolding build_quad starts_with
accepted_x = refl

insert_counted_example :
    let out = insert_triple_in_graph list_store parsers [] "urn:x" "urn:p" "urn:y" none in
    (out.1 ≡ ok tt)
    × ((r : Quad) → contains (held out.0) r ≡ (x == r || contains (held []) r))
    × ((g : GraphName)
        → count_graph list_store parsers out.0 g ≡ (
            if x.graph_name == g && not (contains (held []) x)
            then suc (count_graph list_store parsers [] g)
            else count_graph list_store parsers [] g))
insert_counted_example =
    insert_counted list_store parsers list_store-IsQuadSet [] "urn:x" "urn:p" "urn:y" none x
      accepted_x

delete_counted_example :
    let out = delete_triple_in_graph list_store parsers (x ∷ []) "urn:x" "urn:p" "urn:y" none in
    (out.1 ≡ ok tt)
    × ((r : Quad)
        → contains (held out.0) r ≡ (if x == r then false else contains (held (x ∷ [])) r))
    × ((g : GraphName)
        → count_graph list_store parsers (x ∷ []) g ≡ (
            if x.graph_name == g && contains (held (x ∷ [])) x
            then suc (count_graph list_store parsers out.0 g)
            else count_graph list_store parsers out.0 g))
delete_counted_example =
    delete_counted list_store parsers list_store-IsQuadSet (x ∷ []) "urn:x" "urn:p" "urn:y" none x
      accepted_x
