-- ===== src/Dred/Examples.antt =====
-- Over-deletion in src/functions/rdf_dred.rs: `z` is derived from `x`, which is retracted.
use sqlite_sparql.Prelude.{[], ◌∷◌, ◌≡◌, ◌⊎◌, some, SparqlError, ok, err, string_eq, HashSet}
use sqlite_sparql.Rdf.{named_node, named_node_term, default_graph, named_graph, Quad}
use sqlite_sparql.Rdf.Equality.{quad_eq, subject_eq, term_eq, triple_eq, graph_name_eq}
use sqlite_sparql.Oxigraph.ListStore.{list_store, list_store-IsQuadSet}
use sqlite_sparql.Oxigraph.Samples.{parsers, json}
use sqlite_sparql.DependencyIndex.{empty_index, record_derivation}
use sqlite_sparql.DependencyIndex.Invariant.{IsWellFormed, empty-IsWellFormed, record-IsWellFormed}
use sqlite_sparql.Dred.{World, checked_premises, rdf_dred_overdelete}
use sqlite_sparql.Dred.Correct.{Overdeleted, overdelete_correct}

abbrev x : Quad
x = record {
  subject = named_node "urn:x";
  predicate = "urn:p";
  object = named_node_term "urn:y";
  graph_name = default_graph;
}

abbrev z : Quad
z = record {
  subject = named_node "urn:z";
  predicate = "urn:p";
  object = named_node_term "urn:y";
  graph_name = named_graph "urn:i";
}

abbrev world : World list_store
world = record { store = z ∷ []; index = record_derivation empty_index z (x ∷ []) }

world-IsWellFormed : IsWellFormed world.index
world-IsWellFormed = record-IsWellFormed empty_index z (x ∷ []) empty-IsWellFormed

overdelete_correct_example :
    ((e : SparqlError) × (rdf_dred_overdelete list_store parsers json world
          (some "urn:i")
          (some "[…]")
        ≡ (world, err e)))
    ⊎ ((retracted : HashSet Quad) × (checked_premises list_store parsers json
            (some "urn:i")
            (some "[…]")
          ≡ ok retracted)
        × Overdeleted list_store list_store-IsQuadSet parsers json world retracted
            (rdf_dred_overdelete list_store parsers json world (some "urn:i") (some "[…]")))
overdelete_correct_example =
    overdelete_correct list_store list_store-IsQuadSet parsers json world (some "urn:i")
      (some "[…]") world-IsWellFormed
