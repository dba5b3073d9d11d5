-- ===== src/Lists/Examples.antt =====
-- The walk of src/functions/rdf_owl_rl/rdf_lists.rs along a list of one value.
use sqlite_sparql.Prelude.{◌<◌, List, [], ◌∷◌, ◌≡◌, arith, Option, some, ok, string_eq, to_set}
use sqlite_sparql.Rdf.{blank_node, Term, named_node_term, default_graph, Quad}
use sqlite_sparql.Rdf.Equality.{quad_eq, subject_eq, term_eq, triple_eq, graph_name_eq, quad_beq}
use sqlite_sparql.Oxigraph.ListStore.{list_store, list_store-IsQuadSet}
use sqlite_sparql.Oxigraph.Sizes.{size}
use sqlite_sparql.Lists.{rdf_first, rdf_rest, rdf_nil, walk_list}
use sqlite_sparql.Lists.Walk.{walk_list-ends}

abbrev cell : List Quad
cell =
    record {
      subject = blank_node "l";
      predicate = rdf_first;
      object = named_node_term "v";
      graph_name = default_graph;
    }
    ∷ record {
      subject = blank_node "l";
      predicate = rdf_rest;
      object = named_node_term rdf_nil;
      graph_name = default_graph;
    }
    ∷ []

enough : size list_store list_store-IsQuadSet cell < 3
unfolding to_set quad_beq
enough = omega arith

walk_list-ends_example :
    (o : Option (List Term)) × (walk_list list_store cell 3 (blank_node "l") (default_graph ∷ [])
      ≡ some (ok o))
walk_list-ends_example =
    walk_list-ends list_store list_store-IsQuadSet cell (default_graph ∷ []) (blank_node "l") 3
      enough
