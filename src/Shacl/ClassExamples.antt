-- ===== src/Shacl/ClassExamples.antt =====
-- The instance check of sh:class on a small graph, whose subclass axioms go in a circle.
use sqlite_sparql.Prelude.{
  ◌+◌, ◌<◌, List, [], ◌∷◌, ◌≡◌, ◌↔◌, refl, arith, Bool, true, false, some, ok, contains, string_eq,
  to_set,
}
use sqlite_sparql.Rdf.{NamedNode, named_node, named_node_term, default_graph, Quad}
use sqlite_sparql.Rdf.Equality.{quad_eq, quad_beq, graph_name_beq}
use sqlite_sparql.Rdf.Coercions.{term_to_named}
use sqlite_sparql.Oxigraph.{matches}
use sqlite_sparql.Oxigraph.ListStore.{list_store, list_store-IsQuadSet}
use sqlite_sparql.Oxigraph.Sizes.{size}
use sqlite_sparql.Graphs.{rdf_type}
use sqlite_sparql.Graphs.Holds.{quad}
use sqlite_sparql.Owl.Vocabulary.{rdfs_sub_class_of}
use sqlite_sparql.Shacl.Evaluators.{instance_of}
use sqlite_sparql.Shacl.Instances.{Reaches, instance_of_lem}

abbrev link : NamedNode → NamedNode → NamedNode → Quad
link x p y = quad (named_node x) p (named_node_term y) default_graph

abbrev zoo : List Quad
zoo =
    link "tom" rdf_type "cat"
    ∷ link "cat" rdfs_sub_class_of "mammal"
    ∷ link "mammal" rdfs_sub_class_of "animal"
    ∷ link "animal" rdfs_sub_class_of "mammal"
    ∷ []

an_animal : instance_of list_store zoo default_graph 9 (named_node "tom") "animal" ≡ some (ok true)
unfolding instance_of to_set quad_beq matches graph_name_beq term_to_named
an_animal = refl

no_plant : instance_of list_store zoo default_graph 9 (named_node "tom") "plant" ≡ some (ok false)
unfolding instance_of to_set quad_beq matches graph_name_beq term_to_named
no_plant = refl

zoo-enough : size list_store list_store-IsQuadSet zoo + size list_store list_store-IsQuadSet zoo < 9
unfolding to_set quad_beq
zoo-enough = omega arith

instance_of_lem_example :
    (b : Bool) × (instance_of list_store zoo default_graph 9 (named_node "tom") "animal"
      ≡ some (ok b))
    × ((b ≡ true) ↔ (
        (c : NamedNode) × (contains zoo
            (quad (named_node "tom") rdf_type (named_node_term c) default_graph)
          ≡ true)
        × Reaches list_store list_store-IsQuadSet zoo default_graph c "animal"))
unfolding quad_beq to_set
instance_of_lem_example =
    instance_of_lem list_store list_store-IsQuadSet zoo default_graph 9 (named_node "tom") "animal"
      zoo-enough
