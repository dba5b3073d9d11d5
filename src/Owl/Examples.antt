-- ===== src/Owl/Examples.antt =====
-- The rules of src/functions/rdf_owl_rl/rules.rs on a small store, in which each of them derives
-- something.
use sqlite_sparql.Prelude.{
  List, [], ◌∷◌, ◌≡◌, refl, false, ok, Derives, ◌==◌, string_eq, to_set, joined, get, group, put,
}
use sqlite_sparql.Rdf.{
  NamedNode, Subject, named_node, Term, named_node_term, mk_triple, GraphName, default_graph,
  named_graph, Quad,
}
use sqlite_sparql.Rdf.Equality.{
  subject_eq, term_eq, triple_eq, quad_eq, graph_name_eq, quad_beq, graph_name_beq,
}
use sqlite_sparql.Rdf.Coercions.{subj_to_term, term_to_subj}
use sqlite_sparql.Oxigraph.{matches}
use sqlite_sparql.Oxigraph.ListStore.{list_store, list_store-IsQuadSet}
use sqlite_sparql.Graphs.{rdf_type, pairs_for_predicate}
use sqlite_sparql.Graphs.Holds.{quad, In}
use sqlite_sparql.Owl.Vocabulary.{
  rdfs_sub_class_of, rdfs_sub_property_of, rdfs_domain, owl_equivalent_class,
  owl_equivalent_property, owl_inverse_of, owl_same_as, owl_transitive_property,
  owl_symmetric_property, owl_class,
}
use sqlite_sparql.Owl.Rules.{transitive_closure}
use sqlite_sparql.Owl.Equality.{apply_eq_rep_s}
use sqlite_sparql.Owl.Tracked.{transitive_closure_tracked, apply_cax_sco_tracked}
use sqlite_sparql.Owl.Tracked.Premises.{
  IsPremise, derived_eq, transitive_closure_tracked_lem, apply_cax_sco_tracked_lem,
}
use sqlite_sparql.Owl.Equality.Replaced.{apply_eq_rep_s_lem}

abbrev inferred : GraphName
inferred = named_graph "urn:inferred"

abbrev link : NamedNode → NamedNode → NamedNode → Quad
link x p y = quad (named_node x) p (named_node_term y) default_graph

abbrev knowledge : List Quad
knowledge =
    link "cat" rdfs_sub_class_of "mammal"
    ∷ link "mammal" rdfs_sub_class_of "animal"
    ∷ link "animal" rdfs_sub_class_of "mammal"
    ∷ link "tom" rdf_type "cat"
    ∷ link "cat" rdf_type owl_class
    ∷ link "cat" owl_equivalent_class "feline"
    ∷ link "chases" rdfs_domain "cat"
    ∷ link "hunts" rdfs_sub_property_of "chases"
    ∷ link "hunts" owl_equivalent_property "stalks"
    ∷ link "tom" "hunts" "jerry"
    ∷ link "tom" "chases" "jerry"
    ∷ link "hunts" owl_same_as "preys_on"
    ∷ link "tom" owl_same_as "thomas"
    ∷ link "near" rdf_type owl_symmetric_property
    ∷ link "tom" "near" "spike"
    ∷ link "above" rdf_type owl_transitive_property
    ∷ link "roof" "above" "floor"
    ∷ link "floor" "above" "cellar"
    ∷ link "chases" owl_inverse_of "chased_by"
    ∷ []

-- one step of the subclass closure, computed
transitive_closure_test :
    transitive_closure list_store
      (link "cat" rdfs_sub_class_of "mammal" ∷ link "mammal" rdfs_sub_class_of "animal" ∷ [])
      rdfs_sub_class_of
      default_graph
      inferred
    ≡ ok (mk_triple (named_node "cat") rdfs_sub_class_of (named_node_term "animal") ∷ [])
unfolding transitive_closure pairs_for_predicate graph_name_beq to_set quad_beq matches joined
    term_to_subj get group put
transitive_closure_test = refl

apply_eq_rep_s_lem_example :
    Derives (apply_eq_rep_s list_store knowledge default_graph inferred) (λ t.
      (x x2 : Subject) × (p : NamedNode) × (y : Term) × In list_store list_store-IsQuadSet knowledge
        default_graph inferred x p y
      × In list_store list_store-IsQuadSet knowledge default_graph inferred x owl_same_as
          (subj_to_term x2)
      × ((x == x2) ≡ false)
      × (t ≡ mk_triple x2 p y))
apply_eq_rep_s_lem_example =
    apply_eq_rep_s_lem list_store list_store-IsQuadSet knowledge default_graph inferred

transitive_closure_tracked_lem_example :
    Derives
      (transitive_closure_tracked list_store knowledge rdfs_sub_class_of default_graph inferred)
      (λ d.
        (q r : Quad) × IsPremise list_store list_store-IsQuadSet knowledge default_graph inferred
          rdfs_sub_class_of q
        × IsPremise list_store list_store-IsQuadSet knowledge default_graph inferred
            rdfs_sub_class_of r
        × (q.object ≡ subj_to_term r.subject)
        × (d ≡ record {
          triple_of = mk_triple q.subject rdfs_sub_class_of r.object;
          premises = q ∷ r ∷ [];
        }))
transitive_closure_tracked_lem_example =
    transitive_closure_tracked_lem list_store list_store-IsQuadSet knowledge default_graph inferred
      rdfs_sub_class_of

apply_cax_sco_tracked_lem_example :
    Derives (apply_cax_sco_tracked list_store knowledge default_graph inferred) (λ d.
      (q r : Quad) × IsPremise list_store list_store-IsQuadSet knowledge default_graph inferred
        rdf_type q
      × IsPremise list_store list_store-IsQuadSet knowledge default_graph inferred rdfs_sub_class_of
          r
      × (q.object ≡ subj_to_term r.subject)
      × (d ≡ record { triple_of = mk_triple q.subject rdf_type r.object; premises = q ∷ r ∷ [] }))
apply_cax_sco_tracked_lem_example =
    apply_cax_sco_tracked_lem list_store list_store-IsQuadSet knowledge default_graph inferred
