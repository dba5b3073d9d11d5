-- ===== src/Owl/ListExamples.antt =====
-- The rules of src/functions/rdf_owl_rl/rules.rs that read lists, on a small store: an intersection of
-- two classes, a chain of two properties and a key.
use sqlite_sparql.Prelude.{
  ◌<◌, List, [], ◌∷◌, ◌≡◌, ◌≢◌, refl, arith, true, some, ok, contains, string_eq, to_set, list_eq,
  pair_eq, get, put, group,
}
use sqlite_sparql.Rdf.{
  NamedNode, Subject, named_node, blank_node, Term, named_node_term, blank_node_term, mk_triple,
  GraphName, default_graph, named_graph, Quad,
}
use sqlite_sparql.Rdf.Equality.{
  subject_eq, term_eq, triple_eq, quad_eq, graph_name_eq, quad_beq, graph_name_beq,
}
use sqlite_sparql.Rdf.Coercions.{subj_to_term, term_to_subj, term_to_named}
use sqlite_sparql.Oxigraph.{matches}
use sqlite_sparql.Oxigraph.ListStore.{list_store, list_store-IsQuadSet}
use sqlite_sparql.Oxigraph.Sizes.{size}
use sqlite_sparql.Graphs.{rdf_type, pairs_for_predicate}
use sqlite_sparql.Graphs.Holds.{quad, In}
use sqlite_sparql.Lists.{rdf_first, rdf_rest, rdf_nil, walk_list}
use sqlite_sparql.Owl.Vocabulary.{
  owl_intersection_of, owl_property_chain_axiom, owl_has_key, owl_same_as,
}
use sqlite_sparql.Owl.ClassLists.{apply_cls_int1}
use sqlite_sparql.Owl.ClassLists.Collected.{Yields, Listed}
use sqlite_sparql.Owl.ClassLists.Members.{apply_cls_int1_lem}
use sqlite_sparql.Owl.Merging.{same_subjects}
use sqlite_sparql.Owl.PropertyLists.{all_named, apply_prp_spo2, apply_prp_key}
use sqlite_sparql.Owl.PropertyLists.Derived.{
  ChainTriple, KeyTriple, apply_prp_spo2_lem, apply_prp_key_lem,
}

abbrev inferred : GraphName
inferred = named_graph "urn:inferred"

abbrev link : NamedNode → NamedNode → NamedNode → Quad
link x p y = quad (named_node x) p (named_node_term y) default_graph

-- a list of two IRIs, at two blank nodes
abbrev cells : List Quad
cells =
    quad (blank_node "l") rdf_first (named_node_term "first") default_graph
    ∷ quad (blank_node "l") rdf_rest (blank_node_term "m") default_graph
    ∷ quad (blank_node "m") rdf_first (named_node_term "second") default_graph
    ∷ quad (blank_node "m") rdf_rest (named_node_term rdf_nil) default_graph
    ∷ []

abbrev both : List Quad
both =
    quad (named_node "both") owl_intersection_of (blank_node_term "l") default_graph
    ∷ link "tom" rdf_type "first"
    ∷ link "tom" rdf_type "second"
    ∷ link "jerry" rdf_type "first"
    ∷ cells

both-enough : size list_store list_store-IsQuadSet both < 9
unfolding to_set quad_beq
both-enough = omega arith

int1 :
    apply_cls_int1 list_store both 9 default_graph inferred
    ≡ some (ok (mk_triple (named_node "tom") rdf_type (named_node_term "both") ∷ []))
unfolding apply_cls_int1 to_set quad_beq matches graph_name_beq pairs_for_predicate term_to_subj
    walk_list get put subj_to_term group
int1 = refl

apply_cls_int1_lem_example : Yields (apply_cls_int1 list_store both 9 default_graph inferred) (λ t.
    (c h : Subject) × (members : List Term) × (x : Subject) × In list_store list_store-IsQuadSet
      both default_graph inferred c owl_intersection_of
      (subj_to_term h)
    × Listed list_store list_store-IsQuadSet both 9 default_graph inferred h members
    × (members ≢ [])
    × ((m : Term)
        → contains members m ≡ true
        → In list_store list_store-IsQuadSet both default_graph inferred x rdf_type m)
    × (t ≡ mk_triple x rdf_type (subj_to_term c)))
apply_cls_int1_lem_example =
    apply_cls_int1_lem list_store list_store-IsQuadSet both 9 default_graph inferred both-enough

abbrev chained : List Quad
chained =
    quad (named_node "uncle") owl_property_chain_axiom (blank_node_term "l") default_graph
    ∷ link "ann" "first" "bob"
    ∷ link "bob" "second" "carl"
    ∷ cells

spo2 :
    apply_prp_spo2 list_store chained 9 default_graph inferred
    ≡ some (ok (mk_triple (named_node "ann") "uncle" (named_node_term "carl") ∷ []))
unfolding apply_prp_spo2 to_set quad_beq matches graph_name_beq pairs_for_predicate term_to_subj
    walk_list get put subj_to_term term_to_named
spo2 = refl

chained-enough : size list_store list_store-IsQuadSet chained < 9
unfolding to_set quad_beq
chained-enough = omega arith

apply_prp_spo2_lem_example :
    Yields (apply_prp_spo2 list_store chained 9 default_graph inferred) (λ t.
      (p : NamedNode) × (h : Subject) × (members : List Term) × (first : NamedNode) × (props : List
        NamedNode)
      × In list_store list_store-IsQuadSet chained default_graph inferred
          (named_node p)
          owl_property_chain_axiom
          (subj_to_term h)
      × Listed list_store list_store-IsQuadSet chained 9 default_graph inferred h members
      × (all_named members ≡ some (first ∷ props))
      × ChainTriple list_store list_store-IsQuadSet chained 9 default_graph inferred p first props
          t)
apply_prp_spo2_lem_example =
    apply_prp_spo2_lem list_store list_store-IsQuadSet chained 9 default_graph inferred
      chained-enough

abbrev keyed : List Quad
keyed =
    quad (named_node "person") owl_has_key (blank_node_term "l") default_graph
    ∷ link "ann" rdf_type "person"
    ∷ link "anna" rdf_type "person"
    ∷ link "ann" "first" "a"
    ∷ link "anna" "first" "a"
    ∷ link "ann" "second" "b"
    ∷ link "anna" "second" "b"
    ∷ cells

key :
    apply_prp_key list_store keyed 12 default_graph inferred
    ≡ some (
        ok (
          mk_triple (named_node "anna") owl_same_as (named_node_term "ann")
          ∷ mk_triple (named_node "ann") owl_same_as (named_node_term "anna")
          ∷ []))
unfolding apply_prp_key to_set quad_beq matches graph_name_beq pairs_for_predicate term_to_subj
    walk_list get put subj_to_term term_to_named group same_subjects
key = refl

keyed-enough : size list_store list_store-IsQuadSet keyed < 12
unfolding to_set quad_beq
keyed-enough = omega arith

apply_prp_key_lem_example : Yields (apply_prp_key list_store keyed 12 default_graph inferred) (λ t.
    (c h : Subject) × (members : List Term) × (kp : NamedNode) × (kps : List NamedNode) × In
      list_store list_store-IsQuadSet keyed default_graph inferred c owl_has_key
      (subj_to_term h)
    × Listed list_store list_store-IsQuadSet keyed 12 default_graph inferred h members
    × (all_named members ≡ some (kp ∷ kps))
    × KeyTriple list_store list_store-IsQuadSet keyed 12 default_graph inferred c kp kps t)
apply_prp_key_lem_example =
    apply_prp_key_lem list_store list_store-IsQuadSet keyed 12 default_graph inferred keyed-enough
