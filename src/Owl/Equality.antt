-- ===== src/Owl/Equality.antt =====
-- The rules of src/functions/rdf_owl_rl/rules.rs that replace equals: equivalent classes and
-- properties, and `owl:sameAs`. A body with several `continue`s is a chain of loops.
pub mod Replaced
use sqlite_sparql.Prelude.{
  to_set, Eq, ◌==◌, List, [], ◌∷◌, ◌++◌, Bool, true, false, Option, none, some, map, Result, ok,
  ◌>>=◌, HashSet, contains, each, each_ok, group, joined, pair_eq, string_eq, if◌then◌else◌,
}
use sqlite_sparql.Rdf.{
  NamedNode, Subject, named_node, Term, named_node_term, Triple, mk_triple, GraphName, Quad,
}
use sqlite_sparql.Rdf.Equality.{subject_eq, term_eq, triple_eq}
use sqlite_sparql.Rdf.Coercions.{subj_to_term, term_to_subj, term_to_named}
use sqlite_sparql.Oxigraph.{QuadStore}
use sqlite_sparql.Graphs.{
  rdf_type, for_graphs, graphs_to_query, pairs_for_predicate, instances_of, all_quads,
}
use sqlite_sparql.Owl.Vocabulary.{
  rdfs_sub_class_of, rdfs_sub_property_of, rdfs_domain, rdfs_range, owl_equivalent_class,
  owl_equivalent_property, owl_inverse_of, owl_same_as, owl_transitive_property,
  owl_symmetric_property, owl_class, owl_object_property, owl_datatype_property, owl_thing,
  owl_nothing,
}
use sqlite_sparql.Owl.Rules.{named_pair, if_some}

-- `if x == y { continue; }`
unfoldable pub unequal : {A : Type 0} ⦃e : Eq A⦄ → A × A → List (A × A)
unequal (x, y) = if x == y then [] else (x, y) ∷ []

-- `let Some(s2_subj) = term_to_subj(&s2_term) else { continue; }`
unfoldable pub node_pair : Subject × Term → List (Subject × Subject)
node_pair (s, t) = if_some (term_to_subj t) (λ s2. (s, s2) ∷ [])

-- the class and the instance of a type triple
abbrev pub by_class : Subject × Term → Term × Subject
by_class (x, c) = (c, x)

module _ (db : QuadStore) (store : db.Store) where
  unfoldable pub equivalent_property_propagation :
      Bool → GraphName → GraphName → Result (List Triple)
  unfolding named_pair
  equivalent_property_propagation reverse a i = do
    eq_pairs ← pairs_for_predicate db store owl_equivalent_property a i
    each_ok (each eq_pairs named_pair) (λ (pp : NamedNode × NamedNode).
        let source : NamedNode = if reverse then pp.1 else pp.0 in
        let target : NamedNode = if reverse then pp.0 else pp.1 in
        for_graphs db store (λ out q. out ++ mk_triple q.subject target q.object ∷ []) none
          (some source) none [] (graphs_to_query a i))

  unfoldable pub apply_prp_eqp1 : GraphName → GraphName → Result (List Triple)
  unfolding equivalent_property_propagation
  apply_prp_eqp1 a i = equivalent_property_propagation false a i

  unfoldable pub apply_prp_eqp2 : GraphName → GraphName → Result (List Triple)
  unfolding equivalent_property_propagation
  apply_prp_eqp2 a i = equivalent_property_propagation true a i

  unfoldable pub equivalent_class_member_propagation :
      Bool → GraphName → GraphName → Result (List Triple)
  equivalent_class_member_propagation reverse a i = do
    eq_pairs ← pairs_for_predicate db store owl_equivalent_class a i
    type_pairs ← pairs_for_predicate db store rdf_type a i
    let instances = group (map by_class type_pairs)
    ok (
        each eq_pairs (λ (cs : Subject × Term).
          let source_class : Term = if reverse then cs.1 else subj_to_term cs.0 in
          let target_class : Term = if reverse then subj_to_term cs.0 else cs.1 in
          map (λ x. mk_triple x rdf_type target_class) (joined instances (some source_class))))

  unfoldable pub apply_cax_eqc1 : GraphName → GraphName → Result (List Triple)
  unfolding equivalent_class_member_propagation
  apply_cax_eqc1 a i = equivalent_class_member_propagation false a i

  unfoldable pub apply_cax_eqc2 : GraphName → GraphName → Result (List Triple)
  unfolding equivalent_class_member_propagation
  apply_cax_eqc2 a i = equivalent_class_member_propagation true a i

  unfoldable pub apply_eq_ref : GraphName → GraphName → Result (List Triple)
  apply_eq_ref a i = do
    quads ← all_quads db store a i
    ok (
        to_set (
          each quads (λ (t : Subject × (NamedNode × Term)).
            mk_triple t.0 owl_same_as (subj_to_term t.0)
            ∷ mk_triple (named_node t.1.0) owl_same_as (named_node_term t.1.0)
            ∷ if_some (term_to_subj t.1.1) (λ o_subj. mk_triple o_subj owl_same_as t.1.1 ∷ []))))

  unfoldable pub apply_eq_rep_s : GraphName → GraphName → Result (List Triple)
  unfolding unequal node_pair
  apply_eq_rep_s a i = do
    same_pairs ← pairs_for_predicate db store owl_same_as a i
    let substitutes = group (each (each same_pairs node_pair) unequal)
    quads ← all_quads db store a i
    ok (
        each quads (λ (t : Subject × (NamedNode × Term)).
          map (λ s2. mk_triple s2 t.1.0 t.1.1) (joined substitutes (some t.0))))

  unfoldable pub apply_eq_rep_p : GraphName → GraphName → Result (List Triple)
  unfolding unequal named_pair
  apply_eq_rep_p a i = do
    same_pairs ← pairs_for_predicate db store owl_same_as a i
    let substitutes = group (each (each same_pairs named_pair) unequal)
    quads ← all_quads db store a i
    ok (
        each quads (λ (t : Subject × (NamedNode × Term)).
          map (λ p2. mk_triple t.0 p2 t.1.1) (joined substitutes (some t.1.0))))

  unfoldable pub apply_eq_rep_o : GraphName → GraphName → Result (List Triple)
  unfolding unequal
  apply_eq_rep_o a i = do
    same_pairs ← pairs_for_predicate db store owl_same_as a i
    let substitutes = group (each (map (λ so. (subj_to_term so.0, so.1)) same_pairs) unequal)
    quads ← all_quads db store a i
    ok (
        each quads (λ (t : Subject × (NamedNode × Term)).
          map (λ o2. mk_triple t.0 t.1.0 o2) (joined substitutes (some t.1.1))))
