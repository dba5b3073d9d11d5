-- ===== src/Owl/Rules.antt =====
-- Rules of src/functions/rdf_owl_rl/rules.rs. A loop that pushes is `each`, with `continue` as an
-- empty contribution; the maps from a key to a set of values are `group` and `joined`.
pub mod Readings
pub mod Joins
pub mod Links
pub mod Schema
pub mod Pushed
pub mod Pushes
use sqlite_sparql.Prelude.{
  List, [], ◌∷◌, ◌++◌, Bool, true, false, Option, none, some, map, Result, ok, ◌>>=◌, HashSet,
  contains, each, each_ok, group, joined, pair_eq, string_eq, if◌then◌else◌,
}
use sqlite_sparql.Rdf.{
  NamedNode, Subject, named_node, Term, named_node_term, Triple, mk_triple, GraphName, Quad,
}
use sqlite_sparql.Rdf.Equality.{subject_eq, term_eq}
use sqlite_sparql.Rdf.Coercions.{subj_to_term, term_to_subj, term_to_named}
use sqlite_sparql.Oxigraph.{QuadStore}
use sqlite_sparql.Graphs.{
  rdf_type, for_graphs, graphs_to_query, pairs_for_predicate, instances_of, all_quads,
}
use sqlite_sparql.Owl.Vocabulary.{
  rdfs_sub_class_of, rdfs_sub_property_of, rdfs_domain, rdfs_range, owl_equivalent_class,
  owl_equivalent_property, owl_inverse_of, owl_same_as, owl_transitive_property,
  owl_symmetric_property, owl_class, owl_object_property, owl_datatype_property, owl_thing,
  owl_nothing,
}

-- `let Subject::NamedNode(p) = … else { continue }`, with what stands beside it
unfoldable pub named_key {ℓ} : {V : Type ℓ} → Subject × V → List (NamedNode × V)
named_key (named_node p, v) = (p, v) ∷ []
named_key _ = []

-- `let Subject::NamedNode(p) = … else { continue }`
unfoldable pub named : Subject → List NamedNode
named (named_node p) = p ∷ []
named _ = []

-- `let Some(x) = o else { continue }`, then the rest of the body
abbrev pub if_some {ℓ κ} : {A : Type ℓ} {B : Type κ} → Option A → (A → List B) → List B
if_some none body = []
if_some (some a) body = body a

-- the same, where the term beside it has to be an IRI too
unfoldable pub named_pair : Subject × Term → List (NamedNode × NamedNode)
named_pair (named_node p1, p2) = if_some (term_to_named p2) (λ n. (p1, n) ∷ [])
named_pair _ = []

-- `subs_of.entry(p2_subj).or_default().insert(p1)`
unfoldable pub flipped : Subject × Term → List (Subject × Subject)
flipped (p1, p2) = if_some (term_to_subj p2) (λ p2_subj. (p2_subj, p1) ∷ [])

-- the triple with its ends exchanged, under a predicate
abbrev pub exchanged : NamedNode → Subject × Term → List Triple
exchanged emit_pred xy =
    if_some (term_to_subj xy.1) (λ y. mk_triple y emit_pred (subj_to_term xy.0) ∷ [])

module _ (db : QuadStore) (store : db.Store) where
  unfoldable pub transitive_closure : NamedNode → GraphName → GraphName → Result (List Triple)
  transitive_closure predicate a i = do
    pairs ← pairs_for_predicate db store predicate a i
    let adjacency = group pairs
    ok (
        each pairs (λ (xy : Subject × Term).
          map (λ z. mk_triple xy.0 predicate z) (joined adjacency (term_to_subj xy.1))))

  unfoldable pub apply_scm_sco : GraphName → GraphName → Result (List Triple)
  unfolding transitive_closure
  apply_scm_sco a i = transitive_closure rdfs_sub_class_of a i

  unfoldable pub apply_scm_spo : GraphName → GraphName → Result (List Triple)
  unfolding transitive_closure
  apply_scm_spo a i = transitive_closure rdfs_sub_property_of a i

  unfoldable pub apply_eq_trans : GraphName → GraphName → Result (List Triple)
  unfolding transitive_closure
  apply_eq_trans a i = transitive_closure owl_same_as a i

  unfoldable pub equivalent_to_subsumption :
      NamedNode → NamedNode → GraphName → GraphName → Result (List Triple)
  equivalent_to_subsumption equiv_predicate sub_predicate a i = do
    pairs ← pairs_for_predicate db store equiv_predicate a i
    ok (
        each pairs (λ (cs : Subject × Term). if_some (term_to_subj cs.1) (λ c2_as_subj.
          mk_triple cs.0 sub_predicate cs.1
          ∷ mk_triple c2_as_subj sub_predicate (subj_to_term cs.0)
          ∷ [])))

  unfoldable pub apply_scm_eqc1 : GraphName → GraphName → Result (List Triple)
  unfolding equivalent_to_subsumption
  apply_scm_eqc1 a i = equivalent_to_subsumption owl_equivalent_class rdfs_sub_class_of a i

  unfoldable pub apply_scm_eqp1 : GraphName → GraphName → Result (List Triple)
  unfolding equivalent_to_subsumption
  apply_scm_eqp1 a i = equivalent_to_subsumption owl_equivalent_property rdfs_sub_property_of a i

  unfoldable pub apply_cax_sco : GraphName → GraphName → Result (List Triple)
  apply_cax_sco a i = do
    sub_class_pairs ← pairs_for_predicate db store rdfs_sub_class_of a i
    type_pairs ← pairs_for_predicate db store rdf_type a i
    let super_of = group sub_class_pairs
    ok (
        each type_pairs (λ (sc : Subject × Term).
          map (λ c2. mk_triple sc.0 rdf_type c2) (joined super_of (term_to_subj sc.1))))

  unfoldable pub apply_prp_spo1 : GraphName → GraphName → Result (List Triple)
  unfolding named_pair
  apply_prp_spo1 a i = do
    sub_prop_pairs ← pairs_for_predicate db store rdfs_sub_property_of a i
    let super_of = group (each sub_prop_pairs named_pair)
    quads ← all_quads db store a i
    ok (
        each quads (λ (t : Subject × (NamedNode × Term)).
          map (λ p2. mk_triple t.0 p2 t.1.1) (joined super_of (some t.1.0))))

  unfoldable pub domain_or_range : NamedNode → Bool → GraphName → GraphName → Result (List Triple)
  unfolding named_key
  domain_or_range dr_predicate use_subject a i = do
    dr_pairs ← pairs_for_predicate db store dr_predicate a i
    let classes_of = group (each dr_pairs named_key)
    quads ← all_quads db store a i
    ok (
        each quads (λ (t : Subject × (NamedNode × Term)).
          if_some (if use_subject then some t.0 else term_to_subj t.1.1)
            (λ subj. map (λ c. mk_triple subj rdf_type c) (joined classes_of (some t.1.0)))))

  unfoldable pub apply_prp_dom : GraphName → GraphName → Result (List Triple)
  unfolding domain_or_range
  apply_prp_dom a i = domain_or_range rdfs_domain true a i

  unfoldable pub apply_prp_rng : GraphName → GraphName → Result (List Triple)
  unfolding domain_or_range
  apply_prp_rng a i = domain_or_range rdfs_range false a i

  unfoldable pub apply_prp_trp : GraphName → GraphName → Result (List Triple)
  unfolding named
  apply_prp_trp a i = do
    transitive_props ← instances_of db store owl_transitive_property a i
    each_ok (each transitive_props named) (λ p. do
      pairs ←
          for_graphs db store (λ out q. out ++ (q.subject, q.object) ∷ []) none (some p) none []
            (graphs_to_query a i)
      let adjacency = group pairs
      ok (
          each pairs (λ (xy : Subject × Term).
            map (λ z. mk_triple xy.0 p z) (joined adjacency (term_to_subj xy.1)))))

  unfoldable pub apply_prp_symp : GraphName → GraphName → Result (List Triple)
  unfolding named
  apply_prp_symp a i = do
    symmetric_props ← instances_of db store owl_symmetric_property a i
    each_ok (each symmetric_props named) (λ p.
        for_graphs db store (λ out q. out ++ exchanged p (q.subject, q.object)) none (some p) none
          [] (graphs_to_query a i))

  unfoldable pub inverse_of : Bool → GraphName → GraphName → Result (List Triple)
  unfolding named_pair
  inverse_of swap_direction a i = do
    inv_pairs ← pairs_for_predicate db store owl_inverse_of a i
    each_ok (each inv_pairs named_pair) (λ (pp : NamedNode × NamedNode).
        let search_pred : NamedNode = if swap_direction then pp.1 else pp.0 in
        let emit_pred : NamedNode = if swap_direction then pp.0 else pp.1 in
        for_graphs db store (λ out q. out ++ exchanged emit_pred (q.subject, q.object)) none
          (some search_pred) none [] (graphs_to_query a i))

  unfoldable pub apply_prp_inv1 : GraphName → GraphName → Result (List Triple)
  unfolding inverse_of
  apply_prp_inv1 a i = inverse_of false a i

  unfoldable pub apply_prp_inv2 : GraphName → GraphName → Result (List Triple)
  unfolding inverse_of
  apply_prp_inv2 a i = inverse_of true a i

  unfoldable pub apply_eq_sym : GraphName → GraphName → Result (List Triple)
  apply_eq_sym a i = do
    pairs ← pairs_for_predicate db store owl_same_as a i
    ok (
        each pairs (λ (xy : Subject × Term).
          if_some (term_to_subj xy.1) (λ y. mk_triple y owl_same_as (subj_to_term xy.0) ∷ [])))

  unfoldable pub apply_scm_cls : GraphName → GraphName → Result (List Triple)
  apply_scm_cls a i = do
    classes ← instances_of db store owl_class a i
    ok (
        each classes (λ c.
          mk_triple c rdfs_sub_class_of (subj_to_term c)
          ∷ mk_triple c owl_equivalent_class (subj_to_term c)
          ∷ mk_triple c rdfs_sub_class_of (named_node_term owl_thing)
          ∷ mk_triple (named_node owl_nothing) rdfs_sub_class_of (subj_to_term c)
          ∷ []))

  unfoldable pub reflexive_property_axioms :
      NamedNode → GraphName → GraphName → Result (List Triple)
  reflexive_property_axioms property_class a i = do
    props ← instances_of db store property_class a i
    ok (
        each props (λ p.
          mk_triple p rdfs_sub_property_of (subj_to_term p)
          ∷ mk_triple p owl_equivalent_property (subj_to_term p)
          ∷ []))

  unfoldable pub apply_scm_op : GraphName → GraphName → Result (List Triple)
  unfolding reflexive_property_axioms
  apply_scm_op a i = reflexive_property_axioms owl_object_property a i

  unfoldable pub apply_scm_dp : GraphName → GraphName → Result (List Triple)
  unfolding reflexive_property_axioms
  apply_scm_dp a i = reflexive_property_axioms owl_datatype_property a i

  unfoldable pub bidirectional_subsumption_to_equivalent :
      NamedNode → NamedNode → GraphName → GraphName → Result (List Triple)
  bidirectional_subsumption_to_equivalent sub_pred equiv_pred a i = do
    pairs ← pairs_for_predicate db store sub_pred a i
    ok (
        each pairs (λ (xy : Subject × Term). if_some (term_to_subj xy.1) (λ y_subj.
          if contains pairs (y_subj, subj_to_term xy.0)
          then mk_triple xy.0 equiv_pred xy.1 ∷ []
          else [])))

  unfoldable pub apply_scm_eqc2 : GraphName → GraphName → Result (List Triple)
  unfolding bidirectional_subsumption_to_equivalent
  apply_scm_eqc2 a i =
      bidirectional_subsumption_to_equivalent rdfs_sub_class_of owl_equivalent_class a i

  unfoldable pub apply_scm_eqp2 : GraphName → GraphName → Result (List Triple)
  unfolding bidirectional_subsumption_to_equivalent
  apply_scm_eqp2 a i =
      bidirectional_subsumption_to_equivalent rdfs_sub_property_of owl_equivalent_property a i

  unfoldable pub domain_or_range_via_subclass :
      NamedNode → GraphName → GraphName → Result (List Triple)
  domain_or_range_via_subclass dr_pred a i = do
    dr_pairs ← pairs_for_predicate db store dr_pred a i
    sub_class_pairs ← pairs_for_predicate db store rdfs_sub_class_of a i
    let super_of = group sub_class_pairs
    ok (
        each dr_pairs (λ (pc : Subject × Term).
          map (λ c2. mk_triple pc.0 dr_pred c2) (joined super_of (term_to_subj pc.1))))

  unfoldable pub apply_scm_dom1 : GraphName → GraphName → Result (List Triple)
  unfolding domain_or_range_via_subclass
  apply_scm_dom1 a i = domain_or_range_via_subclass rdfs_domain a i

  unfoldable pub apply_scm_rng1 : GraphName → GraphName → Result (List Triple)
  unfolding domain_or_range_via_subclass
  apply_scm_rng1 a i = domain_or_range_via_subclass rdfs_range a i

  unfoldable pub domain_or_range_via_subproperty :
      NamedNode → GraphName → GraphName → Result (List Triple)
  unfolding flipped
  domain_or_range_via_subproperty dr_pred a i = do
    dr_pairs ← pairs_for_predicate db store dr_pred a i
    sub_prop_pairs ← pairs_for_predicate db store rdfs_sub_property_of a i
    let subs_of = group (each sub_prop_pairs flipped)
    ok (
        each dr_pairs (λ (pc : Subject × Term).
          map (λ p1. mk_triple p1 dr_pred pc.1) (joined subs_of (some pc.0))))

  unfoldable pub apply_scm_dom2 : GraphName → GraphName → Result (List Triple)
  unfolding domain_or_range_via_subproperty
  apply_scm_dom2 a i = domain_or_range_via_subproperty rdfs_domain a i

  unfoldable pub apply_scm_rng2 : GraphName → GraphName → Result (List Triple)
  unfolding domain_or_range_via_subproperty
  apply_scm_rng2 a i = domain_or_range_via_subproperty rdfs_range a i
