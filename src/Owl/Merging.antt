-- ===== src/Owl/Merging.antt =====
-- The rules of src/functions/rdf_owl_rl/rules.rs that merge nodes by `owl:sameAs`: functional and
-- inverse functional properties, maximum cardinality one, and keys.
pub mod Merged
use sqlite_sparql.Prelude.{
  List, [], ◌∷◌, Bool, true, false, none, some, Result, ok, ◌>>=◌, HashMap, HashSet, get, put,
  insert, each, each_ok, select, string_eq, ◌==◌, if◌then◌else◌, or_default,
}
use sqlite_sparql.Rdf.{NamedNode, Subject, Term, Triple, mk_triple, GraphName}
use sqlite_sparql.Rdf.Equality.{subject_eq, term_eq}
use sqlite_sparql.Rdf.Coercions.{subj_to_term, term_to_subj}
use sqlite_sparql.Oxigraph.{QuadStore}
use sqlite_sparql.Graphs.{for_graphs, graphs_to_query, instances_of, pairs_for_predicate}
use sqlite_sparql.Owl.Vocabulary.{
  owl_same_as, owl_functional_property, owl_inverse_functional_property, owl_max_cardinality,
  owl_max_qualified_cardinality, owl_on_property, owl_on_class,
}
use sqlite_sparql.Owl.Rules.{if_some, named}
use sqlite_sparql.Owl.Restrictions.{push_values}
use sqlite_sparql.Owl.Inconsistency.{
  pairwise, to_map, group_by_subject, type_pairs_index_by_class, type_pairs_index_by_subject,
}
use sqlite_sparql.Owl.Inconsistency.Properties.{named_values}
use sqlite_sparql.Owl.Inconsistency.Classes.{
  collect_cardinality_restrictions, has_type, qualified_restrictions,
}

-- the two triples of a pair of nodes
abbrev pub same_both : Subject → Subject → List Triple
same_both x y =
    mk_triple x owl_same_as (subj_to_term y) ∷ mk_triple y owl_same_as (subj_to_term x) ∷ []

-- the body for two objects, which is skipped if one of them is a literal
unfoldable pub same_objects : Term × Term → List Triple
same_objects (y1, y2) =
    if_some (term_to_subj y1) (λ y1_s. if_some (term_to_subj y2) (λ y2_s. same_both y1_s y2_s))

unfoldable pub emit_pairwise_same_as : List Term → List Triple
unfolding same_objects
emit_pairwise_same_as objs = each (pairwise objs) same_objects

-- the body for two subjects: `if x1 == x2 { continue }`
unfoldable pub same_subjects : Subject × Subject → List Triple
same_subjects (x1, x2) = if x1 == x2 then [] else same_both x1 x2

-- a map from subjects to their objects
unfoldable pub add_object :
    HashMap Subject (HashSet Term) → Subject → Term → HashMap Subject (HashSet Term)
add_object m s o = put m s (insert (or_default (get m s) []) o)

module _ (db : QuadStore) (store : db.Store) where
  -- the objects of each subject under a property
  unfoldable pub objects_by_subject :
      NamedNode → List GraphName → Result (HashMap Subject (HashSet Term))
  unfolding for_graphs add_object
  objects_by_subject p graphs =
      for_graphs db store (λ m q. add_object m q.subject q.object) none (some p) none [] graphs

  unfoldable pub apply_prp_fp : GraphName → GraphName → Result (List Triple)
  unfolding objects_by_subject emit_pairwise_same_as named
  apply_prp_fp a i = do
    functional_props ← instances_of db store owl_functional_property a i
    each_ok (each functional_props named) (λ p.
        objects_by_subject p (graphs_to_query a i) >>= λ objects_of.
        ok (each objects_of (λ (so : Subject × HashSet Term). emit_pairwise_same_as so.1)))

  unfoldable pub apply_prp_ifp : GraphName → GraphName → Result (List Triple)
  unfolding push_values same_subjects named
  apply_prp_ifp a i = do
    ifps ← instances_of db store owl_inverse_functional_property a i
    each_ok (each ifps named) (λ p.
        for_graphs db store (λ m q. push_values m ((q.object, q.subject) ∷ [])) none (some p) none
          [] (graphs_to_query a i)
        >>= λ subjects_of.
            ok
              (each subjects_of (λ (os : Term × List Subject). each (pairwise os.1) same_subjects)))

  unfoldable pub apply_cls_maxc2 : GraphName → GraphName → Result (List Triple)
  unfolding collect_cardinality_restrictions type_pairs_index_by_class group_by_subject
      emit_pairwise_same_as
  apply_cls_maxc2 a i = do
    restrictions ← collect_cardinality_restrictions db store owl_max_cardinality 1 a i
    instances_idx ← type_pairs_index_by_class db store a i
    each_ok restrictions (λ (cp : Subject × NamedNode).
        elim (get instances_idx (subj_to_term cp.0)) [
          | none ↦ ok []
          | some insts ↦ pairs_for_predicate db store cp.1 a i >>= λ p_pairs.
              let objs_of = group_by_subject p_pairs in
              ok (each insts (λ x. emit_pairwise_same_as (or_default (get objs_of x) [])))
        ])

  -- what cls-maxqc3 and cls-maxqc4 merge for one restriction
  unfoldable pub qualified_merges :
      Bool
      → HashMap Subject (HashSet Term)
      → Term
      → HashMap Subject (List Term)
      → HashSet Subject
      → List Triple
  unfolding emit_pairwise_same_as has_type
  qualified_merges thing_only types_of cls objs_of c_instances = each c_instances (λ x.
      let objs = or_default (get objs_of x) [] in
      emit_pairwise_same_as (if thing_only then objs else select (has_type types_of cls) objs))

  unfoldable pub cls_maxqc : Bool → GraphName → GraphName → Result (List Triple)
  unfolding qualified_restrictions qualified_merges type_pairs_index_by_class
      type_pairs_index_by_subject group_by_subject
  cls_maxqc thing_only a i = do
    on_property_pairs ← pairs_for_predicate db store owl_on_property a i
    on_class_pairs ← pairs_for_predicate db store owl_on_class a i
    max_qc_pairs ← pairs_for_predicate db store owl_max_qualified_cardinality a i
    let restrictions =
        qualified_restrictions 1 thing_only (to_map [] (named_values on_property_pairs))
          (to_map [] on_class_pairs) max_qc_pairs
    instances_idx ← type_pairs_index_by_class db store a i
    types_of ← type_pairs_index_by_subject db store a i
    each_ok restrictions (λ (r : Subject × (NamedNode × Term)).
        elim (get instances_idx (subj_to_term r.0)) [
          | none ↦ ok []
          | some c_instances ↦ pairs_for_predicate db store r.1.0 a i >>= λ p_pairs.
              ok (qualified_merges thing_only types_of r.1.1 (group_by_subject p_pairs) c_instances)
        ])

  unfoldable pub apply_cls_maxqc3 : GraphName → GraphName → Result (List Triple)
  unfolding cls_maxqc
  apply_cls_maxqc3 a i = cls_maxqc false a i

  unfoldable pub apply_cls_maxqc4 : GraphName → GraphName → Result (List Triple)
  unfolding cls_maxqc
  apply_cls_maxqc4 a i = cls_maxqc true a i
