-- ===== src/Owl/ClassLists.antt =====
-- The rules of src/functions/rdf_owl_rl/rules.rs that read the list of a class: intersectionOf, unionOf
-- and oneOf.
pub mod Collected
pub mod Members
use sqlite_sparql.Prelude.{
  ℕ, Bool, true, false, List, [], ◌∷◌, Option, none, some, map, Result, ok, HashMap, HashSet, get,
  contains, each, joined, select, or_default,
}
use sqlite_sparql.Prelude.Fuel.{Fueled, ◌>>=◌}
use sqlite_sparql.Rdf.{NamedNode, Subject, Term, Triple, mk_triple, GraphName}
use sqlite_sparql.Rdf.Equality.{subject_eq, term_eq}
use sqlite_sparql.Rdf.Coercions.{subj_to_term, term_to_subj}
use sqlite_sparql.Oxigraph.{QuadStore}
use sqlite_sparql.Graphs.{rdf_type, graphs_to_query, pairs_for_predicate}
use sqlite_sparql.Lists.{walk_list}
use sqlite_sparql.Owl.Vocabulary.{rdfs_sub_class_of, owl_intersection_of, owl_union_of, owl_one_of}
use sqlite_sparql.Owl.Rules.{if_some}
use sqlite_sparql.Owl.Inconsistency.{each_fueled, type_pairs_index_by_class}

-- the instances of every class of a list; of an empty list, none
unfoldable pub intersect_all :
    HashMap Term (HashSet Subject) → Option (HashSet Subject) → List Term → Option (HashSet Subject)
intersect_all index intersection [] = intersection
intersect_all index none (m ∷ members) =
    intersect_all index (some (or_default (get index m) [])) members
intersect_all index (some prev) (m ∷ members) =
    intersect_all index (some (select (contains (or_default (get index m) [])) prev)) members

-- the subsumption of one member, in the direction of the flag
unfoldable pub member_subsumption : Bool → Subject → Term → List Triple
member_subsumption true c member = mk_triple c rdfs_sub_class_of member ∷ []
member_subsumption false c member =
    if_some (term_to_subj member)
      (λ m_subj. mk_triple m_subj rdfs_sub_class_of (subj_to_term c) ∷ [])

module _ (db : QuadStore) (store : db.Store) (fuel : ℕ) where
  unfoldable pub collect_class_lists :
      NamedNode → GraphName → GraphName → Fueled (List (Subject × List Term))
  unfolding each_fueled
  collect_class_lists list_predicate a i =
      some (pairs_for_predicate db store list_predicate a i) >>= λ pairs.
      each_fueled pairs (λ (ch : Subject × Term). elim (term_to_subj ch.1) [
        | none ↦ some (ok [])
        | some head_subj ↦ walk_list db store fuel head_subj (graphs_to_query a i) >>= λ found.
            elim found [ none ↦ some (ok []) | some members ↦ some (ok ((ch.0, members) ∷ [])) ]
      ])

  unfoldable pub scm_class_list : NamedNode → Bool → GraphName → GraphName → Fueled (List Triple)
  unfolding collect_class_lists member_subsumption
  scm_class_list list_predicate parent_is_super a i =
      collect_class_lists list_predicate a i >>= λ lists. some (
        ok (
          each lists
            (λ (cm : Subject × List Term). each cm.1 (member_subsumption parent_is_super cm.0))))

  unfoldable pub apply_scm_int : GraphName → GraphName → Fueled (List Triple)
  unfolding scm_class_list
  apply_scm_int a i = scm_class_list owl_intersection_of true a i

  unfoldable pub apply_scm_uni : GraphName → GraphName → Fueled (List Triple)
  unfolding scm_class_list
  apply_scm_uni a i = scm_class_list owl_union_of false a i

  unfoldable pub apply_cls_int1 : GraphName → GraphName → Fueled (List Triple)
  unfolding collect_class_lists intersect_all type_pairs_index_by_class
  apply_cls_int1 a i = collect_class_lists owl_intersection_of a i >>= λ intersections.
      some (type_pairs_index_by_class db store a i) >>= λ instances_of. some (
        ok (
          each intersections (λ (cm : Subject × List Term).
            if_some (intersect_all instances_of none cm.1)
              (λ set. map (λ x. mk_triple x rdf_type (subj_to_term cm.0)) set))))

  unfoldable pub apply_cls_int2 : GraphName → GraphName → Fueled (List Triple)
  unfolding collect_class_lists type_pairs_index_by_class
  apply_cls_int2 a i = collect_class_lists owl_intersection_of a i >>= λ intersections.
      some (type_pairs_index_by_class db store a i) >>= λ instances_of. some (
        ok (
          each intersections (λ (cm : Subject × List Term).
            each (joined instances_of (some (subj_to_term cm.0)))
              (λ x. map (λ m. mk_triple x rdf_type m) cm.1))))

  unfoldable pub apply_cls_uni : GraphName → GraphName → Fueled (List Triple)
  unfolding collect_class_lists type_pairs_index_by_class
  apply_cls_uni a i = collect_class_lists owl_union_of a i >>= λ unions.
      some (type_pairs_index_by_class db store a i) >>= λ instances_of. some (
        ok (
          each unions (λ (cm : Subject × List Term). each cm.1 (λ m.
            map (λ x. mk_triple x rdf_type (subj_to_term cm.0)) (joined instances_of (some m))))))

  unfoldable pub apply_cls_oo : GraphName → GraphName → Fueled (List Triple)
  unfolding collect_class_lists
  apply_cls_oo a i = collect_class_lists owl_one_of a i >>= λ lists. some (
      ok (
        each lists (λ (cm : Subject × List Term). each cm.1 (λ m.
          if_some (term_to_subj m)
            (λ m_subj. mk_triple m_subj rdf_type (subj_to_term cm.0) ∷ [])))))
