-- ===== src/Owl/Restrictions.antt =====
-- The rules of src/functions/rdf_owl_rl/rules.rs about restriction classes: hasValue, someValuesFrom
-- and allValuesFrom.
use sqlite_sparql.Prelude.{
  List, [], ◌∷◌, ◌++◌, Bool, true, false, none, some, map, Result, ok, ◌>>=◌, HashMap, get, put,
  contains, each, each_ok, group, joined, pair_eq, string_eq, ◌==◌, Eq, if◌then◌else◌, or_default,
}
use sqlite_sparql.Rdf.{NamedNode, Subject, Term, named_node_term, Triple, mk_triple, GraphName}
use sqlite_sparql.Rdf.Equality.{subject_eq, term_eq}
use sqlite_sparql.Rdf.Coercions.{subj_to_term, term_to_subj}
use sqlite_sparql.Oxigraph.{QuadStore}
use sqlite_sparql.Graphs.{rdf_type, pairs_for_predicate}
use sqlite_sparql.Owl.Vocabulary.{
  rdfs_sub_class_of, rdfs_sub_property_of, owl_thing, owl_on_property, owl_has_value,
  owl_some_values_from, owl_all_values_from,
}
use sqlite_sparql.Owl.Rules.{named_pair, if_some}
use sqlite_sparql.Owl.Inconsistency.{type_pairs_index_by_class}
use sqlite_sparql.Owl.Inconsistency.Properties.{named_values}

-- a class, the property that it restricts, and the value of its constraint
abbrev pub Restriction : Type 0
Restriction = Subject × (NamedNode × Term)

-- `out.entry(k).or_default().push(v)` for each pair
unfoldable pub push_values :
    {K V : Type 0} ⦃e : Eq K⦄ → HashMap K (List V) → List (K × V) → HashMap K (List V)
push_values m [] = m
push_values m ((k, v) ∷ pairs) = push_values (put m k (or_default (get m k) [] ++ v ∷ [])) pairs

-- the restrictions by property and value
abbrev pub by_p_v : List Restriction → HashMap (NamedNode × Term) (List Subject)
by_p_v restrictions = push_values [] (map (λ (r : Restriction). ((r.1.0, r.1.1), r.0)) restrictions)

-- what scm-hv, scm-svf2 and scm-avf2 emit for two restrictions
abbrev pub subsumed : Bool → Subject → Subject → Triple
subsumed flip c1 c2 =
    if flip
    then mk_triple c2 rdfs_sub_class_of (subj_to_term c1)
    else mk_triple c1 rdfs_sub_class_of (subj_to_term c2)

module _ (db : QuadStore) (store : db.Store) where
  unfoldable pub collect_restrictions :
      NamedNode → GraphName → GraphName → Result (List Restriction)
  unfolding named_values
  collect_restrictions constraint_predicate a i = do
    on_property_pairs ← pairs_for_predicate db store owl_on_property a i
    let on_of = group (named_values on_property_pairs)
    constraint_pairs ← pairs_for_predicate db store constraint_predicate a i
    ok (
        each constraint_pairs
          (λ (cv : Subject × Term). map (λ p. (cv.0, (p, cv.1))) (joined on_of (some cv.0))))

  -- the loop that scm-hv, scm-svf2 and scm-avf2 share
  unfoldable pub scm_restriction_property_subclass :
      NamedNode → Bool → GraphName → GraphName → Result (List Triple)
  unfolding collect_restrictions named_pair push_values
  scm_restriction_property_subclass constraint_pred flip a i = do
    restrictions ← collect_restrictions constraint_pred a i
    sub_prop_pairs ← pairs_for_predicate db store rdfs_sub_property_of a i
    let supers_of_prop = group (each sub_prop_pairs named_pair)
    let index = by_p_v restrictions
    ok (
        each restrictions (λ (r : Restriction).
          each (joined supers_of_prop (some r.1.0))
            (λ p2. map (λ c2. subsumed flip r.0 c2) (or_default (get index (p2, r.1.1)) []))))

  unfoldable pub apply_scm_hv : GraphName → GraphName → Result (List Triple)
  unfolding scm_restriction_property_subclass
  apply_scm_hv a i = scm_restriction_property_subclass owl_has_value false a i

  unfoldable pub apply_scm_svf2 : GraphName → GraphName → Result (List Triple)
  unfolding scm_restriction_property_subclass
  apply_scm_svf2 a i = scm_restriction_property_subclass owl_some_values_from false a i

  unfoldable pub apply_scm_avf2 : GraphName → GraphName → Result (List Triple)
  unfolding scm_restriction_property_subclass
  apply_scm_avf2 a i = scm_restriction_property_subclass owl_all_values_from true a i

  unfoldable pub scm_restriction_value_subclass :
      NamedNode → GraphName → GraphName → Result (List Triple)
  unfolding collect_restrictions push_values
  scm_restriction_value_subclass constraint_pred a i = do
    restrictions ← collect_restrictions constraint_pred a i
    sub_class_pairs ← pairs_for_predicate db store rdfs_sub_class_of a i
    let supers_of_class = group sub_class_pairs
    let by_p = push_values [] (map (λ (r : Restriction). (r.1.0, (r.0, r.1.1))) restrictions)
    ok (
        each by_p (λ (pg : NamedNode × List (Subject × Term)). each pg.1 (λ (cy : Subject × Term).
          let y2_set = joined supers_of_class (term_to_subj cy.1) in
          each pg.1 (λ (c2y2 : Subject × Term).
            if contains y2_set c2y2.1
            then mk_triple cy.0 rdfs_sub_class_of (subj_to_term c2y2.0) ∷ []
            else []))))

  unfoldable pub apply_scm_svf1 : GraphName → GraphName → Result (List Triple)
  unfolding scm_restriction_value_subclass
  apply_scm_svf1 a i = scm_restriction_value_subclass owl_some_values_from a i

  unfoldable pub apply_scm_avf1 : GraphName → GraphName → Result (List Triple)
  unfolding scm_restriction_value_subclass
  apply_scm_avf1 a i = scm_restriction_value_subclass owl_all_values_from a i

  unfoldable pub apply_cls_svf1 : GraphName → GraphName → Result (List Triple)
  unfolding collect_restrictions
  apply_cls_svf1 a i = do
    restrictions ← collect_restrictions owl_some_values_from a i
    type_pairs ← pairs_for_predicate db store rdf_type a i
    each_ok restrictions (λ (r : Restriction). pairs_for_predicate db store r.1.0 a i >>= λ p_pairs.
        ok (
          each p_pairs (λ (uv : Subject × Term). if_some (term_to_subj uv.1) (λ v_subj.
            if contains type_pairs (v_subj, r.1.1)
            then mk_triple uv.0 rdf_type (subj_to_term r.0) ∷ []
            else []))))

  unfoldable pub apply_cls_svf2 : GraphName → GraphName → Result (List Triple)
  unfolding collect_restrictions
  apply_cls_svf2 a i = do
    restrictions ← collect_restrictions owl_some_values_from a i
    each_ok restrictions (λ (r : Restriction).
        if r.1.1 == named_node_term owl_thing
        then (pairs_for_predicate db store r.1.0 a i >>= λ p_pairs.
            ok (map (λ (uv : Subject × Term). mk_triple uv.0 rdf_type (subj_to_term r.0)) p_pairs))
        else ok [])

  unfoldable pub apply_cls_avf : GraphName → GraphName → Result (List Triple)
  unfolding collect_restrictions type_pairs_index_by_class
  apply_cls_avf a i = do
    restrictions ← collect_restrictions owl_all_values_from a i
    instances_of ← type_pairs_index_by_class db store a i
    each_ok restrictions (λ (r : Restriction). elim (get instances_of (subj_to_term r.0)) [
      | none ↦ ok []
      | some c_instances ↦ pairs_for_predicate db store r.1.0 a i >>= λ p_pairs.
          let objs_of = group p_pairs in
          ok (
            each c_instances (λ x.
              each (joined objs_of (some x))
                (λ u. if_some (term_to_subj u) (λ u_subj. mk_triple u_subj rdf_type r.1.1 ∷ []))))
    ])

  unfoldable pub apply_cls_hv1 : GraphName → GraphName → Result (List Triple)
  unfolding collect_restrictions type_pairs_index_by_class
  apply_cls_hv1 a i = do
    restrictions ← collect_restrictions owl_has_value a i
    instances_of ← type_pairs_index_by_class db store a i
    ok (
        each restrictions (λ (r : Restriction).
          map (λ x. mk_triple x r.1.0 r.1.1) (joined instances_of (some (subj_to_term r.0)))))

  unfoldable pub apply_cls_hv2 : GraphName → GraphName → Result (List Triple)
  unfolding collect_restrictions
  apply_cls_hv2 a i = do
    restrictions ← collect_restrictions owl_has_value a i
    each_ok restrictions (λ (r : Restriction). pairs_for_predicate db store r.1.0 a i >>= λ p_pairs.
        ok (
          each p_pairs (λ (xo : Subject × Term).
            if xo.1 == r.1.1 then mk_triple xo.0 rdf_type (subj_to_term r.0) ∷ [] else [])))
