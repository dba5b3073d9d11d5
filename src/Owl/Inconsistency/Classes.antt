-- ===== src/Owl/Inconsistency/Classes.antt =====
-- The detectors of src/functions/rdf_owl_rl/inconsistency.rs about classes: cls-nothing2, cls-com,
-- cls-maxc1, cls-maxqc1, cls-maxqc2, cax-dw and cax-adc.
use sqlite_sparql.Prelude.{
  String, ℕ, List, [], ◌∷◌, ◌++◌, Bool, true, false, ◌&&◌, Option, none, some, Result, ok, ◌>>=◌,
  HashMap, HashSet, get, each, each_ok, contains, ◌==◌, string_eq, text_lt, if◌then◌else◌,
  or_default, parse_u32, select, ◌is◌,
}
use sqlite_sparql.Prelude.Fuel
use sqlite_sparql.Prelude.Fuel.{Fueled}
use sqlite_sparql.Rdf.{NamedNode, Subject, Term, named_node_term, literal, GraphName}
use sqlite_sparql.Rdf.Equality.{subject_eq, term_eq}
use sqlite_sparql.Rdf.Coercions.{subj_to_term, term_to_subj}
use sqlite_sparql.Oxigraph.{QuadStore}
use sqlite_sparql.Graphs.{rdf_type, for_graphs, graphs_to_query, instances_of, pairs_for_predicate}
use sqlite_sparql.Owl.Vocabulary.{
  owl_nothing, owl_thing, owl_complement_of, owl_disjoint_with, owl_all_disjoint_classes,
  owl_members, owl_distinct_members, owl_max_cardinality, owl_max_qualified_cardinality,
  owl_on_property, owl_on_class,
}
use sqlite_sparql.Owl.Rules.{if_some}
use sqlite_sparql.Owl.Inconsistency.{
  ViolationRecord, record_of, sort_and_return, Display, nt_named, in_order, collect_pairs,
  group_by_subject, push_terms, to_map, pairwise, in_lists, type_pairs_index_by_class,
  type_pairs_index_by_subject,
}
use sqlite_sparql.Owl.Inconsistency.Properties.{named_values, same_flag}

-- The integer comparison of a cardinality: a literal whose text parses as the `u32`.
unfoldable pub literal_int_value_eq : Term → ℕ → Bool
unfolding parse_u32
literal_int_value_eq (literal l) target = elim (parse_u32 l.value) [
  | some v ↦ v is target
  | none ↦ false
]
literal_int_value_eq _ target = false

-- `iter().min_by(|a, b| text(a).cmp(&text(b)))`: of equal ones the first
unfoldable pub min_by : (Term → String) → List Term → Option Term
min_by text [] = none
min_by text (t ∷ ts) = elim (min_by text ts) [
  | none ↦ some t
  | some u ↦ if text_lt (text u) (text t) then some u else some t
]

-- does the object have the class as a type?
unfoldable pub has_type : HashMap Subject (HashSet Term) → Term → Term → Bool
has_type types_of cls y = elim (term_to_subj y) [
  | none ↦ false
  | some y_subj ↦ contains (or_default (get types_of y_subj) []) cls
]

-- the restrictions of one maximum that have a property and a class, and the class asked for
unfoldable pub qualified_restrictions :
    ℕ
    → Bool
    → HashMap Subject NamedNode
    → HashMap Subject Term
    → List (Subject × Term)
    → List (Subject × (NamedNode × Term))
unfolding literal_int_value_eq
qualified_restrictions target thing_only on_of on_class_of max_qc =
    each max_qc (λ (cv : Subject × Term).
      if literal_int_value_eq cv.1 target
      then (if_some (get on_of cv.0) (λ p. if_some (get on_class_of cv.0) (λ cls.
          if same_flag thing_only (cls == named_node_term owl_thing)
          then (cv.0, (p, cls)) ∷ []
          else [])))
      else [])

module _ (db : QuadStore) (store : db.Store) where
  unfoldable pub collect_cardinality_restrictions :
      NamedNode → ℕ → GraphName → GraphName → Result (List (Subject × NamedNode))
  unfolding literal_int_value_eq
  collect_cardinality_restrictions cardinality_predicate target_value a i = do
    on_property_pairs ← pairs_for_predicate db store owl_on_property a i
    let on_of = to_map [] (named_values on_property_pairs)
    card_pairs ← pairs_for_predicate db store cardinality_predicate a i
    ok (
        each card_pairs (λ (cv : Subject × Term).
          if literal_int_value_eq cv.1 target_value
          then if_some (get on_of cv.0) (λ p. (cv.0, p) ∷ [])
          else []))

module _ (db : QuadStore) (store : db.Store) (text : Display) where
  open text use {nt_subject, nt_term}

  unfoldable pub detect_cls_nothing2 : GraphName → GraphName → Result (List ViolationRecord)
  detect_cls_nothing2 a i = do
    out ←
        for_graphs db store
          (λ out q.
            out
            ++ record_of "cls-nothing2" (nt_subject q.subject) (nt_named rdf_type)
                (nt_named owl_nothing)
              ∷ [])
          none (some rdf_type) (some (named_node_term owl_nothing)) [] (graphs_to_query a i)
    ok (sort_and_return out)

  -- every node that has both types
  unfoldable pub typed_as_both :
      String → HashMap Subject (HashSet Term) → Option (Term × Term) → List ViolationRecord
  typed_as_both rule types_of none = []
  typed_as_both rule types_of (some (lo, hi)) = each types_of (λ (st : Subject × HashSet Term).
      if contains st.1 lo && contains st.1 hi
      then record_of rule (nt_subject st.0) (nt_named rdf_type) (nt_term lo) ∷ []
      else [])

  -- the loop over the pairs of classes of one predicate, which cls-com and cax-dw share
  unfoldable pub detect_pairs :
      String → NamedNode → GraphName → GraphName → Result (List ViolationRecord)
  unfolding typed_as_both in_order type_pairs_index_by_subject
  detect_pairs rule predicate a i = do
    pairs ← pairs_for_predicate db store predicate a i
    types_of ← type_pairs_index_by_subject db store a i
    ok (
        sort_and_return (
          each pairs (λ (cc : Subject × Term).
            typed_as_both rule types_of (in_order nt_term (subj_to_term cc.0) cc.1))))

  unfoldable pub detect_cls_com : GraphName → GraphName → Result (List ViolationRecord)
  unfolding detect_pairs
  detect_cls_com a i = detect_pairs "cls-com" owl_complement_of a i

  unfoldable pub detect_cax_dw : GraphName → GraphName → Result (List ViolationRecord)
  unfolding detect_pairs
  detect_cax_dw a i = detect_pairs "cax-dw" owl_disjoint_with a i

  -- For each instance of a restriction class: the smallest of its values of `p` that qualify.
  unfoldable pub too_many :
      String
      → (Term → Bool)
      → HashMap Term (HashSet Subject)
      → HashMap Subject (List Term)
      → Subject
      → NamedNode
      → List ViolationRecord
  unfolding min_by
  too_many rule qualifies instances_idx by_subj c p =
      each (or_default (get instances_idx (subj_to_term c)) []) (λ x.
        if_some (get by_subj x) (λ objs.
          if_some (min_by nt_term (select qualifies objs))
            (λ o. record_of rule (nt_subject x) (nt_named p) (nt_term o) ∷ [])))

  unfoldable pub detect_cls_maxc1 : GraphName → GraphName → Result (List ViolationRecord)
  unfolding too_many collect_cardinality_restrictions type_pairs_index_by_class
  detect_cls_maxc1 a i = do
    restrictions ← collect_cardinality_restrictions db store owl_max_cardinality 0 a i
    instances_idx ← type_pairs_index_by_class db store a i
    out ← each_ok restrictions (λ (cp : Subject × NamedNode).
        collect_pairs db store cp.1 a i >>= λ p_pairs.
        ok (too_many "cls-maxc1" (λ o. true) instances_idx (group_by_subject p_pairs) cp.0 cp.1))
    ok (sort_and_return out)

  unfoldable pub detect_maxqc_zero : Bool → GraphName → GraphName → Result (List ViolationRecord)
  unfolding qualified_restrictions too_many has_type type_pairs_index_by_class
      type_pairs_index_by_subject
  detect_maxqc_zero thing_only a i = do
    on_property ← pairs_for_predicate db store owl_on_property a i
    on_class ← pairs_for_predicate db store owl_on_class a i
    max_qc ← pairs_for_predicate db store owl_max_qualified_cardinality a i
    let restrictions =
        qualified_restrictions 0 thing_only (to_map [] (named_values on_property))
          (to_map [] on_class) max_qc
    instances_idx ← type_pairs_index_by_class db store a i
    types_of ← type_pairs_index_by_subject db store a i
    out ← each_ok restrictions (λ (r : Subject × (NamedNode × Term)).
        collect_pairs db store r.1.0 a i >>= λ p_pairs. ok (
          too_many (if thing_only then "cls-maxqc2" else "cls-maxqc1")
            (λ o. if thing_only then true else has_type types_of r.1.1 o) instances_idx
            (group_by_subject p_pairs) r.0 r.1.0))
    ok (sort_and_return out)

  unfoldable pub detect_cls_maxqc1 : GraphName → GraphName → Result (List ViolationRecord)
  unfolding detect_maxqc_zero
  detect_cls_maxqc1 a i = detect_maxqc_zero false a i

  unfoldable pub detect_cls_maxqc2 : GraphName → GraphName → Result (List ViolationRecord)
  unfolding detect_maxqc_zero
  detect_cls_maxqc2 a i = detect_maxqc_zero true a i

  unfoldable pub detect_cax_adc : ℕ → GraphName → GraphName → Fueled (List ViolationRecord)
  unfolding typed_as_both in_order in_lists type_pairs_index_by_subject
  detect_cax_adc fuel a i =
      Fuel.◌>>=◌ (some (instances_of db store owl_all_disjoint_classes a i)) (λ containers.
        Fuel.◌>>=◌ (some (pairs_for_predicate db store owl_members a i)) (λ members_pairs.
          Fuel.◌>>=◌ (some (pairs_for_predicate db store owl_distinct_members a i))
            (λ distinct_pairs.
              Fuel.◌>>=◌ (some (type_pairs_index_by_subject db store a i)) (λ types_of.
                Fuel.◌>>=◌
                  (in_lists db store fuel (graphs_to_query a i) containers
                    (push_terms (group_by_subject members_pairs) distinct_pairs)
                    (λ list. ok (
                      each (pairwise list) (λ (cc : Term × Term).
                        typed_as_both "cax-adc" types_of (in_order nt_term cc.0 cc.1)))))
                  (λ out. some (ok (sort_and_return out)))))))
