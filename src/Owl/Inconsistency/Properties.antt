-- ===== src/Owl/Inconsistency/Properties.antt =====
-- The detectors of src/functions/rdf_owl_rl/inconsistency.rs about properties: prp-irp, prp-asyp,
-- prp-pdw, prp-adp, prp-npa1 and prp-npa2.
use sqlite_sparql.Prelude.{
  String, ℕ, List, [], ◌∷◌, ◌++◌, Bool, true, false, not, none, some, Result, ok, ◌>>=◌, HashMap,
  HashSet, get, each, each_ok, contains, ◌==◌, string_eq, pair_eq, text_lt, if◌then◌else◌,
}
use sqlite_sparql.Prelude.Fuel
use sqlite_sparql.Prelude.Fuel.{Fueled}
use sqlite_sparql.Rdf.{NamedNode, Subject, Term, literal, GraphName}
use sqlite_sparql.Rdf.Equality.{subject_eq, term_eq}
use sqlite_sparql.Rdf.Coercions.{subj_to_term, term_to_subj, term_to_named}
use sqlite_sparql.Oxigraph.{QuadStore}
use sqlite_sparql.Graphs.{for_graphs, graphs_to_query, instances_of, pairs_for_predicate}
use sqlite_sparql.Owl.Vocabulary.{
  owl_irreflexive_property, owl_asymmetric_property, owl_property_disjoint_with,
  owl_all_disjoint_properties, owl_members, owl_source_individual, owl_assertion_property,
  owl_target_value, owl_target_individual,
}
use sqlite_sparql.Owl.Rules.{named, named_pair, if_some}
use sqlite_sparql.Owl.Inconsistency.{
  ViolationRecord, record_of, sort_and_return, Display, nt_named, in_order, collect_pairs,
  group_by_subject, to_map, pairwise, in_lists,
}

-- `let Some(n) = term_to_named(&t) else { continue }`
unfoldable pub named_term : Term → List NamedNode
named_term t = if_some (term_to_named t) (λ n. n ∷ [])

abbrev pub is_literal : Term → Bool
is_literal (literal l) = true
is_literal _ = false

abbrev pub same_flag : Bool → Bool → Bool
same_flag true b = b
same_flag false b = not b

-- `filter_map(|(b, p)| term_to_named(&p).map(|n| (b, n)))`
unfoldable pub named_values : List (Subject × Term) → List (Subject × NamedNode)
named_values [] = []
named_values ((b, p) ∷ pairs) = if_some (term_to_named p) (λ n. (b, n) ∷ []) ++ named_values pairs

module _ (db : QuadStore) (store : db.Store) (text : Display) where
  open text use {nt_subject, nt_term}

  unfoldable pub irreflexive_violation : NamedNode → Subject → Term → List ViolationRecord
  irreflexive_violation p x y =
      if subj_to_term x == y
      then record_of "prp-irp" (nt_subject x) (nt_named p) (nt_term y) ∷ []
      else []

  unfoldable pub detect_prp_irp : GraphName → GraphName → Result (List ViolationRecord)
  unfolding irreflexive_violation named
  detect_prp_irp a i = do
    irreflexive_props ← instances_of db store owl_irreflexive_property a i
    out ← each_ok (each irreflexive_props named) (λ p.
        for_graphs db store (λ out q. out ++ irreflexive_violation p q.subject q.object) none
          (some p) none [] (graphs_to_query a i))
    ok (sort_and_return out)

  unfoldable pub asymmetric_violation :
      NamedNode → HashSet (Subject × Term) → Subject × Term → List ViolationRecord
  asymmetric_violation p pairs xy = if_some (term_to_subj xy.1) (λ y_subj.
      let x_term = subj_to_term xy.0 in
      if x_term == xy.1
      then []
      else if contains pairs (y_subj, x_term)
      then (if text_lt (nt_subject xy.0) (nt_term xy.1)
          then record_of "prp-asyp" (nt_subject xy.0) (nt_named p) (nt_term xy.1) ∷ []
          else [])
      else [])

  unfoldable pub detect_prp_asyp : GraphName → GraphName → Result (List ViolationRecord)
  unfolding asymmetric_violation named collect_pairs
  detect_prp_asyp a i = do
    asymmetric_props ← instances_of db store owl_asymmetric_property a i
    out ← each_ok (each asymmetric_props named) (λ p.
        collect_pairs db store p a i >>= λ pairs. ok (each pairs (asymmetric_violation p pairs)))
    ok (sort_and_return out)

  -- the body for two properties that are disjoint
  unfoldable pub shared_pairs :
      String → NamedNode × NamedNode → GraphName → GraphName → Result (List ViolationRecord)
  unfolding in_order collect_pairs
  shared_pairs rule pp a i = elim (in_order (λ p. p) pp.0 pp.1) [
    | none ↦ ok []
    | some (lo, hi) ↦ collect_pairs db store lo a i >>= λ lo_pairs.
        collect_pairs db store hi a i >>= λ hi_pairs. ok (
          each lo_pairs (λ (xy : Subject × Term).
            if contains hi_pairs xy
            then record_of rule (nt_subject xy.0) (nt_named lo) (nt_term xy.1) ∷ []
            else []))
  ]

  unfoldable pub detect_prp_pdw : GraphName → GraphName → Result (List ViolationRecord)
  unfolding shared_pairs named_pair
  detect_prp_pdw a i = do
    pairs ← pairs_for_predicate db store owl_property_disjoint_with a i
    out ← each_ok (each pairs named_pair) (λ pp. shared_pairs "prp-pdw" pp a i)
    ok (sort_and_return out)

  unfoldable pub detect_prp_adp : ℕ → GraphName → GraphName → Fueled (List ViolationRecord)
  unfolding shared_pairs named_term in_lists
  detect_prp_adp fuel a i =
      Fuel.◌>>=◌ (some (instances_of db store owl_all_disjoint_properties a i)) (λ containers.
        Fuel.◌>>=◌ (some (pairs_for_predicate db store owl_members a i)) (λ members_pairs.
          Fuel.◌>>=◌
            (in_lists db store fuel (graphs_to_query a i) containers
              (group_by_subject members_pairs)
              (λ list.
                each_ok (pairwise (each list named_term)) (λ pp. shared_pairs "prp-adp" pp a i)))
            (λ out. some (ok (sort_and_return out)))))

  -- Is there any quad of the pattern? An error of the store counts as one.
  unfoldable pub any_quad : Subject → NamedNode → Term → List GraphName → Bool
  any_quad x p y [] = false
  any_quad x p y (g ∷ graphs) =
      let rest = any_quad x p y graphs in
      elim (db.quads_for_pattern store (some x) (some p) (some y) (some g)) [
        | [] ↦ rest
        | q ∷ quads ↦ true
      ]

  -- the body for one negative property assertion
  unfoldable pub contradicted :
      Bool
      → String
      → HashMap Subject NamedNode
      → HashMap Subject Term
      → List GraphName
      → Subject × Term
      → List ViolationRecord
  unfolding any_quad
  contradicted literal_target rule_name property_of target_of graphs ns =
      if_some (term_to_subj ns.1) (λ source. if_some (get property_of ns.0) (λ p.
        if_some (get target_of ns.0) (λ target.
          if same_flag (is_literal target) literal_target
          then (if any_quad source p target graphs
              then record_of rule_name (nt_subject source) (nt_named p) (nt_term target) ∷ []
              else [])
          else [])))

  unfoldable pub detect_npa : Bool → GraphName → GraphName → Result (List ViolationRecord)
  unfolding contradicted named_values
  detect_npa literal_target a i = do
    source_pairs ← pairs_for_predicate db store owl_source_individual a i
    property_pairs ← pairs_for_predicate db store owl_assertion_property a i
    target_pairs ←
        pairs_for_predicate db store
          (if literal_target then owl_target_value else owl_target_individual) a i
    ok (
        sort_and_return (
          each source_pairs (
            contradicted literal_target (if literal_target then "prp-npa2" else "prp-npa1")
              (to_map [] (named_values property_pairs)) (to_map [] target_pairs)
              (graphs_to_query a i))))

  unfoldable pub detect_prp_npa1 : GraphName → GraphName → Result (List ViolationRecord)
  unfolding detect_npa
  detect_prp_npa1 a i = detect_npa false a i

  unfoldable pub detect_prp_npa2 : GraphName → GraphName → Result (List ViolationRecord)
  unfolding detect_npa
  detect_prp_npa2 a i = detect_npa true a i
