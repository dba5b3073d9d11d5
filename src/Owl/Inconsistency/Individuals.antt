-- ===== src/Owl/Inconsistency/Individuals.antt =====
-- The detectors of src/functions/rdf_owl_rl/inconsistency.rs about individuals: eq-diff1, eq-diff2 and
-- eq-diff3.
use sqlite_sparql.Prelude.{
  String, ℕ, List, [], ◌∷◌, ◌||◌, none, some, Result, ok, ◌>>=◌, HashSet, insert, each, contains,
  string_eq, pair_eq, if◌then◌else◌,
}
use sqlite_sparql.Prelude.Fuel
use sqlite_sparql.Prelude.Fuel.{Fueled}
use sqlite_sparql.Rdf.{NamedNode, Subject, Term, GraphName}
use sqlite_sparql.Oxigraph.{QuadStore}
use sqlite_sparql.Graphs.{graphs_to_query, instances_of, pairs_for_predicate}
use sqlite_sparql.Owl.Vocabulary.{
  owl_different_from, owl_same_as, owl_all_different, owl_members, owl_distinct_members,
}
use sqlite_sparql.Owl.Inconsistency.{
  ViolationRecord, record_of, sort_and_return, Display, nt_named, in_order, group_by_subject,
  pairwise, in_lists,
}

module _ (text : Display) where
  open text use {nt_subject, nt_term}

  -- the set of the pairs of texts, in the direction of the triples
  unfoldable pub same_texts :
      HashSet (String × String) → List (Subject × Term) → HashSet (String × String)
  same_texts same_set [] = same_set
  same_texts same_set ((s, t) ∷ pairs) =
      same_texts (insert same_set (nt_subject s, nt_term t)) pairs

  -- the same in both directions
  unfoldable pub same_texts_both :
      HashSet (String × String) → List (Subject × Term) → HashSet (String × String)
  same_texts_both same_set [] = same_set
  same_texts_both same_set ((s, t) ∷ pairs) =
      same_texts_both (insert (insert same_set (nt_subject s, nt_term t)) (nt_term t, nt_subject s))
        pairs

-- the record of two texts, the smaller first
unfoldable pub same_violation : String → String → String → List ViolationRecord
unfolding in_order
same_violation rule x y = elim (in_order (λ w. w) x y) [
  | none ↦ []
  | some (lo, hi) ↦ record_of rule lo (nt_named owl_same_as) hi ∷ []
]

module _ (db : QuadStore) (store : db.Store) (text : Display) where
  open text use {nt_subject, nt_term}

  unfoldable pub detect_eq_diff1 : GraphName → GraphName → Result (List ViolationRecord)
  unfolding same_texts same_violation
  detect_eq_diff1 a i = do
    diff_pairs ← pairs_for_predicate db store owl_different_from a i
    same_pairs ← pairs_for_predicate db store owl_same_as a i
    let same_set = same_texts text [] same_pairs
    ok (
        sort_and_return (
          each diff_pairs (λ (xy : Subject × Term).
            let x_nt = nt_subject xy.0 in
            let y_nt = nt_term xy.1 in
            if contains same_set (x_nt, y_nt) || contains same_set (y_nt, x_nt)
            then same_violation "eq-diff1" x_nt y_nt
            else [])))

  unfoldable pub detect_all_different :
      NamedNode → String → ℕ → GraphName → GraphName → Fueled (List ViolationRecord)
  unfolding same_texts_both same_violation in_lists
  detect_all_different members_pred rule_name fuel a i =
      Fuel.◌>>=◌ (some (instances_of db store owl_all_different a i)) (λ containers.
        Fuel.◌>>=◌ (some (pairs_for_predicate db store members_pred a i)) (λ members_pairs.
          Fuel.◌>>=◌ (some (pairs_for_predicate db store owl_same_as a i)) (λ same_pairs.
            let same_set = same_texts_both text [] same_pairs in
            Fuel.◌>>=◌
              (in_lists db store fuel (graphs_to_query a i) containers
                (group_by_subject members_pairs)
                (λ list. ok (
                  each (pairwise list) (λ (xx : Term × Term).
                    if contains same_set (nt_term xx.0, nt_term xx.1)
                    then same_violation rule_name (nt_term xx.0) (nt_term xx.1)
                    else []))))
              (λ out. some (ok (sort_and_return out))))))

  unfoldable pub detect_eq_diff2 : ℕ → GraphName → GraphName → Fueled (List ViolationRecord)
  unfolding detect_all_different
  detect_eq_diff2 = detect_all_different owl_members "eq-diff2"

  unfoldable pub detect_eq_diff3 : ℕ → GraphName → GraphName → Fueled (List ViolationRecord)
  unfolding detect_all_different
  detect_eq_diff3 = detect_all_different owl_distinct_members "eq-diff3"
