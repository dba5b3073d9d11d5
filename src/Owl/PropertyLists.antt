-- ===== src/Owl/PropertyLists.antt =====
-- The rules of src/functions/rdf_owl_rl/rules.rs that read a list of properties: keys (prp-key) and
-- property chains (prp-spo2).
pub mod Products
pub mod Keys
pub mod Tuples
pub mod Derived
pub mod Pushed
pub mod Chains
use sqlite_sparql.Prelude.{
  ℕ, List, [], ◌∷◌, ◌++◌, Bool, true, false, Option, none, some, map, Result, ok, ◌>>=◌, HashMap,
  HashSet, get, put, insert, contains, each, each_ok, joined, select, string_eq, list_eq, pair_eq,
  ◌==◌, Eq, ltb, length, if◌then◌else◌, or_default,
}
use sqlite_sparql.Prelude.Fuel
use sqlite_sparql.Prelude.Fuel.{Fueled}
use sqlite_sparql.Rdf.{NamedNode, Subject, Term, named_node_term, Triple, mk_triple, GraphName}
use sqlite_sparql.Rdf.Equality.{subject_eq, term_eq}
use sqlite_sparql.Rdf.Coercions.{subj_to_term, term_to_subj, term_to_named}
use sqlite_sparql.Oxigraph.{QuadStore}
use sqlite_sparql.Graphs.{rdf_type, for_graphs, graphs_to_query, instances_of, pairs_for_predicate}
use sqlite_sparql.Lists.{walk_list}
use sqlite_sparql.Owl.Vocabulary.{
  owl_same_as, owl_thing, owl_functional_property, owl_inverse_functional_property, owl_has_key,
  owl_property_chain_axiom, owl_max_cardinality, owl_max_qualified_cardinality, owl_on_property,
  owl_on_class,
}
use sqlite_sparql.Owl.Rules.{if_some, named_key}
use sqlite_sparql.Owl.Restrictions.{push_values}
use sqlite_sparql.Owl.Merging.{same_subjects, objects_by_subject}
use sqlite_sparql.Owl.Inconsistency.{
  pairwise, to_map, group_by_subject, each_fueled, type_pairs_index_by_class,
  type_pairs_index_by_subject,
}
use sqlite_sparql.Owl.Inconsistency.Properties.{named_values, same_flag}
use sqlite_sparql.Owl.Inconsistency.Classes.{
  collect_cardinality_restrictions, has_type, qualified_restrictions,
}

-- `members.iter().map(term_to_named).collect()`: nothing if one of them is no IRI
unfoldable pub all_named : List Term → Option (List NamedNode)
all_named [] = some []
all_named (t ∷ ts) = elim (term_to_named t) [
  | none ↦ none
  | some n ↦ elim (all_named ts) [ none ↦ none | some ns ↦ some (n ∷ ns) ]
]

-- the loop of the cartesian product
unfoldable pub extend_all : List (List Term) → List (List Term) → List (List Term)
extend_all result [] = result
extend_all result ([] ∷ sets) = []
extend_all result ((item ∷ items) ∷ sets) =
    extend_all (each result (λ partial. map (λ t. partial ++ t ∷ []) (item ∷ items))) sets

unfoldable pub cartesian_product : List (List Term) → List (List Term)
unfolding extend_all
cartesian_product sets = extend_all ([] ∷ []) sets

-- the values of an instance under each key property; nothing if one of them has no value
unfoldable pub value_sets :
    List (HashMap Subject (HashSet Term)) → Subject → Option (List (List Term))
value_sets [] inst = some []
value_sets (vp ∷ vps) inst = elim (or_default (get vp inst) []) [
  | [] ↦ none
  | t ∷ ts ↦ elim (value_sets vps inst) [ none ↦ none | some sets ↦ some ((t ∷ ts) ∷ sets) ]
]

-- the instances by their key tuples
abbrev pub by_tuple :
    List (HashMap Subject (HashSet Term)) → HashSet Subject → HashMap (List Term) (List Subject)
by_tuple values_per_prop insts = push_values [] (
    each insts (λ inst.
      if_some (value_sets values_per_prop inst)
        (λ sets. map (λ tup. (tup, inst)) (cartesian_product sets))))

-- the instances that share a key tuple
abbrev pub merge_bucket : List Subject → List Triple
merge_bucket bucket = if ltb (length bucket) 2 then [] else each (pairwise bucket) same_subjects

-- `current` indexed by its end terms, as a list of pairs
abbrev pub by_end : HashSet (Subject × Term) → List (Term × Subject)
by_end current = map (λ (st : Subject × Term). (st.1, st.0)) current

-- `for s in starts { next.insert((s.clone(), object)) }`
unfoldable pub insert_starts :
    HashSet (Subject × Term) → List Subject → Term → HashSet (Subject × Term)
insert_starts next [] object = next
insert_starts next (s ∷ starts) object = insert_starts (insert next (s, object)) starts object

module _ (db : QuadStore) (store : db.Store) where
  unfoldable pub value_indexes :
      List GraphName → List NamedNode → Result (List (HashMap Subject (HashSet Term)))
  unfolding objects_by_subject
  value_indexes graphs [] = ok []
  value_indexes graphs (kp ∷ kps) = do
    v ← objects_by_subject db store kp graphs
    vs ← value_indexes graphs kps
    ok (v ∷ vs)

  -- the triples that a chain of properties makes with the first pairs, property by property
  unfoldable pub join_chain :
      List GraphName → HashSet (Subject × Term) → List NamedNode → Result (HashSet (Subject × Term))
  unfolding for_graphs insert_starts push_values
  join_chain graphs current [] = ok current
  join_chain graphs [] (prop ∷ props) = ok []
  join_chain graphs (st ∷ sts) (prop ∷ props) =
      let ends = push_values [] (by_end (st ∷ sts)) in
      for_graphs db store
        (λ next q. insert_starts next (or_default (get ends (subj_to_term q.subject)) []) q.object)
        none (some prop) none [] graphs
      >>= λ next. join_chain graphs next props

  -- the body of prp-spo2 for a chain whose members have been read
  unfoldable pub chain_triples :
      List GraphName → NamedNode → Option (List NamedNode) → Result (List Triple)
  unfolding join_chain for_graphs
  chain_triples graphs p (some (first ∷ props)) = do
    current ←
        for_graphs db store (λ out q. insert out (q.subject, q.object)) none (some first) none []
          graphs
    found ← join_chain graphs current props
    ok (map (λ (st : Subject × Term). mk_triple st.0 p st.1) found)
  chain_triples graphs p other = ok []

  unfoldable pub apply_prp_spo2 : ℕ → GraphName → GraphName → Fueled (List Triple)
  unfolding chain_triples each_fueled named_key all_named
  apply_prp_spo2 fuel a i =
      Fuel.◌>>=◌ (some (pairs_for_predicate db store owl_property_chain_axiom a i)) (λ chain_pairs.
        each_fueled (each chain_pairs named_key) (λ (ph : NamedNode × Term).
          elim (term_to_subj ph.1) [
            | none ↦ some (ok [])
            | some chain_head ↦
                Fuel.◌>>=◌ (walk_list db store fuel chain_head (graphs_to_query a i)) (λ found.
                  elim found [
                    | none ↦ some (ok [])
                    | some members ↦
                        some (chain_triples (graphs_to_query a i) ph.0 (all_named members))
                  ])
          ]))

  -- the body of prp-key for a key whose members have been read
  unfoldable pub key_triples :
      List GraphName
      → HashMap Term (HashSet Subject)
      → Subject
      → Option (List NamedNode)
      → Result (List Triple)
  unfolding value_indexes cartesian_product value_sets push_values
  key_triples graphs instances_idx c (some (kp ∷ kps)) = elim (get instances_idx (subj_to_term c)) [
    | none ↦ ok []
    | some insts ↦ value_indexes graphs (kp ∷ kps) >>= λ values_per_prop. ok (
        each (by_tuple values_per_prop insts)
          (λ (ts : List Term × List Subject). merge_bucket ts.1))
  ]
  key_triples graphs instances_idx c other = ok []

  unfoldable pub apply_prp_key : ℕ → GraphName → GraphName → Fueled (List Triple)
  unfolding key_triples each_fueled all_named type_pairs_index_by_class
  apply_prp_key fuel a i =
      Fuel.◌>>=◌ (some (pairs_for_predicate db store owl_has_key a i)) (λ has_key_pairs.
        Fuel.◌>>=◌ (some (type_pairs_index_by_class db store a i)) (λ instances_idx.
          each_fueled has_key_pairs (λ (ck : Subject × Term). elim (term_to_subj ck.1) [
            | none ↦ some (ok [])
            | some key_head ↦
                Fuel.◌>>=◌ (walk_list db store fuel key_head (graphs_to_query a i)) (λ found.
                  elim found [
                    | none ↦ some (ok [])
                    | some key_members ↦ some (
                        key_triples (graphs_to_query a i) instances_idx ck.0
                          (all_named key_members))
                  ])
          ])))
