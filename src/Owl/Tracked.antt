-- ===== src/Owl/Tracked.antt =====
-- The tracked variants in src/functions/rdf_owl_rl/rules.rs, which also return the premises of what
-- they derive.
pub mod Premises
use sqlite_sparql.Prelude.{
  List, [], ◌∷◌, ◌++◌, Option, none, some, map, Result, ok, ◌>>=◌, Eq, HashMap, get, put,
  or_default, contains, each, if◌then◌else◌, string_eq,
}
use sqlite_sparql.Rdf.{NamedNode, Subject, Term, mk_triple, GraphName, Quad}
use sqlite_sparql.Rdf.Equality.{subject_eq, quad_eq}
use sqlite_sparql.Rdf.Coercions.{term_to_subj, term_to_named}
use sqlite_sparql.Oxigraph.{QuadStore}
use sqlite_sparql.Graphs.{rdf_type, for_graphs, graphs_to_query}
use sqlite_sparql.Owl.Vocabulary.{rdfs_sub_class_of, rdfs_sub_property_of, owl_same_as}
use sqlite_sparql.Owl.Rules.{named_key, if_some}
use sqlite_sparql.Owl.Materialise.{DerivedTriple}

-- `if seen.insert(q.clone()) { out.push(q); }`: what is seen is what was pushed
unfoldable pub push_new : List Quad → Quad → List Quad
push_new out q = if contains out q then out else out ++ q ∷ []

-- `entry(k).or_default().push(v)` for each pair, from the map that the loop has filled so far
unfoldable pub buckets {ℓ} :
    {K V : Type ℓ} ⦃e : Eq K⦄ → HashMap K (List V) → List (K × V) → HashMap K (List V)
buckets m [] = m
buckets m ((k, v) ∷ kvs) = buckets (put m k (or_default (get m k) [] ++ v ∷ [])) kvs

-- the bucket of a key that may be absent
abbrev pub bucket {ℓ} : {K V : Type ℓ} ⦃e : Eq K⦄ → List (K × V) → Option K → List V
bucket kvs none = []
bucket kvs (some k) = or_default (get (buckets [] kvs) k) []

abbrev pub by_subject : Quad → Subject × Quad
by_subject q = (q.subject, q)

-- the quads whose ends are both IRIs, under their subject
unfoldable pub by_named_subject : Quad → List (NamedNode × Quad)
unfolding named_key
by_named_subject q =
    each (named_key (q.subject, q))
      (λ (kq : NamedNode × Quad). if_some (term_to_named q.object) (λ _. kq ∷ []))

module _ (db : QuadStore) (store : db.Store) where
  unfoldable pub quads_for_predicate : NamedNode → GraphName → GraphName → Result (List Quad)
  unfolding push_new
  quads_for_predicate predicate a i =
      for_graphs db store push_new none (some predicate) none [] (graphs_to_query a i)

  unfoldable pub all_quads_vec : GraphName → GraphName → Result (List Quad)
  unfolding push_new
  all_quads_vec a i = for_graphs db store push_new none none none [] (graphs_to_query a i)

  unfoldable pub transitive_closure_tracked :
      NamedNode → GraphName → GraphName → Result (List DerivedTriple)
  unfolding buckets
  transitive_closure_tracked predicate a i = do
    quads ← quads_for_predicate predicate a i
    ok (
        each quads (λ qxy.
          map
            (λ qyz. record {
              triple_of = mk_triple qxy.subject predicate qyz.object;
              premises = qxy ∷ qyz ∷ [];
            })
            (bucket (map by_subject quads) (term_to_subj qxy.object))))

  unfoldable pub apply_scm_sco_tracked : GraphName → GraphName → Result (List DerivedTriple)
  unfolding transitive_closure_tracked
  apply_scm_sco_tracked a i = transitive_closure_tracked rdfs_sub_class_of a i

  unfoldable pub apply_scm_spo_tracked : GraphName → GraphName → Result (List DerivedTriple)
  unfolding transitive_closure_tracked
  apply_scm_spo_tracked a i = transitive_closure_tracked rdfs_sub_property_of a i

  unfoldable pub apply_eq_trans_tracked : GraphName → GraphName → Result (List DerivedTriple)
  unfolding transitive_closure_tracked
  apply_eq_trans_tracked a i = transitive_closure_tracked owl_same_as a i

  unfoldable pub apply_cax_sco_tracked : GraphName → GraphName → Result (List DerivedTriple)
  unfolding buckets
  apply_cax_sco_tracked a i = do
    sub_class_quads ← quads_for_predicate rdfs_sub_class_of a i
    type_quads ← quads_for_predicate rdf_type a i
    ok (
        each type_quads (λ tq.
          map
            (λ sq. record {
              triple_of = mk_triple tq.subject rdf_type sq.object;
              premises = tq ∷ sq ∷ [];
            })
            (bucket (map by_subject sub_class_quads) (term_to_subj tq.object))))

  unfoldable pub apply_prp_spo1_tracked : GraphName → GraphName → Result (List DerivedTriple)
  unfolding buckets by_named_subject
  apply_prp_spo1_tracked a i = do
    sub_prop_quads ← quads_for_predicate rdfs_sub_property_of a i
    quads ← all_quads_vec a i
    ok (
        each quads (λ tq.
          each (bucket (each sub_prop_quads by_named_subject) (some tq.predicate)) (λ sq.
            if_some (term_to_named sq.object) (λ p2_n.
              record { triple_of = mk_triple tq.subject p2_n tq.object; premises = tq ∷ sq ∷ [] }
              ∷ []))))
