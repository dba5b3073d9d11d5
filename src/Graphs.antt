-- ===== src/Graphs.antt =====
-- Reading the premise graphs: the helpers of src/functions/rdf_owl_rl/rules.rs that collect pairs,
-- instances and triples from the asserted and the inferred graph.
pub mod Holds
pub mod Collected
pub mod Scanned
use sqlite_sparql.Prelude.{
  List, [], ◌∷◌, Option, none, some, Result, ok, err, store_error, ◌>>=◌, HashSet, insert, String,
  ◌==◌, if◌then◌else◌, pair_eq, string_eq, Bool,
}
use sqlite_sparql.Rdf.{NamedNode, Subject, Term, named_node_term, GraphName, Quad}
use sqlite_sparql.Rdf.Equality.{subject_eq, term_eq, graph_name_eq}
use sqlite_sparql.Oxigraph.{QuadStore}

abbrev pub rdf_type : NamedNode
rdf_type = "http://www.w3.org/1999/02/22-rdf-syntax-ns#type"

-- `for q in quads { let q = q.map_err(…)?; body }`, over the variable that the body changes
unfoldable pub for_quads {ℓ} : {B : Type ℓ} → (B → Quad → B) → B → List (Option Quad) → Result B
for_quads body out [] = ok out
for_quads body out (none ∷ quads) = err (store_error "{e}")
for_quads body out (some q ∷ quads) = for_quads body (body out q) quads

-- the asserted graph, then the inferred graph; once if they are the same
unfoldable pub graphs_to_query : GraphName → GraphName → List GraphName
graphs_to_query a i = if a == i then a ∷ [] else a ∷ i ∷ []

module _ (db : QuadStore) (store : db.Store) where
  -- the loop over the graphs around the loop over the quads of a pattern
  unfoldable pub for_graphs {ℓ} :
      {B : Type ℓ}
      → (B → Quad → B)
      → Option Subject
      → Option NamedNode
      → Option Term
      → B
      → List GraphName
      → Result B
  unfolding for_quads
  for_graphs body s p o out [] = ok out
  for_graphs body s p o out (g ∷ graphs) =
      for_quads body out (db.quads_for_pattern store s p o (some g)) >>= λ out'.
      for_graphs body s p o out' graphs

  unfoldable pub pairs_for_predicate :
      NamedNode → GraphName → GraphName → Result (HashSet (Subject × Term))
  unfolding for_graphs graphs_to_query
  pairs_for_predicate predicate asserted inferred =
      for_graphs (λ out q. insert out (q.subject, q.object)) none (some predicate) none []
        (graphs_to_query asserted inferred)

  unfoldable pub instances_of : NamedNode → GraphName → GraphName → Result (HashSet Subject)
  unfolding for_graphs graphs_to_query
  instances_of target_class asserted inferred =
      for_graphs (λ out q. insert out q.subject) none (some rdf_type)
        (some (named_node_term target_class)) [] (graphs_to_query asserted inferred)

  unfoldable pub all_quads : GraphName → GraphName → Result (HashSet (Subject × (NamedNode × Term)))
  unfolding for_graphs graphs_to_query
  all_quads asserted inferred =
      for_graphs (λ out q. insert out (q.subject, (q.predicate, q.object))) none none none []
        (graphs_to_query asserted inferred)
