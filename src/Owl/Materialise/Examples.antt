-- ===== src/Owl/Materialise/Examples.antt =====
-- The fixpoint loop of src/functions/rdf_owl_rl.rs with one rule, which derives an axiom.
use sqlite_sparql.Prelude.{
  ◌⊎◌, ℕ, ◌+◌, ◌<◌, String, List, [], ◌∷◌, ◌≡◌, refl, subst, arith, true, none, ok, string_eq,
  contains, Within, length, to_set,
}
use sqlite_sparql.Rdf.{
  named_node, named_node_term, Triple, mk_triple, default_graph, named_graph, Quad,
}
use sqlite_sparql.Rdf.Equality.{quad_eq, subject_eq, term_eq, triple_eq, graph_name_eq}
use sqlite_sparql.Oxigraph.ListStore.{list_store, list_store-IsQuadSet}
use sqlite_sparql.Oxigraph.Samples.{parsers}
use sqlite_sparql.Graphs.{rdf_type}
use sqlite_sparql.DependencyIndex.{empty_index}
use sqlite_sparql.Dred.{World}
use sqlite_sparql.Oxigraph.Sizes.{size}
use sqlite_sparql.Owl.Vocabulary.{owl_class, owl_thing}
use sqlite_sparql.Owl.Materialise.{Job, Rule, default_options, quad_in, fixpoint}
use sqlite_sparql.Owl.Materialise.Closed.{IsClosed, fixpoint-IsClosed}
use sqlite_sparql.Owl.Materialise.Frame.{fixpoint-Grows}
use sqlite_sparql.Owl.Materialise.Converges.{IsBounded, fixpoint-converges}

abbrev axiom_triple : Triple
axiom_triple = mk_triple (named_node owl_thing) rdf_type (named_node_term owl_class)

abbrev one_rule : List (Rule list_store)
one_rule =
    record { iri = "cls-thing"; apply = λ s a i. ok (axiom_triple ∷ []); apply_tracked = none } ∷ []

abbrev job : Job
job = record {
  opts = default_options;
  asserted_g = default_graph;
  inferred_g = named_graph "urn:i";
  derived_by_node = "urn:by";
  derived_at_node = "urn:at";
}

abbrev world : World list_store
world = record { store = []; index = empty_index }

abbrev now : ℕ → String
now left = "2024-01-01T00:00:00Z"

abbrev universe : List Quad
universe = quad_in job.inferred_g axiom_triple ∷ []

there : contains universe (quad_in job.inferred_g axiom_triple) ≡ true
there = ground (
  arith,
  quad_eq.beq_iff (quad_in job.inferred_g axiom_triple) (quad_in job.inferred_g axiom_triple),
)

nothing_held : Within (list_store-IsQuadSet.contents []) universe
unfolding to_set
nothing_held a m = cc m

two_enough : length universe < 2 + size list_store list_store-IsQuadSet world.store
two_enough = omega arith

bounded : IsBounded parsers list_store list_store-IsQuadSet universe job one_rule
bounded s within = (
  λ run. (
    axiom_triple ∷ [],
    refl,
    λ t m.
        subst (λ u. contains universe (quad_in job.inferred_g u) ≡ true)
          ((triple_eq.beq_iff axiom_triple t).0 (ground arith)) there,
  ),
  tt,
)

fixpoint-converges_example : (fixpoint parsers list_store one_rule now job 2 world).1 ≡ ok tt
fixpoint-converges_example =
    fixpoint-converges parsers list_store list_store-IsQuadSet universe job refl one_rule now
      bounded 2 world nothing_held two_enough

converged : (fixpoint parsers list_store one_rule now job 2 world).1 ≡ ok tt
converged =
    fixpoint-converges parsers list_store list_store-IsQuadSet universe job refl one_rule now
      bounded 2 world nothing_held two_enough

fixpoint-IsClosed_example :
    IsClosed parsers list_store
      (fixpoint parsers list_store one_rule now job 2 world).0.store
      job
      one_rule
fixpoint-IsClosed_example = fixpoint-IsClosed parsers list_store one_rule now job 2 world converged

abbrev after : List Quad
after = (fixpoint parsers list_store one_rule now job 2 world).0.store

abbrev added : Quad
added = quad_in job.inferred_g axiom_triple

fixpoint-Grows_example :
    (contains (list_store-IsQuadSet.contents world.store) added ≡ true
      → contains (list_store-IsQuadSet.contents after) added ≡ true)
    × (contains (list_store-IsQuadSet.contents after) added ≡ true
        → (contains (list_store-IsQuadSet.contents world.store) added ≡ true)
          ⊎ (added.graph_name ≡ job.inferred_g))
fixpoint-Grows_example =
    fixpoint-Grows parsers list_store list_store-IsQuadSet one_rule now job 2 world added
