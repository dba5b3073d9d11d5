-- ===== src/Store.antt =====
-- The operations of src/store.rs on single triples, its counts, and `clear_store`. The store and the
-- dependency index are the two values that the process shares.
pub mod Counts
mod Examples
use sqlite_sparql.Prelude.{
  ℕ, zero, suc, String, List, [], ◌∷◌, Bool, Option, none, some, Result, SparqlError, ok, err,
  store_error, ◌>>=◌,
}
use sqlite_sparql.Rdf.{GraphName, default_graph, named_graph, Quad}
use sqlite_sparql.Oxigraph.{QuadStore, TermParsers}
use sqlite_sparql.Terms.{build_quad}
use sqlite_sparql.DependencyIndex.{clear}
use sqlite_sparql.Dred.{World}

-- `.map(|_| ()).map_err(…)`, with the store after the call
unfoldable pub reported : {S A : Type 0} → S × Option A → S × Result (Unit {0})
reported (s, none) = (s, err (store_error "{e}"))
reported (s, some _) = (s, ok tt)

-- how many items of the iterator are not errors
unfoldable pub count_ok : List (Option Quad) → ℕ
count_ok [] = 0
count_ok (none ∷ quads) = count_ok quads
count_ok (some q ∷ quads) = suc (count_ok quads)

module _ (db : QuadStore) (api : TermParsers) where
  open db use {Store, insert_quad, remove_quad, clear_quads, len, quads_for_pattern}

  unfoldable pub insert_triple_in_graph :
      Store → String → String → String → Option String → Store × Result (Unit {0})
  unfolding reported
  insert_triple_in_graph store s p o graph = elim (build_quad api s p o graph) [
    | err e ↦ (store, err e)
    | ok quad ↦ reported (insert_quad store quad)
  ]

  unfoldable pub delete_triple_in_graph :
      Store → String → String → String → Option String → Store × Result (Unit {0})
  unfolding reported
  delete_triple_in_graph store s p o graph = elim (build_quad api s p o graph) [
    | err e ↦ (store, err e)
    | ok quad ↦ reported (remove_quad store quad)
  ]

  unfoldable pub insert_triple : Store → String → String → String → Store × Result (Unit {0})
  unfolding insert_triple_in_graph
  insert_triple store s p o = insert_triple_in_graph store s p o none

  unfoldable pub delete_triple : Store → String → String → String → Store × Result (Unit {0})
  unfolding delete_triple_in_graph
  delete_triple store s p o = delete_triple_in_graph store s p o none

  -- the loop of `triple_count_in_graph`
  unfoldable pub count_graph : Store → GraphName → ℕ
  unfolding count_ok
  count_graph store g = count_ok (quads_for_pattern store none none none (some g))

  unfoldable pub triple_count_in_graph : Store → Option String → ℕ
  unfolding count_graph
  triple_count_in_graph store none = count_graph store default_graph
  triple_count_in_graph store (some iri) = elim (api.new_named_node iri) [
    | none ↦ 0
    | some n ↦ count_graph store (named_graph n)
  ]

  unfoldable pub triple_count : Store → ℕ
  unfolding triple_count_in_graph
  triple_count store = triple_count_in_graph store none

  unfoldable pub triple_count_all : Store → ℕ
  triple_count_all store = elim (len store) [ none ↦ 0 | some n ↦ n ]

  unfoldable pub clear_store : World db → World db × Result (Unit {0})
  unfolding reported
  clear_store w =
      let (store, done) = reported (clear_quads w.store) in
      (record { store = store; index = clear w.index }, done)
