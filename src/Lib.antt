-- ===== src/Lib.antt =====
-- sqlite-sparql is an SQLite extension over an in-memory RDF store (oxigraph). SQL functions insert,
-- delete and count triples, run SPARQL, materialise the OWL 2 RL rules, walk back what a retraction
-- invalidates, and validate shapes. This library models the parts of it that hold the crate's own
-- logic, and proves what makes them correct.
--
-- The parts and their files:
--
-- src/store.rs owns the one store of the process. Its term readers (parse_term, parse_literal,
-- parse_named_or_blank, parse_graph_name, build_quad) are Terms.antt; its operations on single
-- triples, its counts and clear_store are Store.antt. The RDF values that it builds are Rdf.antt.
--
-- src/functions/rdf_bulk.rs reads a JSON array of rows and inserts or deletes the batch: Rows.antt has
-- the readers of rows, those of rdf_dred.rs included, and Bulk.antt the two functions.
--
-- src/dependency_index.rs remembers, for each inferred quad, the premises of its derivations, and
-- computes which quads fall with retracted ones: DependencyIndex.antt. src/functions/rdf_dred.rs
-- applies that to the store: Dred.antt, whose World is the store and the index, the two values that
-- the process shares. Each function of the model takes the shared state and returns it.
--
-- src/functions/rdf_owl_rl/rules.rs has the rules. Graphs.antt has the helpers that read the asserted
-- and the inferred graph, Owl/Rules.antt and Owl/Equality.antt the rules, under their names in the
-- source, Owl/Tracked.antt the variants that also return premises. Owl/Restrictions.antt has the rules on
-- restriction classes, Owl/ClassLists.antt and Owl/PropertyLists.antt those that walk lists,
-- Owl/Merging.antt those that merge nodes, and Owl/Axioms.antt those without a premise. src/functions/rdf_owl_rl.rs repeats them until nothing new is derived, and writes the
-- premises of the tracked ones through to the dependency index: Owl/Materialise.antt.
-- src/functions/rdf_owl_rl/rdf_lists.rs walks RDF lists: Lists.antt. src/error.rs is Prelude/Errors.antt.
--
-- src/functions/rdf_owl_rl/inconsistency.rs has the seventeen detectors of inconsistencies:
-- Owl/Inconsistency.antt has their records and shared helpers, and its children Properties, Classes,
-- Individuals and Datatypes the detectors, under their names in the source. The readers of types and
-- cardinalities that they share with rules.rs are with them. src/functions/rdf_owl_rl_consistent.rs
-- runs them over both graphs within a cap: Owl/Consistent.antt, with the table INCONSISTENCY_RULES.
--
-- src/functions/rdf_shacl_core/path.rs has the property paths of SHACL. Shacl/Path.antt is their
-- evaluation and Shacl/Path/Parse.antt reads them from the shapes graph. Shacl/Path/Standard.antt
-- states what the standard says that a path connects, independently of the code.
-- src/functions/rdf_shacl_core/constraints.rs has the constraint components: Shacl/Constraints.antt, and
-- Shacl/Evaluators.antt those that read the store or call other libraries, with their table.
--
-- What the crate calls and does not implement is an interface in Oxigraph.antt: the quad store, the
-- term constructors with the N-Triples parser, and JSON values. How oxigraph
-- prints terms is the interface Display, the crate regex and the floating-point numbers (which this theory
-- lacks) are the interface Matchers, and how serde reads the options and prints the records are
-- arguments. IsQuadSet states the documented
-- behaviour of the store: it is a set of quads and its calls do not fail. Oxigraph/ListStore.antt is
-- an implementation, which the examples run. The store's own calls keep their error results, so the
-- error paths of the crate are modelled.
--
-- A HashSet is a list without order, a HashMap an association list. A loop that pushes is `each`; a
-- map from keys to sets is `group`, and a look-up in it `joined`. Formatted messages are carried as
-- their format strings.
--
-- Bounds and fuel. cascade runs its worklist on as much fuel as there are retracted quads and index
-- entries, which its theorem on termination shows to be enough. The fixpoint loop is bounded by
-- max_iterations in the source, and the model counts the same iterations; what bound is enough is a
-- theorem. The walks along lists take fuel, and one more than the quads of the store is enough. The
-- loop of a path's closure takes rounds, and the search of sh:class fuel, for which one more than twice
-- the quads is enough. Path::parse
-- takes fuel too, and no bound is enough for it, since its recursion need not end. The detectors that
-- walk lists, and what runs them, have a result on fuel (Prelude/Fuel.antt), in which nothing stands
-- for a walk that has used up its fuel.
--
-- Numbers are native ones. Prelude/Numbers.antt reads the decimal texts of u32, u64 and i64 with the
-- bounds of these types, and Prelude/Sorting.antt has the order of texts, sort and dedup.
--
-- Not modelled: the SQL wrappers and registration, SPARQL evaluation (oxigraph), the SHACL
-- validator, the virtual table, the table that lists the
-- rules (the loop takes any table of rules), the clock, and the locks, under which
-- every call runs alone.
mod Prelude
pub mod Bulk
pub mod DependencyIndex
pub mod Dred
pub mod Graphs
pub mod Lists
pub mod Owl
pub mod Oxigraph
pub mod Rdf
pub mod Rows
pub mod Shacl
pub mod Store
pub mod Terms
