-- ===== src/Owl.antt =====
-- src/functions/rdf_owl_rl.rs and the modules below it: OWL 2 RL reasoning.
pub mod Vocabulary
pub mod Restrictions
pub mod Axioms
pub mod ClassLists
pub mod Merging
pub mod PropertyLists
pub mod Rules
pub mod Equality
pub mod Materialise
pub mod Tracked
pub mod Inconsistency
pub mod Consistent
mod Examples
mod ListExamples
