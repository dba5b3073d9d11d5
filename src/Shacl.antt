-- ===== src/Shacl.antt =====
-- src/functions/rdf_shacl_core.rs and the modules below it: SHACL validation.
mod Examples
mod ClassExamples
pub mod Path
pub mod Constraints
pub mod Evaluators
pub mod Instances
pub mod Queued
