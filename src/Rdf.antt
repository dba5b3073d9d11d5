-- ===== src/Rdf.antt =====
-- The RDF data model that the crate takes from `oxigraph::model`, as far as the source matches on
-- it: src/store.rs builds these values, and the rules, the index and the validator read them.
pub mod Equality
pub mod Coercions
use sqlite_sparql.Prelude.{String, Option, ◌&&◌, Bool, true, false}

abbrev pub NamedNode : Type 0
NamedNode = String

abbrev pub BlankNode : Type 0
BlankNode = String

pub record Literal : Type 0 where
  pub value : String
  pub datatype : NamedNode
  pub language : Option String

mutual
  pub data Subject : Type 0 where
    named_node : NamedNode → Subject
    blank_node : BlankNode → Subject
    triple : Triple → Subject

  pub data Term : Type 0 where
    named_node_term : NamedNode → Term
    blank_node_term : BlankNode → Term
    literal : Literal → Term
    triple_term : Triple → Term

  pub data Triple : Type 0 where
    mk_triple : Subject → NamedNode → Term → Triple

pub data GraphName : Type 0 where
  default_graph : GraphName
  named_graph : NamedNode → GraphName
  blank_graph : BlankNode → GraphName

pub record Quad : Type 0 where
  pub subject : Subject
  pub predicate : NamedNode
  pub object : Term
  pub graph_name : GraphName
