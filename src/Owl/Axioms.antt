-- ===== src/Owl/Axioms.antt =====
-- The rules of src/functions/rdf_owl_rl/rules.rs that have no premise, and those about datatypes.
use sqlite_sparql.Prelude.{List, [], ◌∷◌, map, Result, ok, ◌>>=◌, HashSet, insert, string_eq}
use sqlite_sparql.Rdf.{
  NamedNode, Subject, named_node, Term, named_node_term, literal, Triple, mk_triple, GraphName,
}
use sqlite_sparql.Oxigraph.{QuadStore}
use sqlite_sparql.Graphs.{rdf_type, all_quads}
use sqlite_sparql.Owl.Vocabulary.{owl_class, owl_thing, owl_nothing, rdfs_datatype}

abbrev pub dt_type1_datatypes : List NamedNode
dt_type1_datatypes =
    "http://www.w3.org/2001/XMLSchema#decimal" ∷ "http://www.w3.org/2001/XMLSchema#integer"
    ∷ "http://www.w3.org/2001/XMLSchema#nonNegativeInteger"
    ∷ "http://www.w3.org/2001/XMLSchema#positiveInteger" ∷ "http://www.w3.org/2001/XMLSchema#long"
    ∷ "http://www.w3.org/2001/XMLSchema#int" ∷ "http://www.w3.org/2001/XMLSchema#short"
    ∷ "http://www.w3.org/2001/XMLSchema#byte"
    ∷ "http://www.w3.org/2001/XMLSchema#nonPositiveInteger"
    ∷ "http://www.w3.org/2001/XMLSchema#negativeInteger"
    ∷ "http://www.w3.org/2001/XMLSchema#unsignedLong"
    ∷ "http://www.w3.org/2001/XMLSchema#unsignedInt"
    ∷ "http://www.w3.org/2001/XMLSchema#unsignedShort"
    ∷ "http://www.w3.org/2001/XMLSchema#unsignedByte" ∷ "http://www.w3.org/2001/XMLSchema#double"
    ∷ "http://www.w3.org/2001/XMLSchema#float" ∷ "http://www.w3.org/2001/XMLSchema#string"
    ∷ "http://www.w3.org/2001/XMLSchema#normalizedString" ∷ "http://www.w3.org/2001/XMLSchema#token"
    ∷ "http://www.w3.org/2001/XMLSchema#language" ∷ "http://www.w3.org/2001/XMLSchema#Name"
    ∷ "http://www.w3.org/2001/XMLSchema#NCName" ∷ "http://www.w3.org/2001/XMLSchema#NMTOKEN"
    ∷ "http://www.w3.org/2001/XMLSchema#boolean" ∷ "http://www.w3.org/2001/XMLSchema#hexBinary"
    ∷ "http://www.w3.org/2001/XMLSchema#base64Binary" ∷ "http://www.w3.org/2001/XMLSchema#anyURI"
    ∷ "http://www.w3.org/2001/XMLSchema#dateTime" ∷ "http://www.w3.org/2001/XMLSchema#dateTimeStamp"
    ∷ "http://www.w3.org/1999/02/22-rdf-syntax-ns#XMLLiteral"
    ∷ "http://www.w3.org/1999/02/22-rdf-syntax-ns#PlainLiteral" ∷ []

-- `?dt rdf:type rdfs:Datatype`
abbrev pub datatype_axiom : NamedNode → Triple
datatype_axiom dt = mk_triple (named_node dt) rdf_type (named_node_term rdfs_datatype)

-- `if let Term::Literal(lit) = o { datatypes.insert(…) }`, over the triples
unfoldable pub literal_datatypes :
    HashSet NamedNode → List (Subject × (NamedNode × Term)) → HashSet NamedNode
literal_datatypes datatypes [] = datatypes
literal_datatypes datatypes ((s, (p, literal lit)) ∷ quads) =
    literal_datatypes (insert datatypes lit.datatype) quads
literal_datatypes datatypes (q ∷ quads) = literal_datatypes datatypes quads

module _ (db : QuadStore) (store : db.Store) where
  unfoldable pub apply_cls_thing : GraphName → GraphName → Result (List Triple)
  apply_cls_thing a i =
      ok (mk_triple (named_node owl_thing) rdf_type (named_node_term owl_class) ∷ [])

  unfoldable pub apply_cls_nothing1 : GraphName → GraphName → Result (List Triple)
  apply_cls_nothing1 a i =
      ok (mk_triple (named_node owl_nothing) rdf_type (named_node_term owl_class) ∷ [])

  unfoldable pub apply_dt_type1 : GraphName → GraphName → Result (List Triple)
  apply_dt_type1 a i = ok (map datatype_axiom dt_type1_datatypes)

  unfoldable pub apply_dt_type2 : GraphName → GraphName → Result (List Triple)
  unfolding literal_datatypes
  apply_dt_type2 a i = do
    quads ← all_quads db store a i
    ok (map datatype_axiom (literal_datatypes [] quads))

  -- Two rules without an effect.
  unfoldable pub apply_dt_eq : GraphName → GraphName → Result (List Triple)
  apply_dt_eq a i = ok []

  unfoldable pub apply_dt_diff : GraphName → GraphName → Result (List Triple)
  apply_dt_diff a i = ok []
