-- ===== src/Terms.antt =====
-- src/store.rs: the parsing of terms, graph names and quads from SQL text.
mod Examples
pub mod RoundTrip
use Prim.Native.String.{[], ◌++◌}
use sqlite_sparql.Prelude.{
  String, Option, none, some, Result, ok, err, invalid_argument, ◌>>=◌, ok_or, strip_prefix,
  starts_with, split_last, trim_start_matches, trim_end_matches, ◌==◌, if◌then◌else◌, string_eq,
}
use sqlite_sparql.Rdf.{
  NamedNode, Literal, Subject, named_node, blank_node, triple, Term, named_node_term,
  blank_node_term, literal, triple_term, Triple, GraphName, default_graph, named_graph, Quad,
}
use sqlite_sparql.Oxigraph.{TermParsers}

-- the synthesised N-Triples line
abbrev pub sentinel_line : String → String
sentinel_line s = s ++ " <urn:sqlite-sparql:sentinel/p> <urn:sqlite-sparql:sentinel/o> .\n"

abbrev pub quoted_subject : Subject → Result Triple
quoted_subject (triple t) = ok t
quoted_subject _ = err (invalid_argument "expected quoted triple, got plain term: {s}")

module _ (api : TermParsers) where
  open api use {
    new_named_node, new_blank_node, new_language_tagged_literal, new_typed_literal,
    new_simple_literal, first_quad,
  }

  unfoldable pub parse_quoted_triple : String → Result Triple
  parse_quoted_triple s = do
    item ←
        ok_or (first_quad (sentinel_line s))
          (invalid_argument "expected quoted triple term, parser produced nothing: {s}")
    quad ← ok_or item (invalid_argument "malformed quoted triple {s}: {e}")
    quoted_subject quad.subject

  -- the `if let` ladder over what follows the closing quote
  abbrev pub literal_with_suffix : String → String → Result Literal
  literal_with_suffix value suffix = elim (strip_prefix suffix "@") [
    | some lang ↦
        ok_or (new_language_tagged_literal value lang) (invalid_argument "language tag: {e}")
    | none ↦ elim (strip_prefix suffix "^^") [
      | some dt ↦
          ok_or (new_named_node (trim_end_matches b'>' (trim_start_matches b'<' dt)))
            (invalid_argument "datatype IRI: {e}")
          >>= λ dt_node. ok (new_typed_literal value dt_node)
      | none ↦ ok (new_simple_literal value)
    ]
  ]

  unfoldable pub parse_literal : String → Result Term
  parse_literal s = do
    rest ← ok_or (strip_prefix s "\"") (invalid_argument "expected opening quote in: {s}")
    parts ← ok_or (split_last b'"' rest) (invalid_argument "no closing quote in: {s}")
    l ← literal_with_suffix parts.0 parts.1
    ok (literal l)

  unfoldable pub parse_term : String → Result Term
  unfolding parse_quoted_triple parse_literal
  parse_term s =
      if starts_with s "<<"
      then (parse_quoted_triple s >>= λ t. ok (triple_term t))
      else (elim (strip_prefix s "_:") [
        | some id ↦ ok_or (new_blank_node id) (invalid_argument "blank node id: {e}") >>= λ b.
            ok (blank_node_term b)
        | none ↦
            if starts_with s "\""
            then parse_literal s
            else (ok_or (new_named_node s) (invalid_argument "object IRI: {e}") >>= λ n.
                ok (named_node_term n))
      ])

  unfoldable pub parse_named_or_blank : String → Result Subject
  unfolding parse_quoted_triple
  parse_named_or_blank s =
      if starts_with s "<<"
      then (parse_quoted_triple s >>= λ t. ok (triple t))
      else (elim (strip_prefix s "_:") [
        | some id ↦ ok_or (new_blank_node id) (invalid_argument "blank node id: {e}") >>= λ b.
            ok (blank_node b)
        | none ↦ ok_or (new_named_node s) (invalid_argument "subject IRI: {e}") >>= λ n.
            ok (named_node n)
      ])

  unfoldable pub parse_graph_name : Option String → Result GraphName
  parse_graph_name none = ok default_graph
  parse_graph_name (some iri) =
      if iri == ""
      then err (
          invalid_argument "graph IRI may not be the empty string; pass NULL for the default graph")
      else if starts_with iri "_:"
      then err (invalid_argument "blank-node graphs are not supported in sqlite-sparql 0.3.x")
      else (ok_or (new_named_node iri) (invalid_argument "graph IRI: {e}") >>= λ n.
          ok (named_graph n))

  unfoldable pub build_quad : String → String → String → Option String → Result Quad
  unfolding parse_named_or_blank parse_term parse_graph_name
  build_quad s p o graph = do
    subject ← parse_named_or_blank s
    predicate ← ok_or (new_named_node p) (invalid_argument "predicate IRI: {e}")
    object ← parse_term o
    graph_name ← parse_graph_name graph
    ok (record {
      subject = subject;
      predicate = predicate;
      object = object;
      graph_name = graph_name;
    })
