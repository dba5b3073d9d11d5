-- ===== src/Terms/Examples.antt =====
-- Terms as src/store.rs reads them.
use sqlite_sparql.Prelude.{
  String, ◌≡◌, ◌≢◌, ◌↔◌, ◌⊎◌, refl, false, Option, none, some, ok, string_eq, starts_with,
  strip_prefix,
}
use sqlite_sparql.Rdf.{NamedNode, blank_node, default_graph, named_graph}
use sqlite_sparql.Rdf.Equality.{quad_eq, subject_eq, term_eq, triple_eq, graph_name_eq}
use sqlite_sparql.Oxigraph.Samples.{parsers}
use sqlite_sparql.Terms.{parse_named_or_blank, parse_graph_name}
use sqlite_sparql.Terms.RoundTrip.{parse_graph_name_iff}

unquoted : starts_with "_:b" "\"" ≡ false
unfolding starts_with strip_prefix
unquoted = refl

read_as_subject : parse_named_or_blank parsers "_:b" ≡ ok (blank_node "b")
unfolding parse_named_or_blank starts_with
read_as_subject = refl

abbrev graph_argument : Option String
graph_argument = some "urn:g"

parse_graph_name_iff_example :
    (parse_graph_name parsers graph_argument ≡ ok (named_graph "urn:g")) ↔ (
      ((graph_argument ≡ none) × (named_graph "urn:g" ≡ default_graph))
      ⊎ ((iri : String) × (node : NamedNode) × (graph_argument ≡ some iri)
          × (iri ≢ "")
          × (starts_with iri "_:" ≡ false)
          × (parsers.new_named_node iri ≡ some node)
          × (named_graph "urn:g" ≡ named_graph node)))
parse_graph_name_iff_example = parse_graph_name_iff parsers graph_argument (named_graph "urn:g")
