-- ===== src/Terms/RoundTrip.antt =====
-- src/store.rs: what `parse_term` reads from a text with quotes, and what `parse_graph_name` accepts.
use Prim.Native.Char.{Char}
use Prim.Native.String.{◌∷◌, ◌++◌}
use sqlite_sparql.Prelude.{
  String, ◌≡◌, ◌≢◌, ◌⊎◌, ◌↔◌, inl, inr, refl, Option, none, some, false, ok, ◌>>=◌, Option-cases,
  strip_prefix, starts_with, split_last-append, has_char, string_eq, arith,
}
use sqlite_sparql.Rdf.{NamedNode, Subject, literal, GraphName, default_graph, named_graph}
use sqlite_sparql.Rdf.Coercions.{subj_to_term}
use sqlite_sparql.Oxigraph.{TermParsers}
use sqlite_sparql.Terms.{literal_with_suffix, parse_term, parse_named_or_blank, parse_graph_name}

abbrev pub quote : Char
quote = "\""

abbrev pub at : Char
at = "@"

abbrev pub caret : Char
caret = "^"

abbrev pub less : Char
less = "<"

abbrev pub more : Char
more = ">"

module _ (api : TermParsers) where
  -- A text that opens and closes with a quote is cut at the last quote: whatever stands before it,
  -- quotes included, is the value, and what follows it decides the kind of literal.
  pub parse_term-quoted :
      (value suffix : String)
      → has_char b'"' suffix ≡ false
      → parse_term api (quote ∷ (value ++ (quote ∷ suffix)))
        ≡ (literal_with_suffix api value suffix >>= λ l. ok (literal l))
  unfolding parse_term starts_with strip_prefix
  parse_term-quoted value suffix h = rw (split_last-append b'"' value quote suffix refl h) refl

  -- A term in subject position means the same node in object position, unless it is written with
  -- an opening quote.
  pub parse_term-subject :
      (s : String) (x : Subject)
      → parse_named_or_blank api s ≡ ok x
      → starts_with s "\"" ≡ false
      → parse_term api s ≡ ok (subj_to_term x)
  unfolding parse_term parse_named_or_blank subj_to_term
  parse_term-subject s x h q = ground arith

  -- A graph argument is accepted only as NULL, for the default graph, or as a text that is neither
  -- empty nor a blank node and that is a valid IRI.
  pub parse_graph_name_iff :
      (g : Option String) (n : GraphName)
      → (parse_graph_name api g ≡ ok n) ↔ (
          ((g ≡ none) × (n ≡ default_graph))
          ⊎ ((iri : String) × (node : NamedNode) × (g ≡ some iri)
              × (iri ≢ "")
              × (starts_with iri "_:" ≡ false)
              × (api.new_named_node iri ≡ some node)
              × (n ≡ named_graph node)))
  unfolding parse_graph_name
  parse_graph_name_iff none n =
      (λ h. inl (refl, cc), λ h. elim h [ inl p ↦ cc (p.1) | inr p ↦ cc (p.2) ])
  parse_graph_name_iff (some iri) n = (
    λ h. elim (Option-cases (api.new_named_node iri)) [
      | inl bad ↦ absurd (ground (arith, bad))
      | inr (node, e) ↦ inr (
        iri,
        node,
        refl,
        ground (arith, string_eq.beq_iff iri ""),
        ground arith,
        e,
        ground (arith, e),
      )
    ],
    λ h. elim h [
      | inl p ↦ cc (p.0)
      | inr (i, node, same, ne, nb, e, r) ↦ ground (arith, string_eq.beq_iff iri "")
    ],
  )
