-- ===== src/Shacl/Path/Parse.antt =====
-- `Path::parse` of src/functions/rdf_shacl_core/path.rs: reading the RDF structure of a path from the
-- shapes graph. The recursion follows the graph, so it takes fuel.
pub mod Diverges
pub mod Walk
use sqlite_sparql.Prelude.{
  ℕ, zero, suc, List, [], ◌∷◌, ◌++◌, Bool, Option, none, some, Result, SparqlError, ok, err,
  store_error, invalid_argument, HashSet, contains, insert, ◌==◌, string_eq, if◌then◌else◌,
}
use sqlite_sparql.Prelude.Fuel.{Fueled, ◌>>=◌}
use sqlite_sparql.Rdf.{
  NamedNode, BlankNode, Subject, named_node, blank_node, triple, Term, named_node_term,
  blank_node_term, literal, triple_term, GraphName, Quad,
}
use sqlite_sparql.Rdf.Equality.{subject_eq}
use sqlite_sparql.Oxigraph.{QuadStore}
use sqlite_sparql.Lists.{rdf_first, rdf_rest, rdf_nil}
use sqlite_sparql.Shacl.Path.{
  PropertyPath, predicate, inverse, sequence, alternative, zero_or_more, one_or_more, zero_or_one,
  Paths, no_more, part,
}

abbrev pub sh_inverse_path : NamedNode
sh_inverse_path = "http://www.w3.org/ns/shacl#inversePath"

abbrev pub sh_alternative_path : NamedNode
sh_alternative_path = "http://www.w3.org/ns/shacl#alternativePath"

abbrev pub sh_zero_or_more_path : NamedNode
sh_zero_or_more_path = "http://www.w3.org/ns/shacl#zeroOrMorePath"

abbrev pub sh_one_or_more_path : NamedNode
sh_one_or_more_path = "http://www.w3.org/ns/shacl#oneOrMorePath"

abbrev pub sh_zero_or_one_path : NamedNode
sh_zero_or_one_path = "http://www.w3.org/ns/shacl#zeroOrOnePath"

-- the first quad of a pattern
unfoldable pub first_object : List (Option Quad) → Result (Option Term)
first_object [] = ok none
first_object (none ∷ quads) = err (store_error "{e}")
first_object (some q ∷ quads) = ok (some q.object)

-- `if let Some(inner) = lookup? { return found }`, and what follows it
unfoldable pub if_marked :
    {A : Type 0} → Result (Option Term) → (Term → Fueled A) → Fueled A → Fueled A
if_marked (err e) found otherwise = some (err e)
if_marked (ok none) found otherwise = otherwise
if_marked (ok (some inner)) found otherwise = found inner

-- `lookup?.ok_or_else(|| e)?`
abbrev pub required : Result (Option Term) → SparqlError → Result Term
required (err e) missing = err e
required (ok none) missing = err missing
required (ok (some t)) missing = ok t

abbrev pub literal_node : SparqlError
literal_node = invalid_argument "rdf_shacl_core_validate: sh:path list contains a literal node"

abbrev pub list_cycle : SparqlError
list_cycle = invalid_argument "rdf_shacl_core_validate: sh:path list has a cycle"

abbrev pub missing_first : SparqlError
missing_first = invalid_argument "rdf_shacl_core_validate: sh:path list node missing rdf:first"

abbrev pub missing_rest : SparqlError
missing_rest = invalid_argument "rdf_shacl_core_validate: sh:path list node missing rdf:rest"

-- where the loop along a list stands
pub data Cursor : Type 0 where
  finished : Cursor
  at : Subject → Cursor
  no_node : Cursor

unfoldable pub cursor_of : Term → Cursor
cursor_of (named_node_term n) = if n == rdf_nil then finished else at (named_node n)
cursor_of (blank_node_term b) = at (blank_node b)
cursor_of (triple_term t) = at (triple t)
cursor_of (literal l) = no_node

-- `for item in items { parts.push(Path::parse(…)?) }`
unfoldable pub parse_each : (Term → Fueled PropertyPath) → List Term → Fueled Paths
parse_each parse [] = some (ok no_more)
parse_each parse (item ∷ items) =
    parse item >>= λ p. parse_each parse items >>= λ parts. some (ok (part p parts))

module _ (db : QuadStore) (store : db.Store) (graph : GraphName) where
  unfoldable pub lookup_object : Subject → NamedNode → Result (Option Term)
  unfolding first_object
  lookup_object subject p =
      first_object (db.quads_for_pattern store (some subject) (some p) none (some graph))

  -- the loop of the walk along a list
  unfoldable pub walk : ℕ → HashSet Subject → Term → List Term → Fueled (List Term)
  unfolding cursor_of lookup_object
  walk zero seen cursor_term out = none
  walk (suc fuel) seen cursor_term out = elim (cursor_of cursor_term) [
    | finished ↦ some (ok out)
    | no_node ↦ some (err literal_node)
    | at cursor ↦
        if contains seen cursor
        then some (err list_cycle)
        else (some (required (lookup_object cursor rdf_first) missing_first) >>= λ first.
            some (required (lookup_object cursor rdf_rest) missing_rest) >>= λ rest.
            walk fuel (insert seen cursor) rest (out ++ first ∷ []))
  ]

  -- Its first test, for `rdf:nil`, is the one that the loop starts with.
  unfoldable pub walk_list : ℕ → Term → Fueled (List Term)
  unfolding walk cursor_of
  walk_list fuel head = elim (cursor_of head) [ finished ↦ some (ok []) | _ ↦ walk fuel [] head [] ]

  -- the branches for a blank node; `parse` reads the paths that it names
  unfoldable pub parse_blank : ℕ → (Term → Fueled PropertyPath) → BlankNode → Fueled PropertyPath
  unfolding if_marked lookup_object walk_list parse_each
  parse_blank fuel parse b =
      let head = blank_node b in
      if_marked (lookup_object head sh_inverse_path)
        (λ inner. parse inner >>= λ p. some (ok (inverse p)))
        (if_marked (lookup_object head sh_alternative_path)
          (λ list_head. walk_list fuel list_head >>= λ items.
            parse_each parse items >>= λ parts. some (ok (alternative parts)))
          (if_marked (lookup_object head sh_zero_or_more_path)
            (λ inner. parse inner >>= λ p. some (ok (zero_or_more p)))
            (if_marked (lookup_object head sh_one_or_more_path)
              (λ inner. parse inner >>= λ p. some (ok (one_or_more p)))
              (if_marked (lookup_object head sh_zero_or_one_path)
                (λ inner. parse inner >>= λ p. some (ok (zero_or_one p)))
                (walk_list fuel (blank_node_term b) >>= λ items. elim items [
                  | [] ↦ some (
                      err (
                        invalid_argument
                          "rdf_shacl_core_validate: sh:path blank node {path_node} has no recognised SHACL marker or list structure"))
                  | item ∷ more ↦
                      parse_each parse (item ∷ more) >>= λ parts. some (ok (sequence parts))
                ])))))

  unfoldable pub parse : ℕ → Term → Fueled PropertyPath
  unfolding parse_blank
  parse zero path_node = none
  parse (suc fuel) (named_node_term n) = some (ok (predicate n))
  parse (suc fuel) (blank_node_term b) = parse_blank fuel (parse fuel) b
  parse (suc fuel) _ = some (
      err (
        invalid_argument
          "rdf_shacl_core_validate: sh:path must be an IRI or blank-node structure, got {path_node}"))
