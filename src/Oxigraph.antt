-- ===== src/Oxigraph.antt =====
-- What the crate calls and does not implement: the quad store and the term constructors of
-- oxigraph, and the JSON values of serde_json. The models take these as parameters. `none` is an
-- error of the call; a method that changes the store returns the store after it.
pub mod ListStore
pub mod Sizes
pub mod Samples
use sqlite_sparql.Prelude.{
  ℕ, String, List, ◌≡◌, Bool, false, true, not, ◌&&◌, ◌||◌, Option, none, some, ◌==◌, contains, map,
  length, IsDistinct, string_eq, if◌then◌else◌,
}
use sqlite_sparql.Rdf.{NamedNode, BlankNode, Literal, Subject, Term, Triple, GraphName, Quad}
use sqlite_sparql.Rdf.Equality.{quad_eq, subject_eq, term_eq, graph_name_eq}

-- `oxigraph::store::Store`
pub record QuadStore : Type 1 where
  pub Store : Type 0
  pub quads_for_pattern :
      Store
      → Option Subject
      → Option NamedNode
      → Option Term
      → Option GraphName
      → List (Option Quad)
  pub contains_quad : Store → Quad → Option Bool
  pub insert_quad : Store → Quad → Store × Option Bool
  pub remove_quad : Store → Quad → Store × Option Bool
  pub load_quads : Store → List Quad → Store × Option (Unit {0})
  pub clear_quads : Store → Store × Option (Unit {0})
  pub len : Store → Option ℕ

-- One place of a pattern: `None` matches anything.
abbrev pub fits : {A : Type 0} → (A → A → Bool) → Option A → A → Bool
fits beq none a = true
fits beq (some b) a = beq b a

unfoldable pub matches :
    Option Subject → Option NamedNode → Option Term → Option GraphName → Quad → Bool
matches s p o g q =
    fits subject_eq.beq s q.subject
    && fits string_eq.beq p q.predicate
    && fits term_eq.beq o q.object
    && fits graph_name_eq.beq g q.graph_name

-- The documented behaviour of the in-memory store: it is a set of quads, and no call fails.
pub record IsQuadSet (api : QuadStore) : Type 0 where
  pub contents : api.Store → List Quad
  pub distinct : (s : api.Store) → IsDistinct (contents s)
  pub matching :
      api.Store → Option Subject → Option NamedNode → Option Term → Option GraphName → List Quad
  pub pattern_law :
      (s : api.Store) (su : Option Subject) (p : Option NamedNode) (o : Option Term)
      (g : Option GraphName)
      → api.quads_for_pattern s su p o g ≡ map some (matching s su p o g)
  pub matching_law :
      (s : api.Store) (su : Option Subject) (p : Option NamedNode) (o : Option Term)
      (g : Option GraphName) (q : Quad)
      → contains (matching s su p o g) q ≡ (contains (contents s) q && matches su p o g q)
  pub matching_distinct :
      (s : api.Store) (su : Option Subject) (p : Option NamedNode) (o : Option Term)
      (g : Option GraphName)
      → IsDistinct (matching s su p o g)
  pub contains_law :
      (s : api.Store) (q : Quad) → api.contains_quad s q ≡ some (contains (contents s) q)
  pub insert_result :
      (s : api.Store) (q : Quad) → (api.insert_quad s q).1 ≡ some (not (contains (contents s) q))
  pub insert_law :
      (s : api.Store) (q r : Quad)
      → contains (contents (api.insert_quad s q).0) r ≡ (q == r || contains (contents s) r)
  pub remove_result :
      (s : api.Store) (q : Quad) → (api.remove_quad s q).1 ≡ some (contains (contents s) q)
  pub remove_law :
      (s : api.Store) (q r : Quad)
      → contains (contents (api.remove_quad s q).0) r
        ≡ (if q == r then false else contains (contents s) r)
  pub load_result : (s : api.Store) (qs : List Quad) → (api.load_quads s qs).1 ≡ some tt
  pub load_law :
      (s : api.Store) (qs : List Quad) (r : Quad)
      → contains (contents (api.load_quads s qs).0) r ≡ (contains qs r || contains (contents s) r)
  pub clear_result : (s : api.Store) → (api.clear_quads s).1 ≡ some tt
  pub clear_law : (s : api.Store) (r : Quad) → contains (contents (api.clear_quads s).0) r ≡ false
  pub len_law : (s : api.Store) → api.len s ≡ some (length (contents s))

-- `NamedNode::new`, `BlankNode::new`, `Literal::new_*`, and the N-Triples parser, which
-- `parse_quoted_triple` runs over one line: the outer `none` is no quad at all, the inner one an
-- error of the parser.
pub record TermParsers : Type 0 where
  pub new_named_node : String → Option NamedNode
  pub new_blank_node : String → Option BlankNode
  pub new_language_tagged_literal : String → String → Option Literal
  pub new_typed_literal : String → NamedNode → Literal
  pub new_simple_literal : String → Literal
  pub first_quad : String → Option (Option Quad)

-- `serde_json::Value`, and `from_str` at the types that the crate reads
pub record Json : Type 1 where
  pub Value : Type 0
  pub from_str : String → Option Value
  pub from_str_vec : String → Option (List Value)
  pub as_array : Value → Option (List Value)
  pub as_str : Value → Option String
  pub is_null : Value → Bool
