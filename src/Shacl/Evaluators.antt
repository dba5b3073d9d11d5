-- ===== src/Shacl/Evaluators.antt =====
-- The constraint components of src/functions/rdf_shacl_core/constraints.rs that read the store or call
-- other libraries: sh:class, sh:pattern, sh:minInclusive and sh:maxInclusive; and the table of all twelve.
use sqlite_sparql.Prelude.{
  ℕ, zero, suc, List, [], ◌∷◌, Bool, true, false, Option, none, some, Result, ok, err, store_error,
  invalid_argument, HashSet, insert, contains, ◌==◌, string_eq, ◌is◌, each_char, if◌then◌else◌,
}
use sqlite_sparql.Prelude.Fuel.{Fueled, ◌>>=◌}
use sqlite_sparql.Rdf.{
  NamedNode, Subject, named_node, blank_node, Term, named_node_term, blank_node_term, literal,
  GraphName, Quad,
}
use sqlite_sparql.Rdf.Equality.{subject_eq, term_eq}
use sqlite_sparql.Rdf.Coercions.{term_to_named}
use sqlite_sparql.Oxigraph.{QuadStore, TermParsers}
use sqlite_sparql.Graphs.{rdf_type}
use sqlite_sparql.Owl.Vocabulary.{rdfs_sub_class_of}
use sqlite_sparql.Shacl.Constraints.{
  Violation, EvalCtx, PropertyShapeParams, RegexBuilder, Matchers, build_violation, each_value,
  each_text, eval_min_count, eval_max_count, eval_datatype, eval_node_kind, eval_min_length,
  eval_max_length, eval_in, eval_has_value,
}

-- `match f { 'i' => …, 's' => …, 'm' => …, 'x' => …, _ => {} }`, on the code point
unfoldable pub set_flag : RegexBuilder → ℕ → RegexBuilder
set_flag builder f =
    if f is 105
    then record builder { case_insensitive = true }
    else if f is 115
    then record builder { dot_matches_new_line = true }
    else if f is 109
    then record builder { multi_line = true }
    else if f is 120
    then record builder { ignore_whitespace = true }
    else builder

abbrev pub no_flags : RegexBuilder
no_flags = record {
  case_insensitive = false;
  dot_matches_new_line = false;
  multi_line = false;
  ignore_whitespace = false;
}

module _ (lib : Matchers) where
  unfoldable pub eval_pattern : EvalCtx → PropertyShapeParams → Result (List Violation)
  unfolding each_text set_flag each_char
  eval_pattern ctx params = elim params.pattern [
    | none ↦ ok []
    | some pattern ↦
        let builder : RegexBuilder = elim params.flags [
          | none ↦ no_flags
          | some flags ↦ each_char set_flag no_flags flags
        ] in
        elim (lib.build pattern builder) [
          | none ↦ err (invalid_argument "rdf_shacl_core_validate: sh:pattern: {e}")
          | some is_match ↦ ok (
              each_text ctx "http://www.w3.org/ns/shacl#PatternConstraintComponent"
                "Value cannot be tested against sh:pattern (not a literal or IRI)"
                "Value does not match pattern \"{pattern}\"" is_match)
        ]
  ]

  unfoldable pub literal_as_f64 : Term → Option lib.F64
  literal_as_f64 (literal l) = lib.as_f64 l.value
  literal_as_f64 _ = none

  -- the value is a number in the relation to the bound
  unfoldable pub compares : (lib.F64 → lib.F64 → Bool) → lib.F64 → Term → Bool
  unfolding literal_as_f64
  compares relation bound_f v = elim (literal_as_f64 v) [
    | none ↦ false
    | some f ↦ relation f bound_f
  ]

  unfoldable pub eval_min_inclusive : EvalCtx → PropertyShapeParams → Result (List Violation)
  unfolding each_value compares
  eval_min_inclusive ctx params = elim params.min_inclusive [
    | none ↦ ok []
    | some bound ↦ elim (literal_as_f64 bound) [
      | none ↦ err (
          invalid_argument
            "rdf_shacl_core_validate: sh:minInclusive bound is not a numeric literal")
      | some bound_f ↦ ok (
          each_value ctx "http://www.w3.org/ns/shacl#MinInclusiveConstraintComponent"
            "Value is less than {} or not comparable" (compares (λ f b. lib.le_f64 b f) bound_f))
    ]
  ]

  unfoldable pub eval_max_inclusive : EvalCtx → PropertyShapeParams → Result (List Violation)
  unfolding each_value compares
  eval_max_inclusive ctx params = elim params.max_inclusive [
    | none ↦ ok []
    | some bound ↦ elim (literal_as_f64 bound) [
      | none ↦ err (
          invalid_argument
            "rdf_shacl_core_validate: sh:maxInclusive bound is not a numeric literal")
      | some bound_f ↦ ok (
          each_value ctx "http://www.w3.org/ns/shacl#MaxInclusiveConstraintComponent"
            "Value is greater than {} or not comparable" (compares lib.le_f64 bound_f))
    ]
  ]

-- `if let Term::NamedNode(n) = q.object { queue.push(n) }`, over the quads of a pattern. The top of the
-- queue, which `pop` takes, is the head of the list.
unfoldable pub push_named : List NamedNode → List (Option Quad) → Result (List NamedNode)
push_named queue [] = ok queue
push_named queue (none ∷ quads) = err (store_error "{e}")
push_named queue (some q ∷ quads) = elim (term_to_named q.object) [
  | none ↦ push_named queue quads
  | some n ↦ push_named (n ∷ queue) quads
]

module _ (db : QuadStore) (store : db.Store) (data_graph : GraphName) where
  -- the direct superclasses of a class that are IRIs, on top of a queue
  unfoldable pub push_parents : NamedNode → List NamedNode → Result (List NamedNode)
  unfolding push_named
  push_parents cls queue = push_named queue (
      db.quads_for_pattern store (some (named_node cls)) (some rdfs_sub_class_of) none
        (some data_graph))

  -- the loop over the queue, on fuel
  unfoldable pub search : NamedNode → ℕ → HashSet NamedNode → List NamedNode → Fueled Bool
  unfolding push_parents
  search class zero seen queue = none
  search class (suc fuel) seen [] = some (ok false)
  search class (suc fuel) seen (cls ∷ queue) = elim (contains seen cls) [
    | true ↦ search class fuel seen queue
    | false ↦ elim (cls == class) [
      | true ↦ some (ok true)
      | false ↦
          some (push_parents cls queue) >>= λ queue'. search class fuel (insert seen cls) queue'
    ]
  ]

  unfoldable pub instance_of : ℕ → Subject → NamedNode → Fueled Bool
  unfolding search push_named
  instance_of fuel value class =
      some (
        push_named []
          (db.quads_for_pattern store (some value) (some rdf_type) none (some data_graph)))
      >>= λ types. search class fuel [] types

  -- one value of sh:class: a literal or a quoted triple is an instance of nothing
  unfoldable pub is_instance : ℕ → NamedNode → Term → Fueled Bool
  unfolding instance_of
  is_instance fuel class (named_node_term n) = instance_of fuel (named_node n) class
  is_instance fuel class (blank_node_term b) = instance_of fuel (blank_node b) class
  is_instance fuel class _ = some (ok false)

  -- the loop over the values
  unfoldable pub class_violations : ℕ → EvalCtx → NamedNode → List Term → Fueled (List Violation)
  unfolding is_instance build_violation
  class_violations fuel ctx class [] = some (ok [])
  class_violations fuel ctx class (v ∷ vs) = is_instance fuel class v >>= λ conforms.
      class_violations fuel ctx class vs >>= λ rest. some (
        ok (
          if conforms
          then rest
          else build_violation ctx "http://www.w3.org/ns/shacl#ClassConstraintComponent" (some v)
              "Value is not an instance of class <{class_iri}>"
            ∷ rest))

module _ (db : QuadStore) (store : db.Store) (parsers : TermParsers) (fuel : ℕ) where
  unfoldable pub eval_class : EvalCtx → PropertyShapeParams → Fueled (List Violation)
  unfolding class_violations
  eval_class ctx params = elim params.class [
    | none ↦ some (ok [])
    | some class_iri ↦ elim (parsers.new_named_node class_iri) [
      | none ↦
          some (err (invalid_argument "rdf_shacl_core_validate: sh:class IRI {class_iri}: {e}"))
      | some class_node ↦ class_violations db store ctx.data_graph fuel ctx class_node ctx.values
    ]
  ]

  -- `CONSTRAINTS`, in the order of the source
  unfoldable pub constraints :
      Matchers → List (EvalCtx → PropertyShapeParams → Fueled (List Violation))
  unfolding eval_class
  constraints lib =
      (λ ctx params. some (ok (eval_min_count ctx params)))
      ∷ (λ ctx params. some (ok (eval_max_count ctx params)))
      ∷ (λ ctx params. some (ok (eval_datatype ctx params)))
      ∷ (λ ctx params. some (eval_node_kind ctx params))
      ∷ eval_class
      ∷ (λ ctx params. some (eval_pattern lib ctx params))
      ∷ (λ ctx params. some (ok (eval_min_length ctx params)))
      ∷ (λ ctx params. some (ok (eval_max_length ctx params)))
      ∷ (λ ctx params. some (ok (eval_in ctx params)))
      ∷ (λ ctx params. some (ok (eval_has_value ctx params)))
      ∷ (λ ctx params. some (eval_min_inclusive lib ctx params))
      ∷ (λ ctx params. some (eval_max_inclusive lib ctx params))
      ∷ []
