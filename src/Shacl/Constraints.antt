-- ===== src/Shacl/Constraints.antt =====
-- The constraint components of src/functions/rdf_shacl_core/constraints.rs.
use sqlite_sparql.Prelude.{
  String, ℕ, List, [], ◌∷◌, Bool, true, false, not, ◌||◌, Option, none, some, Result, ok, err,
  invalid_argument, any, length, ltb, each, ◌==◌, string_eq, char_count, if◌then◌else◌,
}
use sqlite_sparql.Rdf.{Subject, Term, named_node_term, blank_node_term, literal, GraphName}
use sqlite_sparql.Rdf.Equality.{subject_eq, term_eq}

abbrev pub sh_iri : String
sh_iri = "http://www.w3.org/ns/shacl#IRI"

abbrev pub sh_blank_node : String
sh_blank_node = "http://www.w3.org/ns/shacl#BlankNode"

abbrev pub sh_literal : String
sh_literal = "http://www.w3.org/ns/shacl#Literal"

abbrev pub sh_blank_node_or_iri : String
sh_blank_node_or_iri = "http://www.w3.org/ns/shacl#BlankNodeOrIRI"

abbrev pub sh_blank_node_or_literal : String
sh_blank_node_or_literal = "http://www.w3.org/ns/shacl#BlankNodeOrLiteral"

abbrev pub sh_iri_or_literal : String
sh_iri_or_literal = "http://www.w3.org/ns/shacl#IRIOrLiteral"

pub record Violation : Type 0 where
  pub focus_node : Subject
  pub result_path : Option Term
  pub value : Option Term
  pub source_shape : Subject
  pub source_constraint_component : String
  pub result_severity : String
  pub result_message : String

-- the context of an evaluation, but for the store, which its users take beside it
pub record EvalCtx : Type 0 where
  pub data_graph : GraphName
  pub focus : Subject
  pub property_path : Option Term
  pub values : List Term
  pub source_shape : Subject

pub record PropertyShapeParams : Type 0 where
  pub min_count : Option ℕ
  pub max_count : Option ℕ
  pub datatype : Option String
  pub node_kind : Option String
  pub class : Option String
  pub pattern : Option String
  pub flags : Option String
  pub min_length : Option ℕ
  pub max_length : Option ℕ
  pub in_list : Option (List Term)
  pub has_value : Option Term
  pub min_inclusive : Option Term
  pub max_inclusive : Option Term

-- the settings of a `regex::RegexBuilder`
pub record RegexBuilder : Type 0 where
  pub case_insensitive : Bool
  pub dot_matches_new_line : Bool
  pub multi_line : Bool
  pub ignore_whitespace : Bool

-- The crate regex and the binary floating-point numbers, which have no counterpart here: `build` gives
-- `is_match` of an expression that compiles, `as_f64` parses a number.
pub record Matchers : Type 1 where
  pub build : String → RegexBuilder → Option (String → Bool)
  pub F64 : Type 0
  pub as_f64 : String → Option F64
  pub le_f64 : F64 → F64 → Bool

unfoldable pub build_violation : EvalCtx → String → Option Term → String → Violation
build_violation ctx component value message = record {
  focus_node = ctx.focus;
  result_path = ctx.property_path;
  value = value;
  source_shape = ctx.source_shape;
  source_constraint_component = component;
  result_severity = "http://www.w3.org/ns/shacl#Violation";
  result_message = message;
}

-- `for v in &ctx.values`, with one record for each value that does not conform
unfoldable pub each_value : EvalCtx → String → String → (Term → Bool) → List Violation
unfolding build_violation
each_value ctx component message conforms =
    each ctx.values
      (λ v. if conforms v then [] else build_violation ctx component (some v) message ∷ [])

unfoldable pub eval_min_count : EvalCtx → PropertyShapeParams → List Violation
unfolding build_violation
eval_min_count ctx params = elim params.min_count [
  | none ↦ []
  | some min ↦
      if ltb (length ctx.values) min
      then build_violation ctx "http://www.w3.org/ns/shacl#MinCountConstraintComponent" none
          "Less than {min} values on path (found {})"
        ∷ []
      else []
]

unfoldable pub eval_max_count : EvalCtx → PropertyShapeParams → List Violation
unfolding build_violation
eval_max_count ctx params = elim params.max_count [
  | none ↦ []
  | some max ↦
      if ltb max (length ctx.values)
      then build_violation ctx "http://www.w3.org/ns/shacl#MaxCountConstraintComponent" none
          "More than {max} values on path (found {})"
        ∷ []
      else []
]

abbrev pub has_datatype : String → Term → Bool
has_datatype dt_iri (literal l) = l.datatype == dt_iri
has_datatype dt_iri _ = false

unfoldable pub eval_datatype : EvalCtx → PropertyShapeParams → List Violation
unfolding each_value
eval_datatype ctx params = elim params.datatype [
  | none ↦ []
  | some dt_iri ↦
      each_value ctx "http://www.w3.org/ns/shacl#DatatypeConstraintComponent"
        "Value does not have datatype <{dt_iri}>" (has_datatype dt_iri)
]

abbrev pub is_iri : Term → Bool
is_iri (named_node_term n) = true
is_iri _ = false

abbrev pub is_blank_node : Term → Bool
is_blank_node (blank_node_term b) = true
is_blank_node _ = false

abbrev pub is_literal_term : Term → Bool
is_literal_term (literal l) = true
is_literal_term _ = false

-- the test of a node kind; nothing if the kind is unknown
unfoldable pub kind_test : String → Option (Term → Bool)
kind_test kind =
    if kind == sh_iri
    then some is_iri
    else if kind == sh_blank_node
    then some is_blank_node
    else if kind == sh_literal
    then some is_literal_term
    else if kind == sh_blank_node_or_iri
    then some (λ v. is_iri v || is_blank_node v)
    else if kind == sh_blank_node_or_literal
    then some (λ v. is_blank_node v || is_literal_term v)
    else if kind == sh_iri_or_literal
    then some (λ v. is_iri v || is_literal_term v)
    else none

-- An unknown kind is an error at the first value, and goes unnoticed without one.
unfoldable pub eval_node_kind : EvalCtx → PropertyShapeParams → Result (List Violation)
unfolding each_value kind_test
eval_node_kind ctx params = elim params.node_kind [
  | none ↦ ok []
  | some kind ↦ elim (kind_test kind) [
    | some test ↦ ok (
        each_value ctx "http://www.w3.org/ns/shacl#NodeKindConstraintComponent"
          "Value does not have nodeKind <{kind}>" test)
    | none ↦ elim ctx.values [
      | [] ↦ ok []
      | v ∷ vs ↦ err (invalid_argument "rdf_shacl_core_validate: unknown sh:nodeKind <{other}>")
    ]
  ]
]

-- The text of a literal or an IRI.
unfoldable pub lexical : Term → Option String
lexical (literal l) = some l.value
lexical (named_node_term n) = some n
lexical _ = none

-- the loop of the constraints on texts, with its two messages
unfoldable pub each_text : EvalCtx → String → String → String → (String → Bool) → List Violation
unfolding build_violation lexical
each_text ctx component untestable message conforms = each ctx.values (λ v. elim (lexical v) [
  | none ↦ build_violation ctx component (some v) untestable ∷ []
  | some lex ↦ if conforms lex then [] else build_violation ctx component (some v) message ∷ []
])

unfoldable pub eval_min_length : EvalCtx → PropertyShapeParams → List Violation
unfolding each_text char_count
eval_min_length ctx params = elim params.min_length [
  | none ↦ []
  | some min ↦
      each_text ctx "http://www.w3.org/ns/shacl#MinLengthConstraintComponent"
        "Value cannot be tested against sh:minLength (not a literal or IRI)"
        "Value has length less than {min}" (λ lex. not (ltb (char_count lex) min))
]

unfoldable pub eval_max_length : EvalCtx → PropertyShapeParams → List Violation
unfolding each_text char_count
eval_max_length ctx params = elim params.max_length [
  | none ↦ []
  | some max ↦
      each_text ctx "http://www.w3.org/ns/shacl#MaxLengthConstraintComponent"
        "Value cannot be tested against sh:maxLength (not a literal or IRI)"
        "Value has length greater than {max}" (λ lex. not (ltb max (char_count lex)))
]

unfoldable pub eval_in : EvalCtx → PropertyShapeParams → List Violation
unfolding each_value
eval_in ctx params = elim params.in_list [
  | none ↦ []
  | some list ↦
      each_value ctx "http://www.w3.org/ns/shacl#InConstraintComponent"
        "Value is not in the allowed sh:in list" (λ v. any (λ allowed. allowed == v) list)
]

unfoldable pub eval_has_value : EvalCtx → PropertyShapeParams → List Violation
unfolding build_violation
eval_has_value ctx params = elim params.has_value [
  | none ↦ []
  | some required ↦
      if any (λ v. v == required) ctx.values
      then []
      else build_violation ctx "http://www.w3.org/ns/shacl#HasValueConstraintComponent" none
          "None of the values match the required sh:hasValue"
        ∷ []
]
