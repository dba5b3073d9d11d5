-- ===== src/Owl/Inconsistency/Examples.antt =====
-- The detectors of src/functions/rdf_owl_rl/inconsistency.rs on a small store, in which each of them
-- reports something.
use Prim.Native.Nat.{◌^◌}
use sqlite_sparql.Prelude.{
  ◌≤◌, String, List, [], ◌∷◌, ◌≡◌, ◌≢◌, ◌⊎◌, ◌↔◌, refl, true, some, ok, Derives, string_eq, to_set,
  text_lt, joined_text, digits, group, put, get,
}
use sqlite_sparql.Rdf.{
  NamedNode, Subject, named_node, blank_node, triple, Term, named_node_term, blank_node_term,
  triple_term, literal, GraphName, default_graph, named_graph, Quad,
}
use sqlite_sparql.Rdf.Equality.{
  subject_eq, term_eq, triple_eq, quad_eq, graph_name_eq, quad_beq, graph_name_beq,
}
use sqlite_sparql.Rdf.Coercions.{subj_to_term}
use sqlite_sparql.Oxigraph.{matches}
use sqlite_sparql.Oxigraph.ListStore.{list_store, list_store-IsQuadSet}
use sqlite_sparql.Graphs.{rdf_type, pairs_for_predicate}
use sqlite_sparql.Graphs.Holds.{quad, In}
use sqlite_sparql.Owl.Vocabulary.{
  owl_irreflexive_property, owl_asymmetric_property, owl_property_disjoint_with, owl_disjoint_with,
  owl_different_from, owl_same_as,
}
use sqlite_sparql.Owl.Inconsistency.{record_of, violation_eq, Display, nt_named, sort_and_return}
use sqlite_sparql.Owl.Inconsistency.Properties.{detect_prp_asyp, detect_prp_pdw}
use sqlite_sparql.Owl.Inconsistency.Classes.{detect_pairs, detect_cax_dw}
use sqlite_sparql.Owl.Inconsistency.Individuals.{detect_eq_diff1}
use sqlite_sparql.Owl.Inconsistency.Datatypes.{literal_violates_datatype}
use sqlite_sparql.Owl.Inconsistency.Reported.{smaller, larger}
use sqlite_sparql.Owl.Inconsistency.Found.{detect_pairs_lem}
use sqlite_sparql.Owl.Inconsistency.Pairs.{detect_prp_pdw_lem, detect_prp_asyp_lem}
use sqlite_sparql.Owl.Inconsistency.Different.{SaysSame, detect_eq_diff1_lem}
use sqlite_sparql.Owl.Inconsistency.Integers.{integer_refused, integer_literal}

abbrev inferred : GraphName
inferred = named_graph "urn:inferred"

abbrev bracketed : String → String
bracketed n = joined_text "<" (joined_text n ">")

abbrev subject_text : Subject → String
subject_text (named_node n) = bracketed n
subject_text (blank_node b) = joined_text "_:" b
subject_text (triple t) = "<< >>"

abbrev term_text : Term → String
term_text (named_node_term n) = bracketed n
term_text (blank_node_term b) = joined_text "_:" b
term_text (literal l) = l.value
term_text (triple_term t) = "<< >>"

abbrev display : Display
display = record { nt_subject = subject_text; nt_term = term_text }

abbrev link : NamedNode → NamedNode → NamedNode → Quad
link x p y = quad (named_node x) p (named_node_term y) default_graph

abbrev claims : List Quad
claims =
    link "cat" owl_disjoint_with "dog"
    ∷ link "felix" rdf_type "cat"
    ∷ link "felix" rdf_type "dog"
    ∷ link "above" rdf_type owl_irreflexive_property
    ∷ link "above" rdf_type owl_asymmetric_property
    ∷ link "above" owl_property_disjoint_with "below"
    ∷ link "a" "above" "a"
    ∷ link "a" "above" "b"
    ∷ link "b" "above" "a"
    ∷ link "a" "below" "b"
    ∷ link "a" owl_different_from "b"
    ∷ link "b" owl_same_as "a"
    ∷ quad (named_node "a") "age" (literal (integer_literal "thirty")) default_graph
    ∷ []

disjoint_reported :
    detect_cax_dw list_store claims display default_graph inferred
    ≡ ok (record_of "cax-dw" "<felix>" (bracketed rdf_type) "<cat>" ∷ [])
unfolding detect_cax_dw pairs_for_predicate sort_and_return to_set quad_beq matches graph_name_beq
    subj_to_term nt_named group put get
disjoint_reported = refl

detect_pairs_lem_example :
    Derives
      (detect_pairs list_store claims display "cax-dw" owl_disjoint_with default_graph inferred)
      (λ v.
        (c1 : Subject) × (c2 : Term) × (x : Subject) × In list_store list_store-IsQuadSet claims
          default_graph inferred c1 owl_disjoint_with c2
        × (term_text (subj_to_term c1) ≢ term_text c2)
        × In list_store list_store-IsQuadSet claims default_graph inferred x rdf_type
            (subj_to_term c1)
        × In list_store list_store-IsQuadSet claims default_graph inferred x rdf_type c2
        × (v
            ≡ record_of "cax-dw"
                (subject_text x)
                (nt_named rdf_type)
                (smaller (term_text (subj_to_term c1)) (term_text c2))))
detect_pairs_lem_example =
    detect_pairs_lem list_store list_store-IsQuadSet claims display default_graph inferred "cax-dw"
      owl_disjoint_with

detect_prp_pdw_lem_example :
    Derives (detect_prp_pdw list_store claims display default_graph inferred) (λ v.
      (p1 p2 : NamedNode) × (x : Subject) × (y : Term) × In list_store list_store-IsQuadSet claims
        default_graph inferred
        (named_node p1)
        owl_property_disjoint_with
        (named_node_term p2)
      × (p1 ≢ p2)
      × In list_store list_store-IsQuadSet claims default_graph inferred x p1 y
      × In list_store list_store-IsQuadSet claims default_graph inferred x p2 y
      × (v ≡ record_of "prp-pdw" (subject_text x) (nt_named (smaller p1 p2)) (term_text y)))
detect_prp_pdw_lem_example =
    detect_prp_pdw_lem list_store list_store-IsQuadSet claims display default_graph inferred

detect_prp_asyp_lem_example :
    Derives (detect_prp_asyp list_store claims display default_graph inferred) (λ v.
      (p : NamedNode) × (x y : Subject) × In list_store list_store-IsQuadSet claims default_graph
        inferred
        (named_node p)
        rdf_type
        (named_node_term owl_asymmetric_property)
      × In list_store list_store-IsQuadSet claims default_graph inferred x p (subj_to_term y)
      × In list_store list_store-IsQuadSet claims default_graph inferred y p (subj_to_term x)
      × (subj_to_term x ≢ subj_to_term y)
      × (text_lt (subject_text x) (term_text (subj_to_term y)) ≡ true)
      × (v ≡ record_of "prp-asyp" (subject_text x) (nt_named p) (term_text (subj_to_term y))))
detect_prp_asyp_lem_example =
    detect_prp_asyp_lem list_store list_store-IsQuadSet claims display default_graph inferred

detect_eq_diff1_lem_example :
    Derives (detect_eq_diff1 list_store claims display default_graph inferred) (λ v.
      (x : Subject) × (y : Term) × In list_store list_store-IsQuadSet claims default_graph inferred
        x owl_different_from y
      × (SaysSame list_store list_store-IsQuadSet claims display default_graph inferred
            (subject_text x)
            (term_text y)
          ⊎ SaysSame list_store list_store-IsQuadSet claims display default_graph inferred
              (term_text y)
              (subject_text x))
      × (subject_text x ≢ term_text y)
      × (v
          ≡ record_of "eq-diff1"
              (smaller (subject_text x) (term_text y))
              (nt_named owl_same_as)
              (larger (subject_text x) (term_text y))))
detect_eq_diff1_lem_example =
    detect_eq_diff1_lem list_store list_store-IsQuadSet claims display default_graph inferred

number : digits "9223372036854775808" ≡ some 9223372036854775808
unfolding digits
number = refl

integer_refused_example :
    (literal_violates_datatype (integer_literal "9223372036854775808") ≡ true)
    ↔ (2 ^ 63 ≤ 9223372036854775808)
integer_refused_example = integer_refused "9223372036854775808" 9223372036854775808 number
