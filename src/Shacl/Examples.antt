-- ===== src/Shacl/Examples.antt =====
-- Property paths of src/functions/rdf_shacl_core/path.rs over graphs of two quads.
use sqlite_sparql.Prelude.{
  ◌+◌, ◌<◌, List, [], ◌∷◌, ◌≡◌, ◌↔◌, refl, arith, true, false, none, some, Result, contains,
  string_eq, to_set, IsDistinct,
}
use sqlite_sparql.Rdf.{
  BlankNode, named_node, blank_node, Term, named_node_term, blank_node_term, literal, Literal,
  default_graph, Quad,
}
use sqlite_sparql.Rdf.Coercions.{subj_to_term, term_to_subj}
use sqlite_sparql.Rdf.Equality.{
  quad_eq, subject_eq, term_eq, graph_name_eq, quad_beq, graph_name_beq, subject_beq,
}
use sqlite_sparql.Oxigraph.{matches}
use sqlite_sparql.Oxigraph.ListStore.{list_store, list_store-IsQuadSet}
use sqlite_sparql.Oxigraph.Sizes.{size}
use sqlite_sparql.Graphs.Holds.{quad}
use sqlite_sparql.Shacl.Path.{
  PropertyPath, predicate, one_or_more, zero_or_more, alternative, inverse, part, no_more, evaluate,
}
use sqlite_sparql.Shacl.Path.Standard.{Connects}
use sqlite_sparql.Shacl.Path.Refines.{
  IsLiteralFree, evaluate_sound, evaluate-Connects, zero_or_more-misses,
}
use sqlite_sparql.Shacl.Path.Parse.{parse, walk_list, sh_inverse_path}
use sqlite_sparql.Shacl.Path.Parse.Walk.{walk_list-returns}
use sqlite_sparql.Shacl.Path.Parse.Diverges.{parse_diverges}

abbrev chain : List Quad
chain =
    quad (named_node "a") "p" (named_node_term "b") default_graph
    ∷ quad (named_node "b") "p" (named_node_term "c") default_graph
    ∷ []

abbrev descendants : PropertyPath
descendants = one_or_more (predicate "p")

-- the descendants of `a`, then `a` again by way back from `b`
abbrev both_ways : PropertyPath
both_ways = alternative (part descendants (part (inverse (predicate "p")) no_more))

chain_enough :
    size list_store list_store-IsQuadSet chain + size list_store list_store-IsQuadSet chain + 1 < 6
unfolding to_set quad_beq
chain_enough = omega arith

chain_free : IsLiteralFree (to_set chain) default_graph
unfolding to_set quad_beq
chain_free x y p l = ground arith

walked :
    evaluate list_store chain 6 descendants (named_node "a") default_graph
    ≡ some (named_node_term "b" ∷ named_node_term "c" ∷ [])
unfolding evaluate to_set quad_beq matches graph_name_beq subject_beq term_to_subj subj_to_term
walked = refl

evaluate_sound_example :
    (out : List Term) × (evaluate list_store chain 6 both_ways (named_node "b") default_graph
      ≡ some out)
    × IsDistinct out
    × ((t : Term)
        → contains out t ≡ true
        → Connects (to_set chain) default_graph both_ways (subj_to_term (named_node "b")) t)
evaluate_sound_example =
    evaluate_sound list_store list_store-IsQuadSet chain default_graph 6 both_ways (named_node "b")
      chain_enough

evaluate-Connects_example :
    (out : List Term) × (evaluate list_store chain 6 both_ways (named_node "b") default_graph
      ≡ some out)
    × IsDistinct out
    × ((t : Term)
        → (contains out t ≡ true)
          ↔ Connects (to_set chain) default_graph both_ways (subj_to_term (named_node "b")) t)
evaluate-Connects_example =
    evaluate-Connects list_store list_store-IsQuadSet chain default_graph 6 both_ways
      (named_node "b") chain_enough chain_free (tt, (tt, tt))

abbrev label : Literal
label = record { value = "l"; datatype = "xsd:string"; language = none }

abbrev labelled : List Quad
labelled = quad (named_node "a") "p" (literal label) default_graph ∷ []

labelled_enough :
    size list_store list_store-IsQuadSet labelled
      + size list_store list_store-IsQuadSet labelled
      + 1
    < 4
unfolding to_set quad_beq
labelled_enough = omega arith

labelled_there :
    contains (to_set labelled) (quad (named_node "a") "p" (literal label) default_graph) ≡ true
unfolding to_set quad_beq graph_name_beq subject_beq
labelled_there = refl

zero_or_more-misses_example :
    (out : List Term) × (evaluate list_store labelled 4
        (zero_or_more (predicate "p"))
        (named_node "a")
        default_graph
      ≡ some out)
    × (contains out (literal label) ≡ false)
    × Connects
        (to_set labelled)
        default_graph
        (zero_or_more (predicate "p"))
        (subj_to_term (named_node "a"))
        (literal label)
zero_or_more-misses_example =
    zero_or_more-misses list_store list_store-IsQuadSet labelled default_graph 4 "p"
      (named_node "a") label labelled_enough labelled_there

abbrev loop : List Quad
loop = quad (blank_node "l") sh_inverse_path (blank_node_term "l") default_graph ∷ []

abbrev ring : List BlankNode
ring = "l" ∷ []

loop_there :
    contains
      (to_set loop)
      (quad (blank_node "l") sh_inverse_path (blank_node_term "l") default_graph)
    ≡ true
unfolding to_set quad_beq graph_name_beq subject_beq
loop_there = refl

loop_only :
    (c : BlankNode)
    → contains ring c ≡ true
    → (contains ring "l" ≡ true)
      × (contains
            (to_set loop)
            (quad (blank_node c) sh_inverse_path (blank_node_term "l") default_graph)
          ≡ true)
      × ((t : Term)
          → contains (to_set loop) (quad (blank_node c) sh_inverse_path t default_graph) ≡ true
          → t ≡ blank_node_term "l")
unfolding to_set quad_beq graph_name_beq subject_beq
loop_only c m = (
  refl,
  ground (arith, string_eq.beq_iff "l" c),
  λ t h. ground (arith, term_eq.beq_iff (blank_node_term "l") t),
)

parse_diverges_example : parse list_store loop default_graph 100 (blank_node_term "l") ≡ none
parse_diverges_example =
    parse_diverges list_store list_store-IsQuadSet loop default_graph ring (λ c. "l") loop_only "l"
      refl 100

loop_enough : size list_store list_store-IsQuadSet loop < 2
unfolding to_set quad_beq
loop_enough = omega arith

walk_list-returns_example :
    (r : Result (List Term)) × (walk_list list_store loop default_graph 2 (blank_node_term "l")
      ≡ some r)
walk_list-returns_example =
    walk_list-returns list_store list_store-IsQuadSet loop default_graph 2 (blank_node_term "l")
      loop_enough
