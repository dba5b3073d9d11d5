-- ===== src/Graphs/Collected.antt =====
-- On a store that is a set of quads the collecting helpers of rules.rs return, without an error,
-- exactly what stands in the premise graphs.
use mathlib.Core.Path.{fun_ext}
use sqlite_sparql.Prelude.{
  List, [], ◌∷◌, ◌≡◌, ◌∙◌, ap, refl, Eq, ◌||◌, Option, none, some, ok, HashSet, insert, any,
  contains, contains-insert, string_eq, arith, map, pair_eq,
}
use sqlite_sparql.Rdf.{NamedNode, Subject, Term, named_node_term, GraphName, Quad}
use sqlite_sparql.Rdf.Equality.{quad_eq, subject_eq, term_eq, graph_name_eq}
use sqlite_sparql.Oxigraph.{QuadStore, IsQuadSet}
use sqlite_sparql.Graphs.{
  rdf_type, for_quads, for_graphs, graphs_to_query, pairs_for_predicate, instances_of, all_quads,
}
use sqlite_sparql.Graphs.Holds.{
  holds, pair_of, triple_of, contains-pairs, contains-subjects, contains-triples,
}

module _ {B : Type 0} ⦃d : Eq B⦄ (f : Quad → B) where
  for_quads-insert :
      (qs : List Quad) (out : HashSet B)
      → (set : HashSet B) × (for_quads (λ out q. insert out (f q)) out (map some qs) ≡ ok set)
        × ((b : B) → contains set b ≡ (contains out b || contains (map f qs) b))
  unfolding for_quads
  for_quads-insert [] out = (out, refl, λ b. ground arith)
  for_quads-insert (q ∷ qs) out =
      let (set, e, h) = for_quads-insert qs (insert out (f q)) in
      (set, e, λ b. ground (arith, h b, contains-insert out (f q) b))

  module _ (db : QuadStore) (law : IsQuadSet db) (s : db.Store) (su : Option Subject)
      (p : Option NamedNode) (o : Option Term) where
    open law use {matching, pattern_law}

    pub for_graphs-insert :
        (graphs : List GraphName) (out : HashSet B)
        → (set : HashSet B) × (for_graphs db s (λ out q. insert out (f q)) su p o out graphs
            ≡ ok set)
          × ((b : B)
              → contains set b ≡ (
                  contains out b
                  || any (λ g. contains (map f (matching s su p o (some g))) b) graphs))
    unfolding for_graphs
    for_graphs-insert [] out = (out, refl, λ b. ground arith)
    for_graphs-insert (g ∷ graphs) out =
        let (mid, e, h) = for_quads-insert (matching s su p o (some g)) out in
        let (set, e', h') = for_graphs-insert graphs mid in
        (set, rw (pattern_law s su p o (some g)) (rw e e'), λ b. ground (arith, h b, h' b))

module _ (db : QuadStore) (law : IsQuadSet db) (s : db.Store) (a i : GraphName) where
  open law use {contents}

  abbrev pub graphs : List GraphName
  graphs = graphs_to_query a i

  pub pairs_for_predicate_lem :
      (p : NamedNode)
      → (set : HashSet (Subject × Term)) × (pairs_for_predicate db s p a i ≡ ok set)
        × ((x : Subject) (y : Term) → contains set (x, y) ≡ holds (contents s) graphs x p y)
  unfolding pairs_for_predicate
  pairs_for_predicate_lem p =
      let (set, e, h) = for_graphs-insert pair_of db law s none (some p) none graphs [] in
      (
        set,
        e,
        λ x y. h (x, y) ∙ ap (λ q. any q graphs) (fun_ext λ g. contains-pairs db law s p g x y),
      )

  pub instances_of_lem :
      (c : NamedNode)
      → (set : HashSet Subject) × (instances_of db s c a i ≡ ok set)
        × ((x : Subject)
            → contains set x ≡ holds (contents s) graphs x rdf_type (named_node_term c))
  unfolding instances_of
  instances_of_lem c =
      let (set, e, h) =
        for_graphs-insert (λ q. q.subject) db law s none (some rdf_type) (some (named_node_term c))
          graphs [] in
      (
        set,
        e,
        λ x.
            h x
            ∙ ap (λ q. any q graphs)
                (fun_ext λ g. contains-subjects db law s rdf_type (named_node_term c) g x),
      )

  pub all_quads_lem :
      (set : HashSet (Subject × (NamedNode × Term))) × (all_quads db s a i ≡ ok set)
      × ((x : Subject) (p : NamedNode) (y : Term)
          → contains set (x, (p, y)) ≡ holds (contents s) graphs x p y)
  unfolding all_quads
  all_quads_lem =
      let (set, e, h) = for_graphs-insert triple_of db law s none none none graphs [] in
      (
        set,
        e,
        λ x p y.
            h (x, (p, y)) ∙ ap (λ q. any q graphs) (fun_ext λ g. contains-triples db law s g x p y),
      )
