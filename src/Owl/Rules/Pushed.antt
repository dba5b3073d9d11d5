-- ===== src/Owl/Rules/Pushed.antt =====
-- The loop of src/functions/rdf_owl_rl/rules.rs that pushes onto a vector, for each triple of one
-- predicate, what a closure makes of it.
use sqlite_sparql.Prelude.{
  ◌++◌, any_elim, any_intro, each_elim, each_intro, contains-append, ◌||◌, List, arith, ◌≡◌, refl,
  subst, true, none, some, contains, map, ok, each, ◌∷◌, [], Derives, pair_eq, string_eq, Eq,
}
use sqlite_sparql.Rdf.{NamedNode, Subject, Term, GraphName, Quad}
use sqlite_sparql.Rdf.Equality.{subject_eq, term_eq, triple_eq, quad_eq, graph_name_eq}
use sqlite_sparql.Oxigraph.{QuadStore, IsQuadSet, matches}
use sqlite_sparql.Graphs.{for_quads, for_graphs, graphs_to_query}
use sqlite_sparql.Graphs.Holds.{quad, In}

module _ {B : Type 0} ⦃d : Eq B⦄ (k : Subject → Term → List B) where
  pushed_quads :
      (qs : List Quad) (out : List B)
      → (all : List B) × (for_quads (λ out q. out ++ k q.subject q.object) out (map some qs)
          ≡ ok all)
        × ((b : B)
            → contains all b ≡ (contains out b || contains (each qs (λ q. k q.subject q.object)) b))
  unfolding for_quads
  pushed_quads [] out = (out, refl, λ b. ground arith)
  pushed_quads (q ∷ qs) out =
      let (all, e, h) = pushed_quads qs (out ++ k q.subject q.object) in
      (
        all,
        e,
        λ b. ground (
          arith,
          h b,
          contains-append out (k q.subject q.object) b,
          contains-append (k q.subject q.object) (each qs (λ q. k q.subject q.object)) b,
        ),
      )

  module _ (db : QuadStore) (law : IsQuadSet db) (s : db.Store) (p : NamedNode) where
    open law use {contents, matching, pattern_law, matching_law}

    pushed_graphs :
        (graphs : List GraphName) (out : List B)
        → (all : List B) × (for_graphs db s
              (λ out q. out ++ k q.subject q.object)
              none
              (some p)
              none
              out
              graphs
            ≡ ok all)
          × ((b : B)
              → contains all b ≡ (
                  contains out b
                  || contains
                      (each graphs (λ g.
                        each (matching s none (some p) none (some g)) (λ q. k q.subject q.object)))
                      b))
    unfolding for_graphs
    pushed_graphs [] out = (out, refl, λ b. ground arith)
    pushed_graphs (g ∷ graphs) out =
        let now = each (matching s none (some p) none (some g)) (λ q. k q.subject q.object) in
        let rest =
          each graphs
            (λ g. each (matching s none (some p) none (some g)) (λ q. k q.subject q.object)) in
        let (mid, e, h) = pushed_quads (matching s none (some p) none (some g)) out in
        let (all, e', h') = pushed_graphs graphs mid in
        (
          all,
          rw (pattern_law s none (some p) none (some g)) (rw e e'),
          λ b. ground (arith, h b, h' b, contains-append now rest b),
        )

    abbrev found : GraphName → List B
    found g = each (matching s none (some p) none (some g)) (λ q. k q.subject q.object)

    of_pattern :
        (g : GraphName) (q : Quad)
        → contains (matching s none (some p) none (some g)) q ≡ true
        → contains (contents s) (quad q.subject p q.object g) ≡ true
    unfolding matches
    of_pattern g q m =
        let fit = matching_law s none (some p) none (some g) q in
        let same : q ≡ quad q.subject p q.object g =
          ground (arith, string_eq.beq_iff p q.predicate, graph_name_eq.beq_iff g q.graph_name) in
        subst (λ r. contains (contents s) r ≡ true) same (ground arith)

    -- a loop that pushes something for every triple of a predicate
    pub pushed :
        (a i : GraphName)
        → Derives
            (for_graphs db s
              (λ out q. out ++ k q.subject q.object)
              none
              (some p)
              none
              []
              (graphs_to_query a i))
            (λ b. (x : Subject) × (y : Term) × In db law s a i x p y × (contains (k x y) b ≡ true))
    unfolding matches
    pushed a i =
        let (all, e, h) = pushed_graphs (graphs_to_query a i) [] in
        (
          all,
          e,
          λ b. (
            λ m.
                let (g, mg, mq) = each_elim found (graphs_to_query a i) b (ground (arith, h b)) in
                let (q, mem, mk) =
                  each_elim (λ q. k q.subject q.object) (matching s none (some p) none (some g)) b
                    mq in
                (
                  q.subject,
                  q.object,
                  any_intro (λ g. contains (contents s) (quad q.subject p q.object g))
                      (graphs_to_query a i) g mg (of_pattern g q mem),
                  mk,
                ),
            λ (x, y, hx, mb).
                let (g, mg, mq) =
                  any_elim (λ g. contains (contents s) (quad x p y g)) (graphs_to_query a i) hx in
                ground (
                  arith,
                  h b,
                  each_intro found (graphs_to_query a i) g b mg (
                      each_intro (λ q. k q.subject q.object)
                        (matching s none (some p) none (some g)) (quad x p y g) b
                        (ground (
                          arith,
                          matching_law s none (some p) none (some g) (quad x p y g),
                          string_eq.beq_iff p p,
                          graph_name_eq.beq_iff g g,
                        ))
                        mb),
                ),
          ),
        )
