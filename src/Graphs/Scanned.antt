-- ===== src/Graphs/Scanned.antt =====
-- A loop over the premise graphs that puts members into a set or a map for each triple of a predicate.
use sqlite_sparql.Prelude.{
  List, [], ◌∷◌, ◌≡◌, ◌↔◌, ◌⊎◌, ◌∙◌, refl, sym, inl, inr, Eq, ◌||◌, Bool, true, Bool-cases, none,
  some, ok, any, any_elim, any_intro, contains, contains-append, string_eq, arith, map, each,
  each_elim, each_intro, pair_eq,
}
use sqlite_sparql.Rdf.{NamedNode, Subject, Term, GraphName, Quad}
use sqlite_sparql.Rdf.Equality.{quad_eq, subject_eq, term_eq, graph_name_eq}
use sqlite_sparql.Oxigraph.{QuadStore, IsQuadSet}
use sqlite_sparql.Graphs.{for_quads, for_graphs}
use sqlite_sparql.Graphs.Holds.{holds, quad, pair_of, contains-pairs}

module _ {State B : Type 0} ⦃d : Eq B⦄ (has : State → B → Bool) (Good : State → Type 0)
    (body : State → Quad → State) (emit : Subject × Term → List B)
    (keeps : (out : State) (q : Quad) → Good out → Good (body out q))
    (grows : (out : State) (q : Quad) (b : B)
      → has (body out q) b ≡ (has out b || contains (emit (pair_of q)) b)) where
  for_quads-emits :
      (qs : List Quad) (out : State)
      → Good out
      → (set : State) × (for_quads body out (map some qs) ≡ ok set)
        × Good set
        × ((b : B) → has set b ≡ (has out b || contains (each (map pair_of qs) emit) b))
  unfolding for_quads
  for_quads-emits [] out good = (out, refl, good, λ b. ground arith)
  for_quads-emits (q ∷ qs) out good =
      let (set, e, g, h) = for_quads-emits qs (body out q) (keeps out q good) in
      (
        set,
        e,
        g,
        λ b. ground (
          arith,
          h b,
          grows out q b,
          contains-append (emit (pair_of q)) (each (map pair_of qs) emit) b,
        ),
      )

  module _ (db : QuadStore) (law : IsQuadSet db) (s : db.Store) (p : NamedNode) where
    open law use {contents, matching, pattern_law}

    -- what the triples of one graph contribute
    Emitted : List GraphName → B → Type 0
    Emitted graphs b =
        (x : Subject) × (y : Term) × (holds (contents s) graphs x p y ≡ true)
        × (contains (emit (x, y)) b ≡ true)

    found_in : GraphName → List (Subject × Term)
    found_in g = map pair_of (matching s none (some p) none (some g))

    for_graphs-step :
        (graphs : List GraphName) (out : State)
        → Good out
        → (set : State) × (for_graphs db s body none (some p) none out graphs ≡ ok set)
          × Good set
          × ((b : B)
              → has set b ≡ (has out b || any (λ g. contains (each (found_in g) emit) b) graphs))
    unfolding for_graphs found_in
    for_graphs-step [] out good = (out, refl, good, λ b. ground arith)
    for_graphs-step (g ∷ graphs) out good =
        let (mid, e, k, h) = for_quads-emits (matching s none (some p) none (some g)) out good in
        let (set, e', k', h') = for_graphs-step graphs mid k in
        (
          set,
          rw (pattern_law s none (some p) none (some g)) (rw e e'),
          k',
          λ b. ground (arith, h b, h' b),
        )

    Emitted-any :
        (graphs : List GraphName) (b : B)
        → (any (λ g. contains (each (found_in g) emit) b) graphs ≡ true) ↔ Emitted graphs b
    unfolding found_in Emitted
    Emitted-any graphs b = (
      λ h.
          let (g, mg, m) = any_elim (λ g. contains (each (found_in g) emit) b) graphs h in
          let ((x, y), mx, me) = each_elim emit (found_in g) b m in
          (
            x,
            y,
            any_intro (λ g. contains (contents s) (quad x p y g)) graphs g mg
                (sym (contains-pairs db law s p g x y) ∙ mx),
            me,
          ),
      λ (x, y, h, me).
          let (g, mg, m) = any_elim (λ g. contains (contents s) (quad x p y g)) graphs h in
          any_intro (λ g. contains (each (found_in g) emit) b) graphs g mg
            (each_intro emit (found_in g) (x, y) b (contains-pairs db law s p g x y ∙ m) me),
    )

    -- The loop returns, without an error, what it started with and what each triple emits, and keeps
    -- what its body keeps.
    pub for_graphs-emits :
        (graphs : List GraphName) (out : State)
        → Good out
        → (set : State) × (for_graphs db s body none (some p) none out graphs ≡ ok set)
          × Good set
          × ((b : B)
              → (has set b ≡ true) ↔ (
                  (has out b ≡ true)
                  ⊎ ((x : Subject) × (y : Term) × (holds (contents s) graphs x p y ≡ true)
                      × (contains (emit (x, y)) b ≡ true))))
    unfolding Emitted
    for_graphs-emits graphs out good =
        let (set, e, g, h) = for_graphs-step graphs out good in
        (
          set,
          e,
          g,
          λ b. (
            λ m. elim (Bool-cases (has out b)) [
              | inl before ↦ inl before
              | inr new ↦ inr ((Emitted-any graphs b).0 (ground (arith, h b)))
            ],
            λ m. elim m [
              | inl before ↦ ground (arith, h b)
              | inr w ↦ ground (arith, h b, (Emitted-any graphs b).1 w)
            ],
          ),
        )
