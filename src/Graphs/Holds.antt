-- ===== src/Graphs/Holds.antt =====
-- What a triple in one of the premise graphs is, and the patterns that find it.
use sqlite_sparql.Prelude.{
  List, ◌≡◌, subst, Eq, Bool, true, Option, none, some, any, contains, string_eq, arith, map,
  Bool_ext, contains-map_elim, contains-map_intro, pair_eq,
}
use sqlite_sparql.Rdf.{NamedNode, Subject, Term, GraphName, Quad}
use sqlite_sparql.Rdf.Equality.{quad_eq, subject_eq, term_eq, graph_name_eq}
use sqlite_sparql.Graphs.{graphs_to_query}
use sqlite_sparql.Oxigraph.{QuadStore, IsQuadSet, matches}

abbrev pub quad : Subject → NamedNode → Term → GraphName → Quad
quad s p o g = record { subject = s; predicate = p; object = o; graph_name = g }

-- the triple stands in one of the graphs
abbrev pub holds : List Quad → List GraphName → Subject → NamedNode → Term → Bool
holds quads graphs s p o = any (λ g. contains quads (quad s p o g)) graphs

-- the triple stands in the asserted or the inferred graph of a store
abbrev pub In :
    (db : QuadStore) (law : IsQuadSet db) (s : db.Store) (a i : GraphName)
    → Subject
    → NamedNode
    → Term
    → Type 0
In db law s a i x p y = holds (law.contents s) (graphs_to_query a i) x p y ≡ true

abbrev pub pair_of : Quad → Subject × Term
pair_of q = (q.subject, q.object)

abbrev pub triple_of : Quad → Subject × (NamedNode × Term)
triple_of q = (q.subject, (q.predicate, q.object))

module _ (db : QuadStore) (law : IsQuadSet db) (s : db.Store) where
  open law use {contents, matching, matching_law}

  -- a pattern and a projection that together determine one quad
  contains-projected :
      {B : Type 0} ⦃d : Eq B⦄ (f : Quad → B) (su : Option Subject) (p : Option NamedNode)
      (o : Option Term) (g : Option GraphName) (q : Quad)
      → matches su p o g q ≡ true
      → ((r : Quad) → matches su p o g r ≡ true → f r ≡ f q → r ≡ q)
      → contains (map f (matching s su p o g)) (f q) ≡ contains (contents s) q
  contains-projected f su p o g q fit only =
      let found = matching s su p o g in
      Bool_ext _ _
        (λ h.
          let (r, m, e) = contains-map_elim f found (f q) h in
          let law_r = matching_law s su p o g r in
          let same : r ≡ q = only r (ground arith) e in
          subst (λ x. contains (contents s) x ≡ true) same (ground arith))
        (λ h. contains-map_intro f found q (ground (arith, matching_law s su p o g q)))

  pub contains-pairs :
      (p : NamedNode) (g : GraphName) (x : Subject) (y : Term)
      → contains (map pair_of (matching s none (some p) none (some g))) (x, y)
        ≡ contains (contents s) (quad x p y g)
  unfolding matches
  contains-pairs p g x y =
      contains-projected pair_of none (some p) none (some g) (quad x p y g)
        (ground (arith, string_eq.beq_iff p p, graph_name_eq.beq_iff g g))
        (λ r m e.
          ground (arith, string_eq.beq_iff p r.predicate, graph_name_eq.beq_iff g r.graph_name))

  pub contains-subjects :
      (p : NamedNode) (o : Term) (g : GraphName) (x : Subject)
      → contains (map (λ q. q.subject) (matching s none (some p) (some o) (some g))) x
        ≡ contains (contents s) (quad x p o g)
  unfolding matches
  contains-subjects p o g x =
      contains-projected (λ q. q.subject) none (some p) (some o) (some g) (quad x p o g)
        (ground (arith, string_eq.beq_iff p p, term_eq.beq_iff o o, graph_name_eq.beq_iff g g))
        (λ r m e. ground (
          arith,
          string_eq.beq_iff p r.predicate,
          term_eq.beq_iff o r.object,
          graph_name_eq.beq_iff g r.graph_name,
        ))

  pub contains-triples :
      (g : GraphName) (x : Subject) (p : NamedNode) (y : Term)
      → contains (map triple_of (matching s none none none (some g))) (x, (p, y))
        ≡ contains (contents s) (quad x p y g)
  unfolding matches
  contains-triples g x p y =
      contains-projected triple_of none none none (some g) (quad x p y g)
        (ground (arith, graph_name_eq.beq_iff g g))
        (λ r m e. ground (arith, graph_name_eq.beq_iff g r.graph_name))

  pub contains-objects :
      (x : Subject) (p : NamedNode) (g : GraphName) (y : Term)
      → contains (map (λ q. q.object) (matching s (some x) (some p) none (some g))) y
        ≡ contains (contents s) (quad x p y g)
  unfolding matches
  contains-objects x p g y =
      contains-projected (λ q. q.object) (some x) (some p) none (some g) (quad x p y g)
        (ground (arith, subject_eq.beq_iff x x, string_eq.beq_iff p p, graph_name_eq.beq_iff g g))
        (λ r m e. ground (
          arith,
          subject_eq.beq_iff x r.subject,
          string_eq.beq_iff p r.predicate,
          graph_name_eq.beq_iff g r.graph_name,
        ))
