-- ===== src/Rdf/Equality.antt =====
-- `PartialEq` of the RDF data model, which Rust derives.
use sqlite_sparql.Prelude.{
  Eq, ◌==◌, and_iff, ap, option_eq, string_eq, ◌≡◌, ◌↔◌, Bool, true, false, ◌&&◌, arith,
}
use sqlite_sparql.Rdf.{
  Literal, Subject, named_node, blank_node, triple, Term, named_node_term, blank_node_term, literal,
  triple_term, Triple, mk_triple, GraphName, default_graph, named_graph, blank_graph, Quad,
}

abbrev pub literal_beq : Literal → Literal → Bool
literal_beq l k = l.value == k.value && l.datatype == k.datatype && l.language == k.language

pub literal_beq_iff : (l k : Literal) → (literal_beq l k ≡ true) ↔ (l ≡ k)
literal_beq_iff l k =
    let parts =
      and_iff (l.value == k.value && l.datatype == k.datatype) (l.language == k.language)
        (and_iff (l.value == k.value) (l.datatype == k.datatype) (string_eq.beq_iff l.value k.value)
          (string_eq.beq_iff l.datatype k.datatype))
        (option_eq.beq_iff l.language k.language) in
    (
      λ h. let w = parts.0 h in cc (w.0.0, w.0.1, w.1),
      λ e. parts.1 (
        (ap (λ (x : Literal). x.value) e, ap (λ (x : Literal). x.datatype) e),
        ap (λ (x : Literal). x.language) e,
      ),
    )

instance abbrev pub literal_eq : Eq Literal
literal_eq = record { beq = literal_beq; beq_iff = literal_beq_iff }

unfoldable mutual
  pub subject_beq : Subject → Subject → Bool
  subject_beq (named_node n) (named_node m) = n == m
  subject_beq (blank_node n) (blank_node m) = n == m
  subject_beq (triple t) (triple u) = triple_beq t u
  subject_beq _ _ = false

  pub term_beq : Term → Term → Bool
  term_beq (named_node_term n) (named_node_term m) = n == m
  term_beq (blank_node_term n) (blank_node_term m) = n == m
  term_beq (literal l) (literal k) = l == k
  term_beq (triple_term t) (triple_term u) = triple_beq t u
  term_beq _ _ = false

  pub triple_beq : Triple → Triple → Bool
  triple_beq (mk_triple s p o) (mk_triple t q u) = subject_beq s t && p == q && term_beq o u

mutual
  unfolding subject_beq

  pub subject_beq_iff : (s t : Subject) → (subject_beq s t ≡ true) ↔ (s ≡ t)
  subject_beq_iff (named_node n) (named_node m) = ground (arith, string_eq.beq_iff n m)
  subject_beq_iff (blank_node n) (blank_node m) = ground (arith, string_eq.beq_iff n m)
  subject_beq_iff (triple t) (triple u) = ground (arith, triple_beq_iff t u)
  subject_beq_iff _ _ = ground arith

  pub term_beq_iff : (s t : Term) → (term_beq s t ≡ true) ↔ (s ≡ t)
  term_beq_iff (named_node_term n) (named_node_term m) = ground (arith, string_eq.beq_iff n m)
  term_beq_iff (blank_node_term n) (blank_node_term m) = ground (arith, string_eq.beq_iff n m)
  term_beq_iff (literal l) (literal k) = ground (arith, literal_beq_iff l k)
  term_beq_iff (triple_term t) (triple_term u) = ground (arith, triple_beq_iff t u)
  term_beq_iff _ _ = ground arith

  pub triple_beq_iff : (s t : Triple) → (triple_beq s t ≡ true) ↔ (s ≡ t)
  triple_beq_iff (mk_triple s p o) (mk_triple t q u) =
      let parts =
        and_iff (subject_beq s t && p == q) (term_beq o u)
          (and_iff (subject_beq s t) (p == q) (subject_beq_iff s t) (string_eq.beq_iff p q))
          (term_beq_iff o u) in
      (λ h. let w = parts.0 h in cc (w.0.0, w.0.1, w.1), λ e. parts.1 ((cc, cc), cc))

instance abbrev pub subject_eq : Eq Subject
subject_eq = record { beq = subject_beq; beq_iff = subject_beq_iff }

instance abbrev pub term_eq : Eq Term
term_eq = record { beq = term_beq; beq_iff = term_beq_iff }

instance abbrev pub triple_eq : Eq Triple
triple_eq = record { beq = triple_beq; beq_iff = triple_beq_iff }

unfoldable pub graph_name_beq : GraphName → GraphName → Bool
graph_name_beq default_graph default_graph = true
graph_name_beq (named_graph n) (named_graph m) = n == m
graph_name_beq (blank_graph n) (blank_graph m) = n == m
graph_name_beq _ _ = false

pub graph_name_beq_iff : (g h : GraphName) → (graph_name_beq g h ≡ true) ↔ (g ≡ h)
unfolding graph_name_beq
graph_name_beq_iff (named_graph n) (named_graph m) = ground (arith, string_eq.beq_iff n m)
graph_name_beq_iff (blank_graph n) (blank_graph m) = ground (arith, string_eq.beq_iff n m)
graph_name_beq_iff _ _ = ground arith

instance abbrev pub graph_name_eq : Eq GraphName
graph_name_eq = record { beq = graph_name_beq; beq_iff = graph_name_beq_iff }

unfoldable pub quad_beq : Quad → Quad → Bool
unfolding graph_name_beq subject_beq
quad_beq q r =
    q.subject == r.subject
    && q.predicate == r.predicate
    && q.object == r.object
    && q.graph_name == r.graph_name

pub quad_beq_iff : (q r : Quad) → (quad_beq q r ≡ true) ↔ (q ≡ r)
unfolding quad_beq
quad_beq_iff q r =
    let parts =
      and_iff (q.subject == r.subject && q.predicate == r.predicate && q.object == r.object)
        (q.graph_name == r.graph_name)
        (and_iff (q.subject == r.subject && q.predicate == r.predicate) (q.object == r.object)
          (and_iff (q.subject == r.subject) (q.predicate == r.predicate)
            (subject_beq_iff q.subject r.subject) (string_eq.beq_iff q.predicate r.predicate))
          (term_beq_iff q.object r.object))
        (graph_name_beq_iff q.graph_name r.graph_name) in
    (
      λ h. let w = parts.0 h in cc (w.0.0.0, w.0.0.1, w.0.1, w.1),
      λ e. parts.1 (
        (
          (ap (λ (x : Quad). x.subject) e, ap (λ (x : Quad). x.predicate) e),
          ap (λ (x : Quad). x.object) e,
        ),
        ap (λ (x : Quad). x.graph_name) e,
      ),
    )

instance abbrev pub quad_eq : Eq Quad
quad_eq = record { beq = quad_beq; beq_iff = quad_beq_iff }
