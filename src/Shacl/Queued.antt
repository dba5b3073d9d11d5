-- ===== src/Shacl/Queued.antt =====
-- The queue of the instance check in src/functions/rdf_shacl_core/constraints.rs: what it takes up and how
-- the store bounds it.
use sqlite_sparql.Prelude.{
  ◌+◌, ◌≤◌, List, [], ◌∷◌, ◌≡◌, ◌∙◌, ◌||◌, ◌==◌, not, Bool_ext, refl, sym, ap, inl, inr, false,
  Bool, Bool-cases, Option-cases, none, some, ok, map, length, select, contains, string_eq, arith,
}
use sqlite_sparql.Rdf.{
  NamedNode, named_node, Term, named_node_term, blank_node_term, literal, triple_term, Quad,
}
use sqlite_sparql.Rdf.Equality.{term_beq, subject_eq, term_eq, quad_eq, graph_name_eq}
use sqlite_sparql.Rdf.Coercions.{term_to_named}
use sqlite_sparql.Shacl.Evaluators.{push_named}

-- the quads whose subject has not been visited
abbrev pub unseen : List NamedNode → Quad → Bool
unseen seen q = not (contains (map named_node seen) q.subject)

-- the quads about a class
abbrev pub about : NamedNode → Quad → Bool
about cls q = named_node cls == q.subject

pub length-select : (p : Quad → Bool) (qs : List Quad) → length (select p qs) ≤ length qs
length-select p [] = omega arith
length-select p (q ∷ qs) = ground (arith, length-select p qs)

contains-map_named :
    (seen : List NamedNode) (n : NamedNode)
    → contains (map named_node seen) (named_node n) ≡ contains seen n
contains-map_named [] n = refl
contains-map_named (m ∷ seen) n =
    let same : (named_node m == named_node n) ≡ (m == n) =
      Bool_ext _ _
        (λ h.
          (string_eq.beq_iff m n).1 (cc ((subject_eq.beq_iff (named_node m) (named_node n)).0 h)))
        (λ h.
          (subject_eq.beq_iff (named_node m) (named_node n)).1
            (ap named_node ((string_eq.beq_iff m n).0 h))) in
    ground (arith, same, contains-map_named seen n)

-- what the test against an IRI comes to once the coercion is known
named_test :
    (t : Term) (n : NamedNode)
    → (t == named_node_term n)
      ≡ (elim (term_to_named t) as (λ _. Bool) [ none ↦ false | some m ↦ m == n ])
unfolding term_to_named term_beq
named_test (named_node_term m) n =
    Bool_ext _ _
      (λ h.
        (string_eq.beq_iff m n).1
          (cc ((term_eq.beq_iff (named_node_term m) (named_node_term n)).0 h)))
      (λ h.
        (term_eq.beq_iff (named_node_term m) (named_node_term n)).1
          (ap named_node_term ((string_eq.beq_iff m n).0 h)))
named_test (blank_node_term b) n = refl
named_test (literal l) n = refl
named_test (triple_term t) n = refl

pub length-unseen :
    (seen : List NamedNode) (cls : NamedNode)
    → contains seen cls ≡ false
    → (qs : List Quad)
    → length (select (about cls) qs) + length (select (unseen (cls ∷ seen)) qs)
      ≤ length (select (unseen seen) qs)
length-unseen seen cls new [] = omega arith
length-unseen seen cls new (q ∷ qs) = elim (Bool-cases (named_node cls == q.subject)) [
  | inl same ↦
      let fresh : contains (map named_node seen) q.subject ≡ false =
        ap (contains (map named_node seen))
          (sym ((subject_eq.beq_iff (named_node cls) q.subject).0 same))
        ∙ contains-map_named seen cls
        ∙ new in
      ground (arith, length-unseen seen cls new qs, same, fresh)
  | inr other ↦ ground (arith, length-unseen seen cls new qs, other)
]

pub push_named_lem :
    (qs : List Quad) (queue : List NamedNode)
    → (queue' : List NamedNode) × (push_named queue (map some qs) ≡ ok queue')
      × (length queue' ≤ length queue + length qs)
      × ((n : NamedNode)
          → contains queue' n
            ≡ (contains queue n || contains (map (λ q. q.object) qs) (named_node_term n)))
unfolding push_named
push_named_lem [] queue = (queue, refl, omega arith, λ n. ground arith)
push_named_lem (q ∷ qs) queue = elim (Option-cases (term_to_named q.object)) [
  | inl other ↦
      let (queue', e, le, h) = push_named_lem qs queue in
      (
        queue',
        rw (other, push_named) e,
        omega arith,
        λ n.
            let test : (q.object == named_node_term n) ≡ false =
              named_test q.object n ∙ rw other refl in
            ground (arith, h n, test),
      )
  | inr (m, found) ↦
      let (queue', e, le, h) = push_named_lem qs (m ∷ queue) in
      (
        queue',
        rw (found, push_named) e,
        omega arith,
        λ n.
            let test : (q.object == named_node_term n) ≡ (m == n) =
              named_test q.object n ∙ rw found refl in
            ground (arith, h n, test),
      )
]
