-- ===== src/Owl/Rules/Readings.antt =====
-- The bodies of the loops of src/functions/rdf_owl_rl/rules.rs that skip what a coercion refuses:
-- what each finds in a set of pairs.
use sqlite_sparql.Prelude.{
  List, arith, ◌≡◌, ◌↔◌, refl, ap, subst, true, Option, none, some, contains, each, each-inverse,
  ◌∷◌, [], pair_eq, string_eq, Eq,
}
use sqlite_sparql.Rdf.{
  NamedNode, Subject, named_node, blank_node, triple, blank_node, triple, Term, named_node_term,
}
use sqlite_sparql.Rdf.Equality.{subject_eq, term_eq, triple_eq, quad_eq, graph_name_eq}
use sqlite_sparql.Rdf.Coercions.{term_to_named, subj_to_term, term_to_subj, term_to_subj_iff}
use sqlite_sparql.Owl.Rules.{flipped, named, named_key, named_pair, if_some}

-- what a body that a failed coercion skips emits
pub if_some_lem {ℓ} :
    {A : Type ℓ} {B : Type 0} ⦃d : Eq B⦄ (o : Option A) (body : A → List B) (b : B)
    → (contains (if_some o body) b ≡ true) ↔ ((y : A) × (o ≡ some y) × (contains (body y) b ≡ true))
if_some_lem none body b = (λ h. cc, λ h. cc (h.1))
if_some_lem (some y) body b =
    (λ h. (y, refl, h), λ (z, e, h). subst (λ w. contains (body w) b ≡ true) (ground arith) h)

-- what the three ways of reading a set of pairs find
pub flipped_lem :
    (ps : List (Subject × Term)) (k p : Subject)
    → (contains (each ps flipped) (k, p) ≡ true) ↔ (contains ps (p, subj_to_term k) ≡ true)
unfolding flipped
flipped_lem ps k p =
    each-inverse flipped (λ kp. (kp.1, subj_to_term kp.0))
      (λ (p1, t) (k1, p2). (
        λ h.
            let (y, e, m) = (if_some_lem (term_to_subj t) (λ y. (y, p1) ∷ []) (k1, p2)).0 h in
            ground (arith, term_to_subj_iff t y, subject_eq.beq_iff y k1, subject_eq.beq_iff p1 p2),
        λ h. (if_some_lem (term_to_subj t) (λ y. (y, p1) ∷ []) (k1, p2)).1 (
          k1,
          (term_to_subj_iff t k1).1 (ap (λ x. x.1) h),
          ground (arith, subject_eq.beq_iff k1 k1, subject_eq.beq_iff p1 p2),
        ),
      ))
      ps (k, p)

pub named_key_lem :
    {V : Type 0} ⦃d : Eq V⦄ (ps : List (Subject × V)) (p : NamedNode) (v : V)
    → (contains (each ps named_key) (p, v) ≡ true) ↔ (contains ps (named_node p, v) ≡ true)
unfolding named_key
named_key_lem {V = V} ⦃d⦄ ps p v =
    each-inverse named_key (λ pv. (named_node pv.0, pv.1)) (λ (x, w) (q, u). step x w q u) ps (p, v)
  where
    step :
        (x : Subject) (w : V) (q : NamedNode) (u : V)
        → (contains (named_key (x, w)) (q, u) ≡ true)
          ↔ (◌≡◌ {A = Subject × V} (x, w) (named_node q, u))
    step (named_node n) w q u = (
      λ h. ground (arith, string_eq.beq_iff n q, d.beq_iff w u),
      λ h. ground (arith, string_eq.beq_iff n q, d.beq_iff w u),
    )
    step (blank_node n) w q u = (λ h. cc, λ h. cc)
    step (triple n) w q u = (λ h. cc, λ h. cc)

pub named_pair_lem :
    (ps : List (Subject × Term)) (p q : NamedNode)
    → (contains (each ps named_pair) (p, q) ≡ true)
      ↔ (contains ps (named_node p, named_node_term q) ≡ true)
unfolding named_pair term_to_named
named_pair_lem ps p q =
    each-inverse named_pair (λ pq. (named_node pq.0, named_node_term pq.1))
      (λ (x, w) (q, u). step x w q u) ps (p, q)
  where
    step :
        (x : Subject) (w : Term) (q u : NamedNode)
        → (contains (named_pair (x, w)) (q, u) ≡ true)
          ↔ (◌≡◌ {A = Subject × Term} (x, w) (named_node q, named_node_term u))
    step (named_node n) (named_node_term w) q u = (
      λ h. ground (arith, string_eq.beq_iff n q, string_eq.beq_iff w u),
      λ h. ground (arith, string_eq.beq_iff n q, string_eq.beq_iff w u),
    )
    step (named_node n) _ q u = (λ h. cc, λ h. cc)
    step _ w q u = (λ h. cc, λ h. cc)

-- the IRIs among a list of nodes
pub named_lem :
    (xs : List Subject) (p : NamedNode)
    → (contains (each xs named) p ≡ true) ↔ (contains xs (named_node p) ≡ true)
unfolding named
named_lem xs p = each-inverse named named_node step xs p
  where
    step : (x : Subject) (q : NamedNode) → (contains (named x) q ≡ true) ↔ (x ≡ named_node q)
    step (named_node n) q =
        (λ h. ground (arith, string_eq.beq_iff n q), λ h. ground (arith, string_eq.beq_iff n q))
    step (blank_node n) q = (λ h. cc, λ h. cc)
    step (triple n) q = (λ h. cc, λ h. cc)
