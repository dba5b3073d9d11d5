-- ===== src/Owl/Equality/Replaced.antt =====
-- What the rules that replace equals return.
use sqlite_sparql.Prelude.{
  Derives-each_ok, false, each_elim, each_intro, ◌==◌, List, arith, ◌≡◌, ◌↔◌, refl, sym, ap, subst,
  Bool, true, some, contains, ◌∙◌, each, if◌then◌else◌, each-inverse, ◌∷◌, [], Derives,
  Derives-bind, Derives-each, Derives_iff, pair_eq, string_eq, Eq,
}
use sqlite_sparql.Rdf.{NamedNode, Subject, named_node, Term, named_node_term, mk_triple, GraphName}
use sqlite_sparql.Rdf.Equality.{subject_eq, term_eq, triple_eq, quad_eq, graph_name_eq}
use sqlite_sparql.Rdf.Coercions.{subj_to_term, term_to_subj, term_to_subj_iff}
use sqlite_sparql.Oxigraph.{QuadStore, IsQuadSet}
use sqlite_sparql.Graphs.Holds.{In}
use sqlite_sparql.Graphs.Collected.{all_quads_lem, pairs_for_predicate_lem}
use sqlite_sparql.Owl.Vocabulary.{owl_same_as, owl_equivalent_property}
use sqlite_sparql.Owl.Rules.Readings.{if_some_lem, named_pair_lem}
use sqlite_sparql.Owl.Rules.{named_pair}
use sqlite_sparql.Owl.Equality.{
  unequal, node_pair, equivalent_property_propagation, apply_eq_rep_s, apply_eq_rep_p,
}
use sqlite_sparql.Owl.Rules.Pushed.{pushed}
use sqlite_sparql.Owl.Rules.Joins.{joined-map_iff}

-- the pairs of two different values
unequal_lem :
    {A : Type 0} ⦃e : Eq A⦄ (xs : List (A × A)) (x y : A)
    → (contains (each xs unequal) (x, y) ≡ true)
      ↔ ((contains xs (x, y) ≡ true) × ((x == y) ≡ false))
unfolding unequal
unequal_lem ⦃e⦄ xs x y = (
  λ m.
      let ((a, b), ma, mb) = each_elim unequal xs (x, y) m in
      ground (arith, e.beq_iff a x, e.beq_iff b y),
  λ (m, ne). each_intro unequal xs (x, y) (x, y) m (ground (arith, e.beq_iff x x, e.beq_iff y y)),
)

node_pair_lem :
    (ps : List (Subject × Term)) (s s2 : Subject)
    → (contains (each ps node_pair) (s, s2) ≡ true) ↔ (contains ps (s, subj_to_term s2) ≡ true)
unfolding node_pair
node_pair_lem ps s s2 =
    each-inverse node_pair (λ kp. (kp.0, subj_to_term kp.1))
      (λ (p1, t) (p2, k1). (
        λ h.
            let (y, e, m) = (if_some_lem (term_to_subj t) (λ y. (p1, y) ∷ []) (p2, k1)).0 h in
            ground (arith, term_to_subj_iff t y, subject_eq.beq_iff y k1, subject_eq.beq_iff p1 p2),
        λ h. (if_some_lem (term_to_subj t) (λ y. (p1, y) ∷ []) (p2, k1)).1 (
          k1,
          (term_to_subj_iff t k1).1 (ap (λ x. x.1) h),
          ground (arith, subject_eq.beq_iff k1 k1, subject_eq.beq_iff p1 p2),
        ),
      ))
      ps (s, s2)

module _ (db : QuadStore) (law : IsQuadSet db) (s : db.Store) (a i : GraphName) where
  -- `equivalent_property_propagation` returns, without an error, exactly the triples `x p y` of the
  -- premise graphs with one of two properties, declared equivalent, replaced by the other: the first
  -- by the second, or the second by the first when `reverse` is set.
  pub equivalent_property_propagation_lem :
      (reverse : Bool)
      → Derives (equivalent_property_propagation db s reverse a i) (λ t.
        (p1 p2 : NamedNode) × (x : Subject) × (y : Term) × In db law s a i
          (named_node p1)
          owl_equivalent_property
          (named_node_term p2)
        × In db law s a i x (if reverse then p2 else p1) y
        × (t ≡ mk_triple x (if reverse then p1 else p2) y))
  unfolding equivalent_property_propagation
  equivalent_property_propagation_lem reverse =
      let (pairs, e, h) = pairs_for_predicate_lem db law s a i owl_equivalent_property in
      Derives-bind _ _ _ pairs e (
        Derives_iff _
          (λ t. (
            λ ((p1, p2), m, (x, y, hx, mt)). (
              p1,
              p2,
              x,
              y,
              sym (h _ _) ∙ (named_pair_lem pairs p1 p2).0 m,
              hx,
              ground (arith, triple_eq.beq_iff (mk_triple x (if reverse then p1 else p2) y) t),
            ),
            λ (p1, p2, x, y, hp, hx, et). (
              (p1, p2),
              (named_pair_lem pairs p1 p2).1 (h _ _ ∙ hp),
              (
                x,
                y,
                hx,
                ground (arith, triple_eq.beq_iff (mk_triple x (if reverse then p1 else p2) y) t),
              ),
            ),
          ))
          (Derives-each_ok _ _ (each pairs named_pair) (λ pp.
            pushed (λ x y. mk_triple x (if reverse then pp.0 else pp.1) y ∷ []) db law s
              (if reverse then pp.1 else pp.0) a i)))

  -- `apply_eq_rep_s` returns, without an error, exactly the triples of the premise graphs with their
  -- subject replaced by another node that is `owl:sameAs` it there.
  pub apply_eq_rep_s_lem : Derives (apply_eq_rep_s db s a i) (λ t.
      (x x2 : Subject) × (p : NamedNode) × (y : Term) × In db law s a i x p y
      × In db law s a i x owl_same_as (subj_to_term x2)
      × ((x == x2) ≡ false)
      × (t ≡ mk_triple x2 p y))
  unfolding apply_eq_rep_s
  apply_eq_rep_s_lem =
      let (same, e, h) = pairs_for_predicate_lem db law s a i owl_same_as in
      let (quads, e', h') = all_quads_lem db law s a i in
      Derives-bind _ _ _ same e (
        Derives-bind _ _ _ quads e' (
          Derives_iff _
            (λ t. (
              λ ((x, (p, y)), m, (k, x2, ek, mk, et)).
                  let sub =
                    subst (λ z. contains (each (each same node_pair) unequal) (z, x2) ≡ true)
                      (ground arith) mk in
                  let (pair, ne) = (unequal_lem (each same node_pair) x x2).0 sub in
                  (
                    x,
                    x2,
                    p,
                    y,
                    sym (h' x p y) ∙ m,
                    sym (h _ _) ∙ (node_pair_lem same x x2).0 pair,
                    ne,
                    et,
                  ),
              λ (x, x2, p, y, hx, hs, ne, et). (
                (x, (p, y)),
                h' x p y ∙ hx,
                (
                  x,
                  x2,
                  refl,
                  (unequal_lem (each same node_pair) x x2).1
                      ((node_pair_lem same x x2).1 (h _ _ ∙ hs), ne),
                  et,
                ),
              ),
            ))
            (Derives-each _ _ quads (λ q t.
              joined-map_iff (each (each same node_pair) unequal) (some q.0)
                (λ x2. mk_triple x2 q.1.0 q.1.1) t))))

  -- `apply_eq_rep_p` returns, without an error, exactly the triples of the premise graphs with their
  -- predicate replaced by another IRI that is `owl:sameAs` it there.
  pub apply_eq_rep_p_lem : Derives (apply_eq_rep_p db s a i) (λ t.
      (x : Subject) × (p p2 : NamedNode) × (y : Term) × In db law s a i x p y
      × In db law s a i (named_node p) owl_same_as (named_node_term p2)
      × ((p == p2) ≡ false)
      × (t ≡ mk_triple x p2 y))
  unfolding apply_eq_rep_p
  apply_eq_rep_p_lem =
      let (same, e, h) = pairs_for_predicate_lem db law s a i owl_same_as in
      let (quads, e', h') = all_quads_lem db law s a i in
      Derives-bind _ _ _ same e (
        Derives-bind _ _ _ quads e' (
          Derives_iff _
            (λ t. (
              λ ((x, (p, y)), m, (k, p2, ek, mk, et)).
                  let sub =
                    subst (λ z. contains (each (each same named_pair) unequal) (z, p2) ≡ true)
                      (ground arith) mk in
                  let (pair, ne) = (unequal_lem (each same named_pair) p p2).0 sub in
                  (
                    x,
                    p,
                    p2,
                    y,
                    sym (h' x p y) ∙ m,
                    sym (h _ _) ∙ (named_pair_lem same p p2).0 pair,
                    ne,
                    et,
                  ),
              λ (x, p, p2, y, hx, hs, ne, et). (
                (x, (p, y)),
                h' x p y ∙ hx,
                (
                  p,
                  p2,
                  refl,
                  (unequal_lem (each same named_pair) p p2).1
                      ((named_pair_lem same p p2).1 (h _ _ ∙ hs), ne),
                  et,
                ),
              ),
            ))
            (Derives-each _ _ quads (λ q t.
              joined-map_iff (each (each same named_pair) unequal) (some q.1.0)
                (λ p2. mk_triple q.0 p2 q.1.1) t))))
