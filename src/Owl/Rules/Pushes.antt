-- ===== src/Owl/Rules/Pushes.antt =====
-- The rules of src/functions/rdf_owl_rl/rules.rs that collect by pushing, in a loop over the
-- properties that the schema declares: what each returns.
use sqlite_sparql.Prelude.{
  ◌>>=◌, ◌++◌, List, arith, ◌≡◌, ◌↔◌, refl, sym, subst, Bool, true, none, some, contains, map, ok,
  ◌∙◌, each, if◌then◌else◌, ◌∷◌, [], Derives, Derives-bind, Derives-each_ok, Derives_iff, group,
  joined, pair_eq, string_eq,
}
use sqlite_sparql.Rdf.{
  NamedNode, Subject, named_node, Term, named_node_term, Triple, mk_triple, GraphName,
}
use sqlite_sparql.Rdf.Equality.{subject_eq, term_eq, triple_eq, quad_eq, graph_name_eq}
use sqlite_sparql.Rdf.Coercions.{subj_to_term, term_to_subj, term_to_subj_iff}
use sqlite_sparql.Oxigraph.{QuadStore, IsQuadSet}
use sqlite_sparql.Graphs.{for_graphs, rdf_type, graphs_to_query}
use sqlite_sparql.Graphs.Holds.{In}
use sqlite_sparql.Graphs.Collected.{instances_of_lem, pairs_for_predicate_lem}
use sqlite_sparql.Owl.Vocabulary.{owl_inverse_of, owl_transitive_property, owl_symmetric_property}
use sqlite_sparql.Owl.Rules.Readings.{if_some_lem, named_lem, named_pair_lem}
use sqlite_sparql.Owl.Rules.{
  apply_prp_trp, apply_prp_symp, inverse_of, exchanged, named, named_pair,
}
use sqlite_sparql.Owl.Rules.Joins.{through}
use sqlite_sparql.Owl.Rules.Pushed.{pushed}

-- a triple with its ends exchanged
exchanged_lem :
    (emit : NamedNode) (x : Subject) (y : Term) (t : Triple)
    → (contains (exchanged emit (x, y)) t ≡ true)
      ↔ ((z : Subject) × (y ≡ subj_to_term z) × (t ≡ mk_triple z emit (subj_to_term x)))
exchanged_lem emit x y t = (
  λ h.
      let (z, e, m) =
        (if_some_lem (term_to_subj y) (λ z. mk_triple z emit (subj_to_term x) ∷ []) t).0 h in
      (
        z,
        (term_to_subj_iff y z).0 e,
        ground (arith, triple_eq.beq_iff (mk_triple z emit (subj_to_term x)) t),
      ),
  λ (z, e, et). (if_some_lem (term_to_subj y) (λ z. mk_triple z emit (subj_to_term x) ∷ []) t).1 (
    z,
    (term_to_subj_iff y z).1 e,
    ground (arith, triple_eq.beq_iff (mk_triple z emit (subj_to_term x)) t),
  ),
)

module _ (db : QuadStore) (law : IsQuadSet db) (s : db.Store) (a i : GraphName) where
  -- the loop over the triples of one predicate that exchanges their ends
  exchanges :
      (p emit : NamedNode)
      → Derives
          (for_graphs db s
            (λ out q. out ++ exchanged emit (q.subject, q.object))
            none
            (some p)
            none
            []
            (graphs_to_query a i))
          (λ t.
            (x z : Subject) × In db law s a i x p (subj_to_term z)
            × (t ≡ mk_triple z emit (subj_to_term x)))
  exchanges p emit =
      Derives_iff _
        (λ t. (
          λ (x, y, hx, mt).
              let (z, e, et) = (exchanged_lem emit x y t).0 mt in
              (x, z, subst (λ w. In db law s a i x p w) e hx, et),
          λ (x, z, hx, et).
              (x, subj_to_term z, hx, (exchanged_lem emit x (subj_to_term z) t).1 (z, refl, et)),
        ))
        (pushed (λ x y. exchanged emit (x, y)) db law s p a i)

  -- `apply_prp_symp` returns, without an error, exactly the triples `z p x` for which `p` is declared
  -- symmetric and `x p z` stands in the premise graphs.
  pub apply_prp_symp_lem : Derives (apply_prp_symp db s a i) (λ t.
      (p : NamedNode) × (x z : Subject) × In db law s a i
        (named_node p)
        rdf_type
        (named_node_term owl_symmetric_property)
      × In db law s a i x p (subj_to_term z)
      × (t ≡ mk_triple z p (subj_to_term x)))
  unfolding apply_prp_symp
  apply_prp_symp_lem =
      let (props, e, h) = instances_of_lem db law s a i owl_symmetric_property in
      Derives-bind _ _ _ props e (
        Derives_iff _
          (λ t. (
            λ (p, m, (x, z, hx, et)). (p, x, z, sym (h _) ∙ (named_lem props p).0 m, hx, et),
            λ (p, x, z, hp, hx, et). (p, (named_lem props p).1 (h _ ∙ hp), (x, z, hx, et)),
          ))
          (Derives-each_ok _ _ (each props named) (λ p. exchanges p p)))

  -- `inverse_of` returns, without an error, exactly the triples `z emit x` for which `x search z`
  -- stands in the premise graphs and the schema declares one of the two properties the inverse of
  -- the other: `search` is the subject of that declaration, or its object when `swap` is set.
  pub inverse_of_lem :
      (swap : Bool)
      → Derives (inverse_of db s swap a i) (λ t.
        (p1 p2 : NamedNode) × (x z : Subject) × In db law s a i
          (named_node p1)
          owl_inverse_of
          (named_node_term p2)
        × In db law s a i x (if swap then p2 else p1) (subj_to_term z)
        × (t ≡ mk_triple z (if swap then p1 else p2) (subj_to_term x)))
  unfolding inverse_of
  inverse_of_lem swap =
      let (pairs, e, h) = pairs_for_predicate_lem db law s a i owl_inverse_of in
      Derives-bind _ _ _ pairs e (
        Derives_iff _
          (λ t. (
            λ ((p1, p2), m, (x, z, hx, et)).
                (p1, p2, x, z, sym (h _ _) ∙ (named_pair_lem pairs p1 p2).0 m, hx, et),
            λ (p1, p2, x, z, hp, hx, et).
                ((p1, p2), (named_pair_lem pairs p1 p2).1 (h _ _ ∙ hp), (x, z, hx, et)),
          ))
          (Derives-each_ok _ _ (each pairs named_pair)
            (λ pp. exchanges (if swap then pp.1 else pp.0) (if swap then pp.0 else pp.1))))

  pairs_of :
      (p : NamedNode)
      → (pairs : List (Subject × Term)) × (for_graphs db s
            (λ out q. out ++ (q.subject, q.object) ∷ [])
            none
            (some p)
            none
            []
            (graphs_to_query a i)
          ≡ ok pairs)
        × ((x : Subject) (y : Term) → (contains pairs (x, y) ≡ true) ↔ In db law s a i x p y)
  pairs_of p =
      let (pairs, e, h) = pushed (λ x y. (x, y) ∷ []) db law s p a i in
      (
        pairs,
        e,
        λ x y. (
          λ m.
              let (x', y', hx, mb) = (h (x, y)).0 m in
              let same : (x' ≡ x) × (y' ≡ y) =
                ground (arith, subject_eq.beq_iff x' x, term_eq.beq_iff y' y) in
              subst (λ v. In db law s a i v p y) same.0
                (subst (λ w. In db law s a i x' p w) same.1 hx),
          λ hx.
              (h (x, y)).1 (x, y, hx, ground (arith, subject_eq.beq_iff x x, term_eq.beq_iff y y)),
        ),
      )

  -- the transitive closure step for one declared property
  closure :
      (p : NamedNode)
      → Derives
          (for_graphs db s
              (λ out q. out ++ (q.subject, q.object) ∷ [])
              none
              (some p)
              none
              []
              (graphs_to_query a i)
            >>= λ pairs. ok (
                each pairs (λ (xy : Subject × Term).
                  map (λ z. mk_triple xy.0 p z) (joined (group pairs) (term_to_subj xy.1)))))
          (λ t.
            (x y : Subject) × (z : Term) × In db law s a i x p (subj_to_term y)
            × In db law s a i y p z
            × (t ≡ mk_triple x p z))
  closure p =
      let (pairs, e, h) = pairs_of p in
      Derives-bind _ _ _ pairs e (
        Derives_iff _
          (λ t. (
            λ (x, y, z, hx, hy, et). (x, y, z, (h x _).0 hx, (h y z).0 hy, et),
            λ (x, y, z, hx, hy, et). (x, y, z, (h x _).1 hx, (h y z).1 hy, et),
          ))
          (through pairs pairs (λ x z. mk_triple x p z)))

  -- `apply_prp_trp` returns, without an error, exactly the triples `x p z` for which `p` is declared
  -- transitive and some node `y` has `x p y` and `y p z` in the premise graphs.
  pub apply_prp_trp_lem : Derives (apply_prp_trp db s a i) (λ t.
      (p : NamedNode) × (x y : Subject) × (z : Term) × In db law s a i
        (named_node p)
        rdf_type
        (named_node_term owl_transitive_property)
      × In db law s a i x p (subj_to_term y)
      × In db law s a i y p z
      × (t ≡ mk_triple x p z))
  unfolding apply_prp_trp
  apply_prp_trp_lem =
      let (props, e, h) = instances_of_lem db law s a i owl_transitive_property in
      Derives-bind _ _ _ props e (
        Derives_iff _
          (λ t. (
            λ (p, m, (x, y, z, hx, hy, et)).
                (p, x, y, z, sym (h _) ∙ (named_lem props p).0 m, hx, hy, et),
            λ (p, x, y, z, hp, hx, hy, et).
                (p, (named_lem props p).1 (h _ ∙ hp), (x, y, z, hx, hy, et)),
          ))
          (Derives-each_ok _ _ (each props named) closure))
