-- ===== src/Owl/Rules/Schema.antt =====
-- The rules of src/functions/rdf_owl_rl/rules.rs that derive axioms of the schema from axioms: what
-- each returns.
use sqlite_sparql.Prelude.{
  ◌⊎◌, arith, ◌≡◌, refl, sym, subst, contains, ◌∙◌, if◌then◌else◌, ◌∷◌, [], Derives, Derives-bind,
  Derives-each, Derives_iff, pair_eq, string_eq,
}
use sqlite_sparql.Rdf.{NamedNode, Subject, named_node, named_node_term, mk_triple, GraphName}
use sqlite_sparql.Rdf.Equality.{subject_eq, term_eq, triple_eq, quad_eq, graph_name_eq}
use sqlite_sparql.Rdf.Coercions.{subj_to_term, term_to_subj, term_to_subj_iff}
use sqlite_sparql.Oxigraph.{QuadStore, IsQuadSet}
use sqlite_sparql.Graphs.{rdf_type}
use sqlite_sparql.Graphs.Holds.{In}
use sqlite_sparql.Graphs.Collected.{instances_of_lem, pairs_for_predicate_lem}
use sqlite_sparql.Owl.Vocabulary.{
  owl_class, owl_equivalent_class, owl_thing, owl_nothing, rdfs_sub_class_of,
}
use sqlite_sparql.Owl.Rules.Readings.{if_some_lem}
use sqlite_sparql.Owl.Rules.{
  equivalent_to_subsumption, bidirectional_subsumption_to_equivalent, apply_scm_cls,
}

module _ (db : QuadStore) (law : IsQuadSet db) (s : db.Store) (a i : GraphName) where
  -- `equivalent_to_subsumption` returns, without an error, exactly the two subsumptions between
  -- `c1` and `c2`, for nodes with `c1 equiv c2` in the premise graphs.
  pub equivalent_to_subsumption_lem :
      (equiv sub : NamedNode)
      → Derives (equivalent_to_subsumption db s equiv sub a i) (λ t.
        (c1 c2 : Subject) × In db law s a i c1 equiv (subj_to_term c2)
        × ((t ≡ mk_triple c1 sub (subj_to_term c2)) ⊎ (t ≡ mk_triple c2 sub (subj_to_term c1))))
  unfolding equivalent_to_subsumption
  equivalent_to_subsumption_lem equiv sub =
      let (pairs, e, h) = pairs_for_predicate_lem db law s a i equiv in
      Derives-bind _ _ _ pairs e (
        Derives_iff _
          (λ t. (
            λ ((x, yt), m, (y, ey, mt)).
                let same : yt ≡ subj_to_term y = (term_to_subj_iff yt y).0 ey in
                (
                  x,
                  y,
                  subst (λ w. In db law s a i x equiv w) same (sym (h x yt) ∙ m),
                  ground (
                    arith,
                    triple_eq.beq_iff (mk_triple x sub yt) t,
                    triple_eq.beq_iff (mk_triple y sub (subj_to_term x)) t,
                  ),
                ),
            λ (x, y, hx, et). (
              (x, subj_to_term y),
              h _ _ ∙ hx,
              (
                y,
                (term_to_subj_iff (subj_to_term y) y).1 refl,
                ground (
                  arith,
                  triple_eq.beq_iff (mk_triple x sub (subj_to_term y)) t,
                  triple_eq.beq_iff (mk_triple y sub (subj_to_term x)) t,
                ),
              ),
            ),
          ))
          (Derives-each _ _ pairs (λ xy t.
            if_some_lem (term_to_subj xy.1)
              (λ y. mk_triple xy.0 sub xy.1 ∷ mk_triple y sub (subj_to_term xy.0) ∷ []) t)))

  -- `bidirectional_subsumption_to_equivalent` returns, without an error, exactly the triples
  -- `x equiv y` for nodes with both `x sub y` and `y sub x` in the premise graphs.
  pub bidirectional_subsumption_to_equivalent_lem :
      (sub equiv : NamedNode)
      → Derives (bidirectional_subsumption_to_equivalent db s sub equiv a i) (λ t.
        (x y : Subject) × In db law s a i x sub (subj_to_term y)
        × In db law s a i y sub (subj_to_term x)
        × (t ≡ mk_triple x equiv (subj_to_term y)))
  unfolding bidirectional_subsumption_to_equivalent
  bidirectional_subsumption_to_equivalent_lem sub equiv =
      let (pairs, e, h) = pairs_for_predicate_lem db law s a i sub in
      Derives-bind _ _ _ pairs e (
        Derives_iff _
          (λ t. (
            λ ((x, yt), m, (y, ey, mt)).
                let same : yt ≡ subj_to_term y = (term_to_subj_iff yt y).0 ey in
                (
                  x,
                  y,
                  subst (λ w. In db law s a i x sub w) same (sym (h x yt) ∙ m),
                  ground (arith, h y (subj_to_term x), triple_eq.beq_iff (mk_triple x equiv yt) t),
                  ground (arith, triple_eq.beq_iff (mk_triple x equiv yt) t),
                ),
            λ (x, y, hx, hy, et). (
              (x, subj_to_term y),
              h _ _ ∙ hx,
              (
                y,
                (term_to_subj_iff (subj_to_term y) y).1 refl,
                ground (
                  arith,
                  h y (subj_to_term x),
                  triple_eq.beq_iff (mk_triple x equiv (subj_to_term y)) t,
                ),
              ),
            ),
          ))
          (Derives-each _ _ pairs (λ xy t.
            if_some_lem (term_to_subj xy.1)
              (λ y.
                if contains pairs (y, subj_to_term xy.0)
                then mk_triple xy.0 equiv xy.1 ∷ []
                else [])
              t)))

  -- `apply_scm_cls` returns, without an error, exactly the four axioms of every class that the
  -- premise graphs declare.
  pub apply_scm_cls_lem : Derives (apply_scm_cls db s a i) (λ t.
      (c : Subject) × In db law s a i c rdf_type (named_node_term owl_class)
      × ((t ≡ mk_triple c rdfs_sub_class_of (subj_to_term c))
          ⊎ (t ≡ mk_triple c owl_equivalent_class (subj_to_term c))
          ⊎ (t ≡ mk_triple c rdfs_sub_class_of (named_node_term owl_thing))
          ⊎ (t ≡ mk_triple (named_node owl_nothing) rdfs_sub_class_of (subj_to_term c))))
  unfolding apply_scm_cls
  apply_scm_cls_lem =
      let (classes, e, h) = instances_of_lem db law s a i owl_class in
      Derives-bind _ _ _ classes e (
        Derives_iff _ (λ t. (λ (c, m, mt). (c, sym (h c) ∙ m, mt), λ (c, m, mt). (c, h c ∙ m, mt)))
          (Derives-each _ _ classes (λ c t. (
            λ m. ground (
              arith,
              triple_eq.beq_iff (mk_triple c rdfs_sub_class_of (subj_to_term c)) t,
              triple_eq.beq_iff (mk_triple c owl_equivalent_class (subj_to_term c)) t,
              triple_eq.beq_iff (mk_triple c rdfs_sub_class_of (named_node_term owl_thing)) t,
              triple_eq.beq_iff
                  (mk_triple (named_node owl_nothing) rdfs_sub_class_of (subj_to_term c)) t,
            ),
            λ w. ground (
              arith,
              triple_eq.beq_iff (mk_triple c rdfs_sub_class_of (subj_to_term c)) t,
              triple_eq.beq_iff (mk_triple c owl_equivalent_class (subj_to_term c)) t,
              triple_eq.beq_iff (mk_triple c rdfs_sub_class_of (named_node_term owl_thing)) t,
              triple_eq.beq_iff
                  (mk_triple (named_node owl_nothing) rdfs_sub_class_of (subj_to_term c)) t,
            ),
          ))))
