-- ===== src/Owl/Rules/Links.antt =====
-- The rules of src/functions/rdf_owl_rl/rules.rs that read properties off the schema and apply them
-- to every triple, or that turn one triple into others: what each returns.
use sqlite_sparql.Prelude.{
  arith, ◌≡◌, refl, sym, subst, Bool, some, map, ◌∙◌, each, if◌then◌else◌, ◌∷◌, [], Derives,
  Derives-bind, Derives-each, Derives_iff, group, joined, pair_eq, string_eq,
}
use sqlite_sparql.Rdf.{NamedNode, Subject, named_node, Term, named_node_term, mk_triple, GraphName}
use sqlite_sparql.Rdf.Equality.{subject_eq, term_eq, triple_eq, quad_eq, graph_name_eq}
use sqlite_sparql.Rdf.Coercions.{subj_to_term, term_to_subj, term_to_subj_iff}
use sqlite_sparql.Oxigraph.{QuadStore, IsQuadSet}
use sqlite_sparql.Graphs.{rdf_type}
use sqlite_sparql.Graphs.Holds.{In}
use sqlite_sparql.Graphs.Collected.{all_quads_lem, pairs_for_predicate_lem}
use sqlite_sparql.Owl.Vocabulary.{owl_same_as, rdfs_sub_property_of}
use sqlite_sparql.Owl.Rules.Readings.{if_some_lem, named_key_lem, named_pair_lem}
use sqlite_sparql.Owl.Rules.{apply_prp_spo1, domain_or_range, apply_eq_sym, named_key, named_pair}
use sqlite_sparql.Owl.Rules.Joins.{joined-map_iff}

module _ (db : QuadStore) (law : IsQuadSet db) (s : db.Store) (a i : GraphName) where
  -- `apply_prp_spo1` returns, without an error, exactly the triples `x p2 y` for which some property
  -- `p1` has `x p1 y`, and is a subproperty of the IRI `p2`, in the premise graphs.
  pub apply_prp_spo1_lem : Derives (apply_prp_spo1 db s a i) (λ t.
      (x : Subject) × (p1 p2 : NamedNode) × (y : Term) × In db law s a i x p1 y
      × In db law s a i (named_node p1) rdfs_sub_property_of (named_node_term p2)
      × (t ≡ mk_triple x p2 y))
  unfolding apply_prp_spo1
  apply_prp_spo1_lem =
      let (subs, e, h) = pairs_for_predicate_lem db law s a i rdfs_sub_property_of in
      let (quads, e', h') = all_quads_lem db law s a i in
      Derives-bind _ _ _ subs e (
        Derives-bind _ _ _ quads e' (
          Derives_iff _
            (λ t. (
              λ ((x, (p, y)), m, (p1, p2, ep, mp, et)).
                  let same : p ≡ p1 = ground arith in
                  (
                    x,
                    p,
                    p2,
                    y,
                    sym (h' x p y) ∙ m,
                    sym (h _ _) ∙ (named_pair_lem subs p p2).0 (rw same mp),
                    et,
                  ),
              λ (x, p1, p2, y, hx, hp, et). (
                (x, (p1, y)),
                h' x p1 y ∙ hx,
                (p1, p2, refl, (named_pair_lem subs p1 p2).1 (h _ _ ∙ hp), et),
              ),
            ))
            (Derives-each _ _ quads (λ q t.
              joined-map_iff (each subs named_pair) (some q.1.0) (λ p2. mk_triple q.0 p2 q.1.1)
                t))))

  -- `domain_or_range` returns, without an error, exactly the triples `u rdf:type c` for which some
  -- IRI `p` has `p dr c` and some triple `x p y` has `u` as its subject, or as its object when
  -- `use_subject` is not set, in the premise graphs.
  pub domain_or_range_lem :
      (dr : NamedNode) (use_subject : Bool)
      → Derives (domain_or_range db s dr use_subject a i) (λ t.
        (u x : Subject) × (p : NamedNode) × (y c : Term) × In db law s a i x p y
        × In db law s a i (named_node p) dr c
        × ((if use_subject then some x else term_to_subj y) ≡ some u)
        × (t ≡ mk_triple u rdf_type c))
  unfolding domain_or_range
  domain_or_range_lem dr use_subject =
      let (drs, e, h) = pairs_for_predicate_lem db law s a i dr in
      let (quads, e', h') = all_quads_lem db law s a i in
      Derives-bind _ _ _ drs e (
        Derives-bind _ _ _ quads e' (
          Derives_iff _
            (λ t. (
              λ ((x, (p, y)), m, (u, eu, mc)).
                  let (p1, c, ep, mp, et) =
                    (joined-map_iff (each drs named_key) (some p) (λ c. mk_triple u rdf_type c) t).0
                      mc in
                  let same : p ≡ p1 = ground arith in
                  (
                    u,
                    x,
                    p,
                    y,
                    c,
                    sym (h' x p y) ∙ m,
                    sym (h _ _) ∙ (named_key_lem drs p c).0 (rw same mp),
                    eu,
                    et,
                  ),
              λ (u, x, p, y, c, hx, hp, eu, et). (
                (x, (p, y)),
                h' x p y ∙ hx,
                (
                  u,
                  eu,
                  (joined-map_iff (each drs named_key) (some p) (λ c. mk_triple u rdf_type c) t).1
                      (p, c, refl, (named_key_lem drs p c).1 (h _ _ ∙ hp), et),
                ),
              ),
            ))
            (Derives-each _ _ quads (λ q t.
              if_some_lem (if use_subject then some q.0 else term_to_subj q.1.1)
                (λ u.
                  map (λ c. mk_triple u rdf_type c)
                    (joined (group (each drs named_key)) (some q.1.0)))
                t))))

  -- `apply_eq_sym` returns, without an error, exactly the triples `y owl:sameAs x` for nodes with
  -- `x owl:sameAs y` in the premise graphs.
  pub apply_eq_sym_lem : Derives (apply_eq_sym db s a i) (λ t.
      (x y : Subject) × In db law s a i x owl_same_as (subj_to_term y)
      × (t ≡ mk_triple y owl_same_as (subj_to_term x)))
  unfolding apply_eq_sym
  apply_eq_sym_lem =
      let (pairs, e, h) = pairs_for_predicate_lem db law s a i owl_same_as in
      Derives-bind _ _ _ pairs e (
        Derives_iff _
          (λ t. (
            λ ((x, yt), m, (y, ey, mt)). (
              x,
              y,
              subst (λ w. In db law s a i x owl_same_as w) ((term_to_subj_iff yt y).0 ey)
                  (sym (h x yt) ∙ m),
              ground (arith, triple_eq.beq_iff (mk_triple y owl_same_as (subj_to_term x)) t),
            ),
            λ (x, y, hx, et). (
              (x, subj_to_term y),
              h _ _ ∙ hx,
              (
                y,
                (term_to_subj_iff (subj_to_term y) y).1 refl,
                ground (arith, triple_eq.beq_iff (mk_triple y owl_same_as (subj_to_term x)) t),
              ),
            ),
          ))
          (Derives-each _ _ pairs (λ xy t.
            if_some_lem (term_to_subj xy.1) (λ y. mk_triple y owl_same_as (subj_to_term xy.0) ∷ [])
              t)))
