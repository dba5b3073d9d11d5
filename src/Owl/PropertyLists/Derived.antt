-- ===== src/Owl/PropertyLists/Derived.antt =====
-- What prp-spo2 and prp-key of src/functions/rdf_owl_rl/rules.rs derive, from the lists that they read on.
use sqlite_sparql.Prelude.{
  ℕ, ◌<◌, List, [], ◌∷◌, ◌≡◌, ◌≢◌, ◌∙◌, refl, sym, ap, subst, true, Option, none, some, Result, ok,
  contains, each, Derives, list_eq, pair_eq, string_eq,
}
use sqlite_sparql.Rdf.{NamedNode, Subject, named_node, Term, Triple, mk_triple, GraphName}
use sqlite_sparql.Rdf.Equality.{subject_eq, term_eq, triple_eq, quad_eq, graph_name_eq}
use sqlite_sparql.Rdf.Coercions.{subj_to_term}
use sqlite_sparql.Oxigraph.{QuadStore, IsQuadSet}
use sqlite_sparql.Oxigraph.Sizes.{size}
use sqlite_sparql.Graphs.{rdf_type, graphs_to_query}
use sqlite_sparql.Graphs.Holds.{In}
use sqlite_sparql.Graphs.Collected.{pairs_for_predicate_lem}
use sqlite_sparql.Owl.Vocabulary.{owl_property_chain_axiom, owl_has_key, owl_same_as}
use sqlite_sparql.Owl.Rules.{named_key}
use sqlite_sparql.Owl.Rules.Readings.{named_key_lem}
use sqlite_sparql.Owl.ClassLists.Collected.{
  Yields, Yields_iff, Yields-bind, Yields-each_fueled, Listed, Reads-at,
}
use sqlite_sparql.Owl.ClassLists.Members.{type_pairs_index_by_class_lem}
use sqlite_sparql.Owl.PropertyLists.{
  all_named, chain_triples, key_triples, apply_prp_spo2, apply_prp_key,
}
use sqlite_sparql.Owl.PropertyLists.Chains.{Chained, chain_triples_lem}
use sqlite_sparql.Owl.PropertyLists.Keys.{HasKey, key_triples_lem}

-- A body that needs at least one IRI derives nothing without.
Derives-named :
    (body : Option (List NamedNode) → Result (List Triple))
    (P : NamedNode → List NamedNode → Triple → Type 0)
    → body none ≡ ok []
    → body (some []) ≡ ok []
    → ((p : NamedNode) (ps : List NamedNode) → Derives (body (some (p ∷ ps))) (P p ps))
    → (o : Option (List NamedNode))
    → Derives
        (body o)
        (λ t. (p : NamedNode) × (ps : List NamedNode) × (o ≡ some (p ∷ ps)) × P p ps t)
Derives-named body P nothing empty derives none =
    ([], nothing, λ t. (λ m. cc, λ (p, ps, e, h). cc e))
Derives-named body P nothing empty derives (some []) =
    ([], empty, λ t. (λ m. cc, λ (p, ps, e, h). cc e))
Derives-named body P nothing empty derives (some (p ∷ ps)) =
    let (out, e, iff) = derives p ps in
    (
      out,
      e,
      λ t. (
        λ m. (p, ps, refl, (iff t).0 m),
        λ (q, qs, same, h).
            let ep : q ≡ p = cc same in
            let eps : qs ≡ ps = cc same in
            (iff t).1 (subst (λ r. P r ps t) ep (subst (λ rs. P q rs t) eps h)),
      ),
    )

module _ (db : QuadStore) (law : IsQuadSet db) (s : db.Store) (fuel : ℕ) (a i : GraphName) where
  -- what prp-spo2 derives for a chain
  abbrev pub ChainTriple : NamedNode → NamedNode → List NamedNode → Triple → Type 0
  ChainTriple p first props t =
      (x : Subject) × (y z : Term) × In db law s a i x first y
      × Chained db law s (graphs_to_query a i) y props z
      × (t ≡ mk_triple x p z)

  -- what prp-key derives for the key of a class
  abbrev pub KeyTriple : Subject → NamedNode → List NamedNode → Triple → Type 0
  KeyTriple c kp kps t =
      (x y : Subject) × (tup : List Term) × In db law s a i x rdf_type (subj_to_term c)
      × In db law s a i y rdf_type (subj_to_term c)
      × HasKey db law s (graphs_to_query a i) (kp ∷ kps) x tup
      × HasKey db law s (graphs_to_query a i) (kp ∷ kps) y tup
      × (x ≢ y)
      × (t ≡ mk_triple x owl_same_as (subj_to_term y))

  -- With fuel for one more than the quads of the store, apply_prp_spo2 returns, without an error, exactly
  -- the triples `x p z` for a chain of IRIs that is declared for `p` and leads from `x` to `z`.
  pub apply_prp_spo2_lem :
      size db law s < fuel
      → Yields (apply_prp_spo2 db s fuel a i) (λ t.
        (p : NamedNode) × (h : Subject) × (members : List Term) × (first : NamedNode)
        × (props : List NamedNode) × In db law s a i
            (named_node p)
            owl_property_chain_axiom
            (subj_to_term h)
        × Listed db law s fuel a i h members
        × (all_named members ≡ some (first ∷ props))
        × ChainTriple p first props t)
  unfolding apply_prp_spo2 chain_triples
  apply_prp_spo2_lem enough =
      let (pairs, e, hp) = pairs_for_predicate_lem db law s a i owl_property_chain_axiom in
      Yields-bind _ _ _ pairs (ap some e) (
        Yields_iff _
          (λ t. (
            λ ((p, head), m, (h, ms, eh, l, (first, props, named, found))). (
              p,
              h,
              ms,
              first,
              props,
              sym (hp (named_node p) (subj_to_term h))
                  ∙ subst (λ y. contains pairs (named_node p, y) ≡ true) eh
                      ((named_key_lem pairs p head).0 m),
              l,
              named,
              found,
            ),
            λ (p, h, ms, first, props, hin, l, named, found). (
              (p, subj_to_term h),
              (named_key_lem pairs p (subj_to_term h)).1 (hp (named_node p) (subj_to_term h) ∙ hin),
              (h, ms, refl, l, (first, props, named, found)),
            ),
          ))
          (Yields-each_fueled _ _ (each pairs named_key) (λ ph.
            Reads-at db law s fuel a i _ _ ph.1 enough (λ members.
              Derives-named (chain_triples db s (graphs_to_query a i) ph.0) (ChainTriple ph.0) refl
                refl
                (λ first props. chain_triples_lem db law s (graphs_to_query a i) ph.0 first props)
                (all_named members)))))

  -- With fuel for one more than the quads of the store, apply_prp_key returns, without an error, exactly
  -- the triples `x owl:sameAs y` for two different instances of a class with a key of at least one
  -- IRI that have a value in common under each property of the key.
  pub apply_prp_key_lem :
      size db law s < fuel
      → Yields (apply_prp_key db s fuel a i) (λ t.
        (c h : Subject) × (members : List Term) × (kp : NamedNode) × (kps : List NamedNode) × In db
          law s a i c owl_has_key
          (subj_to_term h)
        × Listed db law s fuel a i h members
        × (all_named members ≡ some (kp ∷ kps))
        × KeyTriple c kp kps t)
  unfolding apply_prp_key key_triples
  apply_prp_key_lem enough =
      let (pairs, e, hp) = pairs_for_predicate_lem db law s a i owl_has_key in
      let (index, ei, hi) = type_pairs_index_by_class_lem db law s fuel a i in
      Yields-bind _ _ _ pairs (ap some e) (
        Yields-bind _ _ _ index (ap some ei) (
          Yields_iff _
            (λ t. (
              λ ((c, head), m, (h, ms, eh, l, (kp, kps, named, found))). (
                c,
                h,
                ms,
                kp,
                kps,
                sym (hp c (subj_to_term h)) ∙ subst (λ y. contains pairs (c, y) ≡ true) eh m,
                l,
                named,
                found,
              ),
              λ (c, h, ms, kp, kps, hin, l, named, found). (
                (c, subj_to_term h),
                hp c (subj_to_term h) ∙ hin,
                (h, ms, refl, l, (kp, kps, named, found)),
              ),
            ))
            (Yields-each_fueled _ _ pairs (λ ck.
              Reads-at db law s fuel a i _ _ ck.1 enough (λ members.
                Derives-named (key_triples db s (graphs_to_query a i) index ck.0) (KeyTriple ck.0)
                  refl refl
                  (λ kp kps.
                    let (out, ek, iff) =
                      key_triples_lem db law s (graphs_to_query a i) index ck.0 kp kps in
                    let typed = hi (subj_to_term ck.0) in
                    (
                      out,
                      ek,
                      λ t. (
                        λ m.
                            let (x, y, tup, mx, my, kx, ky, ne, et) = (iff t).0 m in
                            (x, y, tup, sym (typed x) ∙ mx, sym (typed y) ∙ my, kx, ky, ne, et),
                        λ (x, y, tup, mx, my, kx, ky, ne, et).
                            (iff t).1 (x, y, tup, typed x ∙ mx, typed y ∙ my, kx, ky, ne, et),
                      ),
                    ))
                  (all_named members))))))
