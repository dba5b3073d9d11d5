-- ===== src/Owl/Rules/Joins.antt =====
-- The rules of src/functions/rdf_owl_rl/rules.rs that join one set of pairs with itself or with
-- another one: what each returns, in terms of the triples of the premise graphs.
use sqlite_sparql.Prelude.{
  List, arith, ◌≡◌, ◌↔◌, refl, sym, subst, true, Option, some, contains, map, ok, ◌∙◌, each,
  Derives, Derives-bind, Derives-each, Derives_iff, group, joined, joined_iff, contains-map_elim,
  contains-map_intro, pair_eq, string_eq, Eq,
}
use sqlite_sparql.Rdf.{NamedNode, Subject, Term, Triple, mk_triple, GraphName}
use sqlite_sparql.Rdf.Equality.{subject_eq, term_eq, triple_eq, quad_eq, graph_name_eq}
use sqlite_sparql.Rdf.Coercions.{subj_to_term, term_to_subj, term_to_subj_iff}
use sqlite_sparql.Oxigraph.{QuadStore, IsQuadSet}
use sqlite_sparql.Graphs.{rdf_type}
use sqlite_sparql.Graphs.Holds.{In}
use sqlite_sparql.Graphs.Collected.{pairs_for_predicate_lem}
use sqlite_sparql.Owl.Vocabulary.{rdfs_sub_class_of, rdfs_sub_property_of}
use sqlite_sparql.Owl.Rules.Readings.{flipped_lem}
use sqlite_sparql.Owl.Rules.{
  transitive_closure, apply_cax_sco, domain_or_range_via_subclass, domain_or_range_via_subproperty,
  flipped,
}

-- membership of what a hash join emits for one key
module _ {K V B : Type 0} ⦃e : Eq K⦄ ⦃d : Eq V⦄ ⦃c : Eq B⦄ where
  pub joined-map_iff :
      (kvs : List (K × V)) (o : Option K) (f : V → B) (b : B)
      → (contains (map f (joined (group kvs) o)) b ≡ true)
        ↔ ((k : K) × (v : V) × (o ≡ some k) × (contains kvs (k, v) ≡ true) × (b ≡ f v))
  joined-map_iff kvs o f b = (
    λ h.
        let (v, m, eq) = contains-map_elim f (joined (group kvs) o) b h in
        let (k, eqk, mk) = (joined_iff kvs o v).0 m in (k, v, eqk, mk, sym eq),
    λ (k, v, eqk, mk, eq).
        subst (λ x. contains (map f (joined (group kvs) o)) x ≡ true) (sym eq)
          (contains-map_intro f (joined (group kvs) o) v ((joined_iff kvs o v).1 (k, eqk, mk))),
  )

-- Subject of one set of pairs, through a node that is its object there and a subject of the other.
pub through :
    (ps qs : List (Subject × Term)) (f : Subject → Term → Triple)
    → Derives
        (ok
          (each ps (λ (xy : Subject × Term). map (f xy.0) (joined (group qs) (term_to_subj xy.1)))))
        (λ t.
          (x y : Subject) × (z : Term) × (contains ps (x, subj_to_term y) ≡ true)
          × (contains qs (y, z) ≡ true)
          × (t ≡ f x z))
through ps qs f =
    Derives_iff _
      (λ t. (
        λ ((x, yt), m, (y, z, ey, mz, et)). (
          x,
          y,
          z,
          subst (λ w. contains ps (x, w) ≡ true) ((term_to_subj_iff yt y).0 ey) m,
          mz,
          et,
        ),
        λ (x, y, z, hx, hy, et).
            ((x, subj_to_term y), hx, (y, z, (term_to_subj_iff (subj_to_term y) y).1 refl, hy, et)),
      ))
      (Derives-each _ _ ps (λ xy t. joined-map_iff qs (term_to_subj xy.1) (f xy.0) t))

module _ (db : QuadStore) (law : IsQuadSet db) (s : db.Store) (a i : GraphName) where
  open law use {contents}

  -- `transitive_closure` returns, without an error, exactly the triples `x p z` for which some
  -- node `y` has `x p y` and `y p z` in the premise graphs: one step of the closure.
  pub transitive_closure_lem :
      (p : NamedNode)
      → Derives (transitive_closure db s p a i) (λ t.
        (x y : Subject) × (z : Term) × In db law s a i x p (subj_to_term y)
        × In db law s a i y p z
        × (t ≡ mk_triple x p z))
  unfolding transitive_closure
  transitive_closure_lem p =
      let (pairs, e, h) = pairs_for_predicate_lem db law s a i p in
      Derives-bind _ _ _ pairs e (
        Derives_iff _
          (λ t. (
            λ (x, y, z, hx, hy, et). (x, y, z, sym (h x _) ∙ hx, sym (h y z) ∙ hy, et),
            λ (x, y, z, hx, hy, et). (x, y, z, h x _ ∙ hx, h y z ∙ hy, et),
          ))
          (through pairs pairs (λ x z. mk_triple x p z)))

  -- `apply_cax_sco` returns, without an error, exactly the triples that give an instance `x` of
  -- `c1` the type `c2`, for `c1` a subclass of `c2` in the premise graphs.
  pub apply_cax_sco_lem : Derives (apply_cax_sco db s a i) (λ t.
      (x c1 : Subject) × (c2 : Term) × In db law s a i x rdf_type (subj_to_term c1)
      × In db law s a i c1 rdfs_sub_class_of c2
      × (t ≡ mk_triple x rdf_type c2))
  unfolding apply_cax_sco
  apply_cax_sco_lem =
      let (subs, e, h) = pairs_for_predicate_lem db law s a i rdfs_sub_class_of in
      let (types, e', h') = pairs_for_predicate_lem db law s a i rdf_type in
      Derives-bind _ _ _ subs e (
        Derives-bind _ _ _ types e' (
          Derives_iff _
            (λ t. (
              λ (x, y, z, hx, hy, et). (x, y, z, sym (h' x _) ∙ hx, sym (h y z) ∙ hy, et),
              λ (x, y, z, hx, hy, et). (x, y, z, h' x _ ∙ hx, h y z ∙ hy, et),
            ))
            (through types subs (λ x z. mk_triple x rdf_type z))))

  -- `domain_or_range_via_subclass` returns, without an error, exactly the triples `p dr c2` for
  -- which some class `c1` has `p dr c1`, and `c1` is a subclass of `c2`, in the premise graphs.
  pub domain_or_range_via_subclass_lem :
      (dr : NamedNode)
      → Derives (domain_or_range_via_subclass db s dr a i) (λ t.
        (p c1 : Subject) × (c2 : Term) × In db law s a i p dr (subj_to_term c1)
        × In db law s a i c1 rdfs_sub_class_of c2
        × (t ≡ mk_triple p dr c2))
  unfolding domain_or_range_via_subclass
  domain_or_range_via_subclass_lem dr =
      let (subs, e, h) = pairs_for_predicate_lem db law s a i rdfs_sub_class_of in
      let (drs, e', h') = pairs_for_predicate_lem db law s a i dr in
      Derives-bind _ _ _ drs e' (
        Derives-bind _ _ _ subs e (
          Derives_iff _
            (λ t. (
              λ (x, y, z, hx, hy, et). (x, y, z, sym (h' x _) ∙ hx, sym (h y z) ∙ hy, et),
              λ (x, y, z, hx, hy, et). (x, y, z, h' x _ ∙ hx, h y z ∙ hy, et),
            ))
            (through drs subs (λ x z. mk_triple x dr z))))

  -- `domain_or_range_via_subproperty` returns, without an error, exactly the triples `p1 dr c` for
  -- which some property `p2` has `p2 dr c`, and `p1` is a subproperty of `p2`, in the premise
  -- graphs.
  pub domain_or_range_via_subproperty_lem :
      (dr : NamedNode)
      → Derives (domain_or_range_via_subproperty db s dr a i) (λ t.
        (p1 p2 : Subject) × (c : Term) × In db law s a i p2 dr c
        × In db law s a i p1 rdfs_sub_property_of (subj_to_term p2)
        × (t ≡ mk_triple p1 dr c))
  unfolding domain_or_range_via_subproperty
  domain_or_range_via_subproperty_lem dr =
      let (subs, e, h) = pairs_for_predicate_lem db law s a i rdfs_sub_property_of in
      let (drs, e', h') = pairs_for_predicate_lem db law s a i dr in
      Derives-bind _ _ _ drs e' (
        Derives-bind _ _ _ subs e (
          Derives_iff _
            (λ t. (
              λ ((p2, c), m, (k, p1, ek, mk, et)).
                  let same =
                    subst (λ q. contains (each subs flipped) (q, p1) ≡ true) (ground arith) mk in
                  (
                    p1,
                    p2,
                    c,
                    sym (h' p2 c) ∙ m,
                    sym (h p1 _) ∙ (flipped_lem subs p2 p1).0 same,
                    et,
                  ),
              λ (p1, p2, c, hp, hs, et). (
                (p2, c),
                h' p2 c ∙ hp,
                (p2, p1, refl, (flipped_lem subs p2 p1).1 (h p1 _ ∙ hs), et),
              ),
            ))
            (Derives-each _ _ drs (λ pc t.
              joined-map_iff (each subs flipped) (some pc.0) (λ p1. mk_triple p1 dr pc.1) t))))
