-- ===== src/Owl/Inconsistency/Pairs.antt =====
-- What the detectors of src/functions/rdf_owl_rl/inconsistency.rs report that compare two properties or
-- two directions of one: prp-pdw, prp-asyp and eq-diff1.
use sqlite_sparql.Prelude.{
  List, [], ◌∷◌, ◌≡◌, ◌≢◌, ◌↔◌, ◌∙◌, refl, sym, ap, subst, inl, inr, String, Bool, true, false,
  Bool-cases, ok, ◌>>=◌, ◌==◌, string_eq, pair_eq, contains, Derives, Derives-bind, Derives-each,
  Derives-each_ok, Derives_iff, each, text_lt, if◌then◌else◌, HashSet,
}
use sqlite_sparql.Rdf.{NamedNode, Subject, named_node, Term, named_node_term, GraphName}
use sqlite_sparql.Rdf.Equality.{subject_eq, term_eq, quad_eq, graph_name_eq}
use sqlite_sparql.Rdf.Coercions.{subj_to_term, term_to_subj, term_to_subj_iff}
use sqlite_sparql.Oxigraph.{QuadStore, IsQuadSet}
use sqlite_sparql.Graphs.{rdf_type, pairs_for_predicate}
use sqlite_sparql.Graphs.Holds.{In}
use sqlite_sparql.Graphs.Collected.{pairs_for_predicate_lem, instances_of_lem}
use sqlite_sparql.Owl.Vocabulary.{owl_asymmetric_property, owl_property_disjoint_with}
use sqlite_sparql.Owl.Rules.{named, named_pair}
use sqlite_sparql.Owl.Rules.Readings.{if_some_lem, named_lem, named_pair_lem}
use sqlite_sparql.Owl.Inconsistency.{
  ViolationRecord, record_of, violation_eq, Display, nt_named, collect_pairs,
}
use sqlite_sparql.Owl.Inconsistency.Properties.{
  detect_prp_asyp, asymmetric_violation, detect_prp_pdw, shared_pairs,
}
use sqlite_sparql.Owl.Inconsistency.Reported.{Derives-sorted, if_record, smaller, in_order_lem}

three_tests :
    (same mutual_ less : Bool) (v w : ViolationRecord)
    → (contains (if same then [] else if mutual_ then (if less then v ∷ [] else []) else []) w
        ≡ true)
      ↔ ((same ≡ false) × (mutual_ ≡ true) × (less ≡ true) × (w ≡ v))
three_tests true m l v w = (λ m. cc, λ (a, b, c, e). cc)
three_tests false false l v w = (λ m. cc, λ (a, b, c, e). cc)
three_tests false true less v w = (
  λ m. let (l, e) = (if_record less v w).0 m in (refl, refl, l, e),
  λ (a, b, l, e). (if_record less v w).1 (l, e),
)

module _ (db : QuadStore) (law : IsQuadSet db) (s : db.Store) (text : Display)
    (a i : GraphName) where
  open text use {nt_subject, nt_term}

  collect_pairs_lem :
      (p : NamedNode)
      → (set : HashSet (Subject × Term)) × (collect_pairs db s p a i ≡ ok set)
        × ((x : Subject) (y : Term) → (contains set (x, y) ≡ true) ↔ In db law s a i x p y)
  unfolding collect_pairs pairs_for_predicate
  collect_pairs_lem p =
      let (set, e, h) = pairs_for_predicate_lem db law s a i p in
      (set, e, λ x y. (λ m. sym (h x y) ∙ m, λ hx. h x y ∙ hx))

  -- a pair that two properties share
  Shared : String → NamedNode → NamedNode → ViolationRecord → Type 0
  Shared rule p1 p2 v =
      (x : Subject) × (y : Term) × (p1 ≢ p2)
      × In db law s a i x p1 y
      × In db law s a i x p2 y
      × (v ≡ record_of rule (nt_subject x) (nt_named (smaller p1 p2)) (nt_term y))

  abbrev Both : String → NamedNode → NamedNode → ViolationRecord → Type 0
  Both rule lo hi v =
      (x : Subject) × (y : Term) × In db law s a i x lo y
      × In db law s a i x hi y
      × (v ≡ record_of rule (nt_subject x) (nt_named lo) (nt_term y))

  both_lem :
      (rule : String) (lo hi : NamedNode)
      → Derives
          (collect_pairs db s lo a i >>= λ lo_pairs. collect_pairs db s hi a i >>= λ hi_pairs. ok (
            each lo_pairs (λ (xy : Subject × Term).
              if contains hi_pairs xy
              then record_of rule (nt_subject xy.0) (nt_named lo) (nt_term xy.1) ∷ []
              else [])))
          (Both rule lo hi)
  both_lem rule lo hi =
      let (lo_pairs, el, hl) = collect_pairs_lem lo in
      let (hi_pairs, eh, hh) = collect_pairs_lem hi in
      Derives-bind _ _ _ lo_pairs el (
        Derives-bind _ _ _ hi_pairs eh (
          Derives_iff _
            (λ v. (
              λ ((x, y), m, (m', ev)). (x, y, (hl x y).0 m, (hh x y).0 m', ev),
              λ (x, y, h1, h2, ev). ((x, y), (hl x y).1 h1, ((hh x y).1 h2, ev)),
            ))
            (Derives-each _ _ lo_pairs (λ xy v.
              if_record (contains hi_pairs xy)
                (record_of rule (nt_subject xy.0) (nt_named lo) (nt_term xy.1)) v))))

  shared_pairs_lem :
      (rule : String) (p1 p2 : NamedNode)
      → Derives (shared_pairs db s text rule (p1, p2) a i) (Shared rule p1 p2)
  unfolding shared_pairs Shared
  shared_pairs_lem rule p1 p2 = elim (in_order_lem (λ (p : NamedNode). p) p1 p2) [
    | inl (e, same) ↦
        ([], rw (e, shared_pairs) refl, λ v. (λ m. cc, λ (x, y, ne, h1, h2, ev). absurd (ne same)))
    | inr (lo, hi, e, ne, least, most, inl (el, eh)) ↦
        Derives_iff (shared_pairs db s text rule (p1, p2) a i) {P = Both rule lo hi}
          (λ v. (
            λ (x, y, h1, h2, ev). (
              x,
              y,
              ne,
              subst (λ p. In db law s a i x p y) el h1,
              subst (λ p. In db law s a i x p y) eh h2,
              ev ∙ ap (λ p. record_of rule (nt_subject x) (nt_named p) (nt_term y)) least,
            ),
            λ (x, y, ne', h1, h2, ev). (
              x,
              y,
              subst (λ p. In db law s a i x p y) (sym el) h1,
              subst (λ p. In db law s a i x p y) (sym eh) h2,
              ev ∙ ap (λ p. record_of rule (nt_subject x) (nt_named p) (nt_term y)) (sym least),
            ),
          ))
          (rw (e, shared_pairs) (both_lem rule lo hi))
    | inr (lo, hi, e, ne, least, most, inr (el, eh)) ↦
        Derives_iff (shared_pairs db s text rule (p1, p2) a i) {P = Both rule lo hi}
          (λ v. (
            λ (x, y, h1, h2, ev). (
              x,
              y,
              ne,
              subst (λ p. In db law s a i x p y) eh h2,
              subst (λ p. In db law s a i x p y) el h1,
              ev ∙ ap (λ p. record_of rule (nt_subject x) (nt_named p) (nt_term y)) least,
            ),
            λ (x, y, ne', h1, h2, ev). (
              x,
              y,
              subst (λ p. In db law s a i x p y) (sym el) h2,
              subst (λ p. In db law s a i x p y) (sym eh) h1,
              ev ∙ ap (λ p. record_of rule (nt_subject x) (nt_named p) (nt_term y)) (sym least),
            ),
          ))
          (rw (e, shared_pairs) (both_lem rule lo hi))
  ]

  -- detect_prp_pdw returns, without an error, exactly the records of pairs `x`, `y` with `x p1 y` and
  -- `x p2 y` in the premise graphs, for different IRIs `p1` and `p2` that are declared disjoint there;
  -- the record names the smaller of the two.
  pub detect_prp_pdw_lem : Derives (detect_prp_pdw db s text a i) (λ v.
      (p1 p2 : NamedNode) × (x : Subject) × (y : Term) × In db law s a i
        (named_node p1)
        owl_property_disjoint_with
        (named_node_term p2)
      × (p1 ≢ p2)
      × In db law s a i x p1 y
      × In db law s a i x p2 y
      × (v ≡ record_of "prp-pdw" (nt_subject x) (nt_named (smaller p1 p2)) (nt_term y)))
  unfolding detect_prp_pdw Shared
  detect_prp_pdw_lem =
      let (pairs, e, h) = pairs_for_predicate_lem db law s a i owl_property_disjoint_with in
      Derives-bind _ _ _ pairs e (
        Derives-sorted _ _ (
          Derives_iff _
            (λ v. (
              λ ((p1, p2), m, (x, y, ne, h1, h2, ev)).
                  (p1, p2, x, y, sym (h _ _) ∙ (named_pair_lem pairs p1 p2).0 m, ne, h1, h2, ev),
              λ (p1, p2, x, y, hp, ne, h1, h2, ev).
                  ((p1, p2), (named_pair_lem pairs p1 p2).1 (h _ _ ∙ hp), (x, y, ne, h1, h2, ev)),
            ))
            (Derives-each_ok (λ pp. shared_pairs db s text "prp-pdw" pp a i)
              (λ pp. Shared "prp-pdw" pp.0 pp.1) (each pairs named_pair)
              (λ pp. shared_pairs_lem "prp-pdw" pp.0 pp.1))))

  -- what detect_prp_asyp pushes for one pair of the property
  Mutual : NamedNode → HashSet (Subject × Term) → Subject × Term → ViolationRecord → Type 0
  Mutual p pairs xy v =
      (y : Subject) × (xy.1 ≡ subj_to_term y)
      × (subj_to_term xy.0 ≢ subj_to_term y)
      × (contains pairs (y, subj_to_term xy.0) ≡ true)
      × (text_lt (nt_subject xy.0) (nt_term (subj_to_term y)) ≡ true)
      × (v ≡ record_of "prp-asyp" (nt_subject xy.0) (nt_named p) (nt_term (subj_to_term y)))

  -- the body under the coercion
  abbrev guarded :
      NamedNode → HashSet (Subject × Term) → Subject → Term → Subject → List ViolationRecord
  guarded p pairs x t y =
      if subj_to_term x == t
      then []
      else if contains pairs (y, subj_to_term x)
      then (if text_lt (nt_subject x) (nt_term t)
          then record_of "prp-asyp" (nt_subject x) (nt_named p) (nt_term t) ∷ []
          else [])
      else []

  differs : (x : Subject) (t : Term) → subj_to_term x ≢ t → (subj_to_term x == t) ≡ false
  differs x t ne = elim (Bool-cases (subj_to_term x == t)) [
    | inl same ↦ absurd (ne ((term_eq.beq_iff (subj_to_term x) t).0 same))
    | inr other ↦ other
  ]

  asymmetric_violation_lem :
      (p : NamedNode) (pairs : HashSet (Subject × Term)) (xy : Subject × Term) (v : ViolationRecord)
      → (contains (asymmetric_violation db s text p pairs xy) v ≡ true) ↔ Mutual p pairs xy v
  unfolding asymmetric_violation Mutual
  asymmetric_violation_lem p pairs (x, t) v = (
    λ m.
        let (y, ey, my) = (if_some_lem (term_to_subj t) (guarded p pairs x t) v).0 m in
        let et = (term_to_subj_iff t y).0 ey in
        let (other, back, less, ev) = (three_tests (subj_to_term x == t) _ _ _ v).0 my in
        (
          y,
          et,
          λ same. cc ((term_eq.beq_iff (subj_to_term x) t).1 (same ∙ sym et), other),
          back,
          subst (λ w. text_lt (nt_subject x) (nt_term w) ≡ true) et less,
          ev ∙ ap (λ w. record_of "prp-asyp" (nt_subject x) (nt_named p) (nt_term w)) et,
        ),
    λ (y, et, ne, back, less, ev). (if_some_lem (term_to_subj t) (guarded p pairs x t) v).1 (
      y,
      (term_to_subj_iff t y).1 et,
      (three_tests (subj_to_term x == t) _ _ _ v).1 (
        differs x t (λ same. ne (same ∙ et)),
        back,
        subst (λ w. text_lt (nt_subject x) (nt_term w) ≡ true) (sym et) less,
        ev ∙ ap (λ w. record_of "prp-asyp" (nt_subject x) (nt_named p) (nt_term w)) (sym et),
      ),
    ),
  )

  -- what one asymmetric property contributes
  Asymmetric : NamedNode → ViolationRecord → Type 0
  Asymmetric p v =
      (x : Subject) × (t : Term) × In db law s a i x p t
      × ((y : Subject) × (t ≡ subj_to_term y)
          × (subj_to_term x ≢ subj_to_term y)
          × In db law s a i y p (subj_to_term x)
          × (text_lt (nt_subject x) (nt_term (subj_to_term y)) ≡ true)
          × (v ≡ record_of "prp-asyp" (nt_subject x) (nt_named p) (nt_term (subj_to_term y))))

  asymmetric_lem :
      (p : NamedNode)
      → Derives
          (collect_pairs db s p a i >>= λ pairs.
            ok (each pairs (asymmetric_violation db s text p pairs)))
          (Asymmetric p)
  unfolding Mutual Asymmetric
  asymmetric_lem p =
      let (pairs, e, h) = collect_pairs_lem p in
      Derives-bind _ _ _ pairs e (
        Derives_iff _
          (λ v. (
            λ ((x, t), m, (y, et, ne, back, less, ev)).
                (x, t, (h x t).0 m, (y, et, ne, (h y (subj_to_term x)).0 back, less, ev)),
            λ (x, t, hx, (y, et, ne, hy, less, ev)).
                ((x, t), (h x t).1 hx, (y, et, ne, (h y (subj_to_term x)).1 hy, less, ev)),
          ))
          (Derives-each (asymmetric_violation db s text p pairs) (Mutual p pairs) pairs
            (asymmetric_violation_lem p pairs)))

  -- detect_prp_asyp returns, without an error, exactly the records of `x`, `y` with `x p y` and `y p x` in
  -- the premise graphs, for a property `p` that is declared asymmetric there and different nodes of
  -- which `x` has the smaller text.
  pub detect_prp_asyp_lem : Derives (detect_prp_asyp db s text a i) (λ v.
      (p : NamedNode) × (x y : Subject) × In db law s a i
        (named_node p)
        rdf_type
        (named_node_term owl_asymmetric_property)
      × In db law s a i x p (subj_to_term y)
      × In db law s a i y p (subj_to_term x)
      × (subj_to_term x ≢ subj_to_term y)
      × (text_lt (nt_subject x) (nt_term (subj_to_term y)) ≡ true)
      × (v ≡ record_of "prp-asyp" (nt_subject x) (nt_named p) (nt_term (subj_to_term y))))
  unfolding detect_prp_asyp Asymmetric
  detect_prp_asyp_lem =
      let (props, e, h) = instances_of_lem db law s a i owl_asymmetric_property in
      Derives-bind _ _ _ props e (
        Derives-sorted _ _ (
          Derives_iff _
            (λ v. (
              λ (p, m, (x, t, hx, (y, et, ne, hy, less, ev))). (
                p,
                x,
                y,
                sym (h _) ∙ (named_lem props p).0 m,
                subst (In db law s a i x p) et hx,
                hy,
                ne,
                less,
                ev,
              ),
              λ (p, x, y, hp, hx, hy, ne, less, ev). (
                p,
                (named_lem props p).1 (h _ ∙ hp),
                (x, subj_to_term y, hx, (y, refl, ne, hy, less, ev)),
              ),
            ))
            (Derives-each_ok _ Asymmetric (each props named) asymmetric_lem)))
