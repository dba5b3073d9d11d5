-- ===== src/Owl/Inconsistency/Found.antt =====
-- What the detectors of src/functions/rdf_owl_rl/inconsistency.rs report, on a store that is a set of
-- quads.
use sqlite_sparql.Prelude.{
  List, [], ◌≡◌, ◌≢◌, ◌↔◌, ◌∙◌, refl, sym, ap, subst, inl, inr, String, true, none, ok, ◌==◌,
  string_eq, pair_eq, contains, Derives, Derives-bind, Derives-each, Derives-each_ok, Derives_iff,
  each, group, HashSet,
}
use sqlite_sparql.Rdf.{
  NamedNode, Subject, named_node, Term, named_node_term, blank_node_term, triple_term, literal,
  Literal, GraphName,
}
use sqlite_sparql.Rdf.Equality.{subject_eq, term_eq, quad_eq, graph_name_eq}
use sqlite_sparql.Rdf.Coercions.{subj_to_term}
use sqlite_sparql.Oxigraph.{QuadStore, IsQuadSet}
use sqlite_sparql.Graphs.{rdf_type, pairs_for_predicate}
use sqlite_sparql.Graphs.Holds.{In}
use sqlite_sparql.Graphs.Collected.{pairs_for_predicate_lem, instances_of_lem, all_quads_lem}
use sqlite_sparql.Owl.Vocabulary.{owl_irreflexive_property}
use sqlite_sparql.Owl.Rules.{named}
use sqlite_sparql.Owl.Rules.Readings.{named_lem}
use sqlite_sparql.Owl.Rules.Pushed.{pushed}
use sqlite_sparql.Owl.Inconsistency.{
  ViolationRecord, record_of, violation_eq, Display, nt_named, in_order,
  type_pairs_index_by_subject,
}
use sqlite_sparql.Owl.Inconsistency.Properties.{detect_prp_irp, irreflexive_violation}
use sqlite_sparql.Owl.Inconsistency.Classes.{detect_pairs, typed_as_both}
use sqlite_sparql.Owl.Inconsistency.Datatypes.{
  detect_dt_not_type, datatype_violation, literal_violates_datatype,
}
use sqlite_sparql.Owl.Inconsistency.Reported.{
  Derives-sorted, if_record, smaller, in_order_lem, typed_as_both_lem,
}

module _ (db : QuadStore) (law : IsQuadSet db) (s : db.Store) (text : Display)
    (a i : GraphName) where
  open text use {nt_subject, nt_term}

  typed_as_none :
      (rule : String) (types : List (Subject × Term))
      → typed_as_both db s text rule (group types) none ≡ []
  unfolding typed_as_both
  typed_as_none rule types = refl

  -- a pair of classes in the loop of detect_pairs
  typed_pair_lem :
      (rule : String) (types : List (Subject × Term)) (c1 c2 : Term) (w : ViolationRecord)
      → (contains (typed_as_both db s text rule (group types) (in_order nt_term c1 c2)) w ≡ true)
        ↔ ((x : Subject) × (nt_term c1 ≢ nt_term c2)
            × (contains types (x, c1) ≡ true)
            × (contains types (x, c2) ≡ true)
            × (w
                ≡ record_of rule
                    (nt_subject x)
                    (nt_named rdf_type)
                    (smaller (nt_term c1) (nt_term c2))))
  typed_pair_lem rule types c1 c2 w = elim (in_order_lem nt_term c1 c2) [
    | inl (e, same) ↦
        rw e (λ h. cc (typed_as_none rule types, h), λ (x, ne, m1, m2, ew). absurd (ne same))
    | inr (lo, hi, e, ne, least, most, inl (el, eh)) ↦ rw e (
      λ h.
          let (x, m1, m2, ew) = (typed_as_both_lem db s text rule types lo hi w).0 h in
          (
            x,
            ne,
            subst (λ t. contains types (x, t) ≡ true) el m1,
            subst (λ t. contains types (x, t) ≡ true) eh m2,
            ew ∙ ap (record_of rule (nt_subject x) (nt_named rdf_type)) least,
          ),
      λ (x, ne', m1, m2, ew). (typed_as_both_lem db s text rule types lo hi w).1 (
        x,
        subst (λ t. contains types (x, t) ≡ true) (sym el) m1,
        subst (λ t. contains types (x, t) ≡ true) (sym eh) m2,
        ew ∙ ap (record_of rule (nt_subject x) (nt_named rdf_type)) (sym least),
      ),
    )
    | inr (lo, hi, e, ne, least, most, inr (el, eh)) ↦ rw e (
      λ h.
          let (x, m1, m2, ew) = (typed_as_both_lem db s text rule types lo hi w).0 h in
          (
            x,
            ne,
            subst (λ t. contains types (x, t) ≡ true) eh m2,
            subst (λ t. contains types (x, t) ≡ true) el m1,
            ew ∙ ap (record_of rule (nt_subject x) (nt_named rdf_type)) least,
          ),
      λ (x, ne', m1, m2, ew). (typed_as_both_lem db s text rule types lo hi w).1 (
        x,
        subst (λ t. contains types (x, t) ≡ true) (sym el) m2,
        subst (λ t. contains types (x, t) ≡ true) (sym eh) m1,
        ew ∙ ap (record_of rule (nt_subject x) (nt_named rdf_type)) (sym least),
      ),
    )
  ]

  type_index :
      (types : HashSet (Subject × Term))
      → pairs_for_predicate db s rdf_type a i ≡ ok types
      → type_pairs_index_by_subject db s a i ≡ ok (group types)
  unfolding type_pairs_index_by_subject
  type_index types e = rw e refl

  -- detect_pairs, which is cax-dw on owl:disjointWith and cls-com on owl:complementOf, returns, without
  -- an error, exactly the records of nodes that have both classes of a pair as their types, for pairs
  -- `c1 predicate c2` of the premise graphs whose texts differ; the record names the class with the
  -- smaller text.
  pub detect_pairs_lem :
      (rule : String) (predicate : NamedNode)
      → Derives (detect_pairs db s text rule predicate a i) (λ v.
        (c1 : Subject) × (c2 : Term) × (x : Subject) × In db law s a i c1 predicate c2
        × (nt_term (subj_to_term c1) ≢ nt_term c2)
        × In db law s a i x rdf_type (subj_to_term c1)
        × In db law s a i x rdf_type c2
        × (v
            ≡ record_of rule
                (nt_subject x)
                (nt_named rdf_type)
                (smaller (nt_term (subj_to_term c1)) (nt_term c2))))
  unfolding detect_pairs
  detect_pairs_lem rule predicate =
      let (pairs, e, h) = pairs_for_predicate_lem db law s a i predicate in
      let (types, et, ht) = pairs_for_predicate_lem db law s a i rdf_type in
      Derives-bind _ _ _ pairs e (
        Derives-bind (type_pairs_index_by_subject db s a i) _ _ (group types) (type_index types et)
          (Derives-sorted _ _ (
            Derives_iff _
              (λ v. (
                λ ((c1, c2), m, (x, ne, m1, m2, ev)). (
                  c1,
                  c2,
                  x,
                  sym (h c1 c2) ∙ m,
                  ne,
                  sym (ht x (subj_to_term c1)) ∙ m1,
                  sym (ht x c2) ∙ m2,
                  ev,
                ),
                λ (c1, c2, x, hc, ne, m1, m2, ev). (
                  (c1, c2),
                  h c1 c2 ∙ hc,
                  (x, ne, ht x (subj_to_term c1) ∙ m1, ht x c2 ∙ m2, ev),
                ),
              ))
              (Derives-each _ _ pairs
                (λ cc' w. typed_pair_lem rule types (subj_to_term cc'.0) cc'.1 w)))))

  -- detect_prp_irp returns, without an error, exactly the records of triples `x p x` of the premise
  -- graphs for a property `p` that is declared irreflexive.
  pub detect_prp_irp_lem : Derives (detect_prp_irp db s text a i) (λ v.
      (p : NamedNode) × (x : Subject) × In db law s a i
        (named_node p)
        rdf_type
        (named_node_term owl_irreflexive_property)
      × In db law s a i x p (subj_to_term x)
      × (v ≡ record_of "prp-irp" (nt_subject x) (nt_named p) (nt_term (subj_to_term x))))
  unfolding detect_prp_irp irreflexive_violation
  detect_prp_irp_lem =
      let (props, e, h) = instances_of_lem db law s a i owl_irreflexive_property in
      Derives-bind _ _ _ props e (
        Derives-sorted _ _ (
          Derives_iff _
            (λ v. (
              λ (p, m, (x, y, hx, mv)).
                  let (same, ev) = (if_record (subj_to_term x == y) _ v).0 mv in
                  let ey = (term_eq.beq_iff (subj_to_term x) y).0 same in
                  (
                    p,
                    x,
                    sym (h _) ∙ (named_lem props p).0 m,
                    subst (In db law s a i x p) (sym ey) hx,
                    ev
                        ∙ ap (λ t. record_of "prp-irp" (nt_subject x) (nt_named p) (nt_term t))
                            (sym ey),
                  ),
              λ (p, x, hp, hx, ev). (
                p,
                (named_lem props p).1 (h _ ∙ hp),
                (
                  x,
                  subj_to_term x,
                  hx,
                  (if_record (subj_to_term x == subj_to_term x) _ v).1
                      ((term_eq.beq_iff (subj_to_term x) (subj_to_term x)).1 refl, ev),
                ),
              ),
            ))
            (Derives-each_ok _ _ (each props named)
              (λ p. pushed (irreflexive_violation db s text p) db law s p a i))))

  -- the object is a literal that is refused, and this is its record
  Refused : Subject × (NamedNode × Term) → ViolationRecord → Type 0
  Refused t v =
      (l : Literal) × (t.1.1 ≡ literal l)
      × (literal_violates_datatype l ≡ true)
      × (v ≡ record_of "dt-not-type" (nt_subject t.0) (nt_named t.1.0) (nt_term (literal l)))

  datatype_violation_lem :
      (t : Subject × (NamedNode × Term)) (v : ViolationRecord)
      → (contains (datatype_violation db s text t) v ≡ true) ↔ Refused t v
  unfolding datatype_violation Refused
  datatype_violation_lem (x, (p, literal l)) v = (
    λ m. let (bad, ev) = (if_record (literal_violates_datatype l) _ v).0 m in (l, refl, bad, ev),
    λ (k, e, bad, ev).
        let same : k ≡ l = cc e in
        (if_record (literal_violates_datatype l) _ v).1 (
          subst (λ j. literal_violates_datatype j ≡ true) same bad,
          ev
              ∙ ap (λ j. record_of "dt-not-type" (nt_subject x) (nt_named p) (nt_term (literal j)))
                  same,
        ),
  )
  datatype_violation_lem (x, (p, named_node_term n)) v = (λ m. cc, λ (k, e, bad, ev). cc)
  datatype_violation_lem (x, (p, blank_node_term b)) v = (λ m. cc, λ (k, e, bad, ev). cc)
  datatype_violation_lem (x, (p, triple_term u)) v = (λ m. cc, λ (k, e, bad, ev). cc)

  -- detect_dt_not_type returns, without an error, exactly the records of triples of the premise graphs
  -- whose object is a literal that literal_violates_datatype refuses.
  pub detect_dt_not_type_lem : Derives (detect_dt_not_type db s text a i) (λ v.
      (x : Subject) × (p : NamedNode) × (l : Literal) × In db law s a i x p (literal l)
      × (literal_violates_datatype l ≡ true)
      × (v ≡ record_of "dt-not-type" (nt_subject x) (nt_named p) (nt_term (literal l))))
  unfolding detect_dt_not_type Refused
  detect_dt_not_type_lem =
      let (quads, e, h) = all_quads_lem db law s a i in
      Derives-bind _ _ _ quads e (
        Derives-sorted _ _ (
          Derives_iff _
            (λ v. (
              λ ((x, (p, y)), m, (l, ey, bad, ev)).
                  (x, p, l, subst (In db law s a i x p) ey (sym (h x p y) ∙ m), bad, ev),
              λ (x, p, l, hx, bad, ev).
                  ((x, (p, literal l)), h x p (literal l) ∙ hx, (l, refl, bad, ev)),
            ))
            (Derives-each (datatype_violation db s text) Refused quads datatype_violation_lem)))
