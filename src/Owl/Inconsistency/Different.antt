-- ===== src/Owl/Inconsistency/Different.antt =====
-- What the detector eq-diff1 of src/functions/rdf_owl_rl/inconsistency.rs reports.
use sqlite_sparql.Prelude.{
  List, [], ◌∷◌, ◌≡◌, ◌≢◌, ◌↔◌, ◌⊎◌, ◌∙◌, ◌&&◌, ◌||◌, refl, sym, ap, inl, inr, arith, String, Bool,
  true, false, Bool-cases, ◌==◌, string_eq, pair_eq, contains, Derives, Derives-bind, Derives-each,
  Derives_iff, if◌then◌else◌, HashSet, insert, contains-insert,
}
use sqlite_sparql.Rdf.{Subject, Term, GraphName}
use sqlite_sparql.Rdf.Equality.{subject_eq, term_eq, quad_eq, graph_name_eq}
use sqlite_sparql.Oxigraph.{QuadStore, IsQuadSet}
use sqlite_sparql.Graphs.{graphs_to_query}
use sqlite_sparql.Graphs.Holds.{In, holds}
use sqlite_sparql.Graphs.Collected.{pairs_for_predicate_lem}
use sqlite_sparql.Owl.Vocabulary.{owl_different_from, owl_same_as}
use sqlite_sparql.Owl.Inconsistency.{ViolationRecord, record_of, violation_eq, Display, nt_named}
use sqlite_sparql.Owl.Inconsistency.Individuals.{detect_eq_diff1, same_texts, same_violation}
use sqlite_sparql.Owl.Inconsistency.Reported.{Derives-sorted, smaller, larger, in_order_lem}

module _ (text : Display) where
  open text use {nt_subject, nt_term}

  -- the texts of the triples, among those collected
  same_texts_lem :
      (pairs : List (Subject × Term)) (set : HashSet (String × String)) (b c : String)
      → (contains (same_texts text set pairs) (b, c) ≡ true) ↔ (
          (contains set (b, c) ≡ true)
          ⊎ ((x : Subject) × (y : Term) × (contains pairs (x, y) ≡ true)
              × (nt_subject x ≡ b)
              × (nt_term y ≡ c)))
  unfolding same_texts
  same_texts_lem [] set b c = (λ m. inl m, λ h. elim h [ inl m ↦ m | inr (x, y, m, eb, ec) ↦ cc m ])
  same_texts_lem ((u, t) ∷ pairs) set b c =
      let rest = same_texts_lem pairs (insert set (nt_subject u, nt_term t)) b c in
      let grown = contains-insert set (nt_subject u, nt_term t) (b, c) in
      (
        λ m. elim (rest.0 m) [
          | inr (x, y, mx, eb, ec) ↦ inr (x, y, ground arith, eb, ec)
          | inl old ↦ elim (Bool-cases (nt_subject u == b && nt_term t == c)) [
            | inl same ↦ inr (
              u,
              t,
              ground (arith, subject_eq.beq_iff u u, term_eq.beq_iff t t),
              (string_eq.beq_iff (nt_subject u) b).0 (ground arith),
              (string_eq.beq_iff (nt_term t) c).0 (ground arith),
            )
            | inr other ↦ inl (ground (arith, grown))
          ]
        ],
        λ h. rest.1 (elim h [
          | inl old ↦ inl (ground (arith, grown))
          | inr (x, y, mx, eb, ec) ↦ elim (Bool-cases (u == x && t == y)) [
            | inl same ↦
                let ex = (subject_eq.beq_iff u x).0 (ground arith) in
                let ey = (term_eq.beq_iff t y).0 (ground arith) in
                let hb = (string_eq.beq_iff (nt_subject u) b).1 (ap nt_subject ex ∙ eb) in
                let hc = (string_eq.beq_iff (nt_term t) c).1 (ap nt_term ey ∙ ec) in
                inl (ground (arith, grown, hb, hc))
            | inr other ↦ inr (x, y, ground arith, eb, ec)
          ]
        ]),
      )

if_list :
    (c : Bool) (vs : List ViolationRecord) (v : ViolationRecord)
    → (contains (if c then vs else []) v ≡ true) ↔ ((c ≡ true) × (contains vs v ≡ true))
if_list true vs v = (λ m. (refl, m), λ (e, m). m)
if_list false vs v = (λ m. cc, λ (e, m). cc)

same_violation_lem :
    (rule b c : String) (v : ViolationRecord)
    → (contains (same_violation rule b c) v ≡ true)
      ↔ ((b ≢ c) × (v ≡ record_of rule (smaller b c) (nt_named owl_same_as) (larger b c)))
unfolding same_violation
same_violation_lem rule b c v = elim (in_order_lem (λ (w : String). w) b c) [
  | inl (e, same) ↦ rw (e, same_violation) (λ m. cc, λ (ne, ev). absurd (ne same))
  | inr (lo, hi, e, ne, least, most, which) ↦
      rw (e, same_violation)
        (
          λ m. (
            ne,
            sym (
                  (violation_eq.beq_iff (record_of rule lo (nt_named owl_same_as) hi) v).0
                    (ground arith))
                ∙ ap (λ w. record_of rule w (nt_named owl_same_as) hi) least
                ∙ ap (λ w. record_of rule (smaller b c) (nt_named owl_same_as) w) most,
          ),
          λ (ne', ev). ground (
            arith,
            (violation_eq.beq_iff (record_of rule lo (nt_named owl_same_as) hi) v).1 (
                ap (λ w. record_of rule w (nt_named owl_same_as) hi) least
                ∙ ap (λ w. record_of rule (smaller b c) (nt_named owl_same_as) w) most
                ∙ sym ev),
          ),
        )
]

module _ (db : QuadStore) (law : IsQuadSet db) (s : db.Store) (text : Display)
    (a i : GraphName) where
  open text use {nt_subject, nt_term}

  -- some triple of owl:sameAs has these two texts
  abbrev pub SaysSame : String → String → Type 0
  SaysSame b c =
      (x : Subject) × (y : Term) × In db law s a i x owl_same_as y
      × (nt_subject x ≡ b)
      × (nt_term y ≡ c)

  Different : Subject × Term → ViolationRecord → Type 0
  Different xy v =
      (SaysSame (nt_subject xy.0) (nt_term xy.1) ⊎ SaysSame (nt_term xy.1) (nt_subject xy.0))
      × (nt_subject xy.0 ≢ nt_term xy.1)
      × (v
          ≡ record_of "eq-diff1" (smaller (nt_subject xy.0) (nt_term xy.1)) (nt_named owl_same_as)
              (larger (nt_subject xy.0) (nt_term xy.1)))

  module _ (sames : HashSet (Subject × Term))
      (read : (x : Subject) (y : Term)
        → contains sames (x, y)
          ≡ holds (law.contents s) (graphs_to_query a i) x owl_same_as y) where
    says_lem : (b c : String) → (contains (same_texts text [] sames) (b, c) ≡ true) ↔ SaysSame b c
    says_lem b c = (
      λ m. elim ((same_texts_lem text sames [] b c).0 m) [
        | inl nothing ↦ cc nothing
        | inr (x, y, mx, eb, ec) ↦ (x, y, sym (read x y) ∙ mx, eb, ec)
      ],
      λ (x, y, hx, eb, ec).
          (same_texts_lem text sames [] b c).1 (inr (x, y, read x y ∙ hx, eb, ec)),
    )

    either_lem :
        (b c : String)
        → ((contains (same_texts text [] sames) (b, c)
              || contains (same_texts text [] sames) (c, b))
            ≡ true)
          ↔ (SaysSame b c ⊎ SaysSame c b)
    either_lem b c = (
      λ m. elim (Bool-cases (contains (same_texts text [] sames) (b, c))) [
        | inl direct ↦ inl ((says_lem b c).0 direct)
        | inr other ↦ inr ((says_lem c b).0 (ground arith))
      ],
      λ h. elim h [
        | inl direct ↦ ground (arith, (says_lem b c).1 direct)
        | inr back ↦ ground (arith, (says_lem c b).1 back)
      ],
    )

    different_lem :
        (xy : Subject × Term) (v : ViolationRecord)
        → (contains
              (if contains (same_texts text [] sames) (nt_subject xy.0, nt_term xy.1)
                  || contains (same_texts text [] sames) (nt_term xy.1, nt_subject xy.0)
                then same_violation "eq-diff1" (nt_subject xy.0) (nt_term xy.1)
                else [])
              v
            ≡ true)
          ↔ Different xy v
    unfolding Different
    different_lem xy v =
        let b = nt_subject xy.0 in
        let c = nt_term xy.1 in
        (
          λ m.
              let (says, mv) = (if_list _ (same_violation "eq-diff1" b c) v).0 m in
              let (ne, ev) = (same_violation_lem "eq-diff1" b c v).0 mv in
              ((either_lem b c).0 says, ne, ev),
          λ (says, ne, ev).
              (if_list _ (same_violation "eq-diff1" b c) v).1
                ((either_lem b c).1 says, (same_violation_lem "eq-diff1" b c v).1 (ne, ev)),
        )

  -- detect_eq_diff1 returns, without an error, exactly the records of triples `x owl:differentFrom y` of
  -- the premise graphs whose texts differ and are, in one direction or the other, the texts of a triple
  -- of owl:sameAs there; the record has the smaller text first.
  pub detect_eq_diff1_lem : Derives (detect_eq_diff1 db s text a i) (λ v.
      (x : Subject) × (y : Term) × In db law s a i x owl_different_from y
      × (SaysSame (nt_subject x) (nt_term y) ⊎ SaysSame (nt_term y) (nt_subject x))
      × (nt_subject x ≢ nt_term y)
      × (v
          ≡ record_of "eq-diff1"
              (smaller (nt_subject x) (nt_term y))
              (nt_named owl_same_as)
              (larger (nt_subject x) (nt_term y))))
  unfolding detect_eq_diff1 Different
  detect_eq_diff1_lem =
      let (diffs, ed, hd) = pairs_for_predicate_lem db law s a i owl_different_from in
      let (sames, es, hs) = pairs_for_predicate_lem db law s a i owl_same_as in
      Derives-bind _ _ _ diffs ed (
        Derives-bind _ _ _ sames es (
          Derives-sorted _ _ (
            Derives_iff _
              (λ v. (
                λ ((x, y), m, (which, ne, ev)). (x, y, sym (hd x y) ∙ m, which, ne, ev),
                λ (x, y, hx, which, ne, ev). ((x, y), hd x y ∙ hx, (which, ne, ev)),
              ))
              (Derives-each _ Different diffs (λ xy v. different_lem sames hs xy v)))))
