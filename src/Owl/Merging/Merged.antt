-- ===== src/Owl/Merging/Merged.antt =====
-- The pairs of a bucket that the rules of src/functions/rdf_owl_rl/rules.rs merge, and what prp-ifp
-- derives.
use sqlite_sparql.Prelude.{
  List, [], ◌∷◌, ◌≡◌, ◌≢◌, ◌↔◌, ◌⊎◌, ◌∙◌, sym, ap, subst, inl, inr, true, Bool-cases, map, contains,
  contains-append, contains-map_elim, contains-map_intro, each, each_elim, each_intro, Eq, ◌==◌,
  arith, string_eq, pair_eq,
}
use sqlite_sparql.Rdf.{Subject, Triple, mk_triple}
use sqlite_sparql.Rdf.Equality.{subject_eq, term_eq, triple_eq}
use sqlite_sparql.Rdf.Coercions.{subj_to_term}
use sqlite_sparql.Owl.Vocabulary.{owl_same_as}
use sqlite_sparql.Owl.Inconsistency.{pairwise}
use sqlite_sparql.Owl.Merging.{same_subjects}

module _ {A : Type 0} ⦃e : Eq A⦄ where
  -- both components of a pair are members
  pairwise_elim :
      (xs : List A) (x y : A)
      → contains (pairwise xs) (x, y) ≡ true
      → (contains xs x ≡ true) × (contains xs y ≡ true)
  pairwise_elim [] x y h = cc
  pairwise_elim (z ∷ xs) x y h =
      let heads : List (A × A) = map (λ w. (z, w)) xs in
      let split = contains-append heads (pairwise xs) (x, y) in
      elim (Bool-cases (contains heads (x, y))) [
        | inl now ↦
            let (w, mw, ew) = contains-map_elim (λ w. (z, w)) xs (x, y) now in
            let ex : z ≡ x = ap (λ (p : A × A). p.0) ew in
            let ey : w ≡ y = ap (λ (p : A × A). p.1) ew in
            (
              ground (arith, (e.beq_iff z x).1 ex),
              let my = subst (λ v. contains xs v ≡ true) ey mw in ground arith,
            )
        | inr later ↦
            let (mx, my) = pairwise_elim xs x y (ground (arith, split)) in
            (ground arith, ground arith)
      ]

  -- two different members are a pair, in one order or the other
  pairwise_intro :
      (xs : List A) (x y : A)
      → contains xs x ≡ true
      → contains xs y ≡ true
      → x ≢ y
      → (contains (pairwise xs) (x, y) ≡ true) ⊎ (contains (pairwise xs) (y, x) ≡ true)
  pairwise_intro [] x y mx my ne = cc
  pairwise_intro (z ∷ xs) x y mx my ne =
      let heads : List (A × A) = map (λ w. (z, w)) xs in
      let split = contains-append heads (pairwise xs) in
      elim (Bool-cases (z == x)) [
        | inl is_x ↦ elim (Bool-cases (z == y)) [
          | inl is_y ↦ elim (ne (sym ((e.beq_iff z x).0 is_x) ∙ (e.beq_iff z y).0 is_y)) [ ]
          | inr other ↦
              let here : contains heads (x, y) ≡ true =
                subst (λ v. contains heads (v, y) ≡ true) ((e.beq_iff z x).0 is_x)
                  (contains-map_intro (λ w. (z, w)) xs y (ground arith)) in
              inl (ground (arith, split (x, y), here))
        ]
        | inr not_x ↦ elim (Bool-cases (z == y)) [
          | inl is_y ↦
              let here : contains heads (y, x) ≡ true =
                subst (λ v. contains heads (v, x) ≡ true) ((e.beq_iff z y).0 is_y)
                  (contains-map_intro (λ w. (z, w)) xs x (ground arith)) in
              inr (ground (arith, split (y, x), here))
          | inr not_y ↦ elim (pairwise_intro xs x y (ground arith) (ground arith) ne) [
            | inl m ↦ inl (ground (arith, split (x, y), m))
            | inr m ↦ inr (ground (arith, split (y, x), m))
          ]
        ]
      ]

same_subjects_lem :
    (x y : Subject) (t : Triple)
    → (contains (same_subjects (x, y)) t ≡ true) ↔ (
        (x ≢ y)
        × ((t ≡ mk_triple x owl_same_as (subj_to_term y))
            ⊎ (t ≡ mk_triple y owl_same_as (subj_to_term x))))
unfolding same_subjects
same_subjects_lem x y t =
    let one = triple_eq.beq_iff (mk_triple x owl_same_as (subj_to_term y)) t in
    let two = triple_eq.beq_iff (mk_triple y owl_same_as (subj_to_term x)) t in
    elim (Bool-cases (x == y)) [
      | inl same ↦ rw same (λ m. cc, λ w. elim (w.0 ((subject_eq.beq_iff x y).0 same)) [ ])
      | inr other ↦ rw other (
        λ m. (
          λ eq. cc ((subject_eq.beq_iff x y).1 eq, other),
          elim (Bool-cases (mk_triple x owl_same_as (subj_to_term y) == t)) [
            | inl first ↦ inl (sym (one.0 first))
            | inr absent ↦ inr (sym (two.0 (ground (arith, m, absent))))
          ],
        ),
        λ (ne, either). elim either [
          | inl et ↦ let hit = one.1 (sym et) in ground (arith, hit)
          | inr et ↦ let hit = two.1 (sym et) in ground (arith, hit)
        ],
      )
    ]

-- Of the nodes of a bucket, every two that differ are merged, in both directions.
pub merged_lem :
    (bucket : List Subject) (t : Triple)
    → (contains (each (pairwise bucket) same_subjects) t ≡ true) ↔ (
        (x y : Subject) × (contains bucket x ≡ true)
        × (contains bucket y ≡ true)
        × (x ≢ y)
        × (t ≡ mk_triple x owl_same_as (subj_to_term y)))
merged_lem bucket t = (
  λ m.
      let ((x, y), mp, mt) = each_elim same_subjects (pairwise bucket) t m in
      let (mx, my) = pairwise_elim bucket x y mp in
      let (ne, either) = (same_subjects_lem x y t).0 mt in
      elim either [
        | inl et ↦ (x, y, mx, my, ne, et)
        | inr et ↦ (y, x, my, mx, λ eq. ne (sym eq), et)
      ],
  λ (x, y, mx, my, ne, et). elim (pairwise_intro bucket x y mx my ne) [
    | inl mp ↦
        each_intro same_subjects (pairwise bucket) (x, y) t mp
          ((same_subjects_lem x y t).1 (ne, inl et))
    | inr mp ↦
        each_intro same_subjects (pairwise bucket) (y, x) t mp
          ((same_subjects_lem y x t).1 (λ eq. ne (sym eq), inr et))
  ],
)
