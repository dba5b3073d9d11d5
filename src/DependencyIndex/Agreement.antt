-- ===== src/DependencyIndex/Agreement.antt =====
-- The two maps of the index of src/dependency_index.rs say the same, and `record` keeps that.
use mathlib.Core.List.{Memᴰ}
use mathlib.Core.List.Memᴰ
use sqlite_sparql.Prelude.{
  List, [], ◌∷◌, ◌++◌, ◌≡◌, ◌≢◌, ◌⊎◌, ◌↔◌, refl, inl, inr, sym, subst, true, ◌&&◌, some, HashSet,
  HashMap, ◌==◌, any, any-mem, all, ◌≤◌, Within, Bool_ext, all_elim, contains, insert, length,
  length-le_of_Within, IsDistinct, get, put, or_default, get-put, Bool-cases, arith, if◌then◌else◌,
}
use sqlite_sparql.Rdf.{Quad}
use sqlite_sparql.Rdf.Equality.{quad_eq}
use sqlite_sparql.DependencyIndex.{
  Derivation, DependencyIndex, empty_index, same_set, add_reverse, record_derivation,
}
use sqlite_sparql.DependencyIndex.Invariant.{
  supports, Cites, Cites-of_mem, IsWellFormed, supports-add_reverse, empty-IsWellFormed,
  extended-IsWellFormed,
}

-- the derivations that are recorded for a quad
abbrev pub derivations_of : DependencyIndex → Quad → List Derivation
derivations_of idx c = or_default (get idx.derivations c) []

-- no quad is mapped to an empty set
abbrev pub HasNoEmpty : HashMap Quad (HashSet Quad) → Type 0
HasNoEmpty rev = (q : Quad) → get rev q ≢ some []

-- The two maps say the same: a quad is listed as a dependent of another exactly if it has a recorded
-- derivation from that one. Neither map has an empty entry, and a derivation has no quad twice.
pub record Agrees (idx : DependencyIndex) : Type 0 where
  pub linked : (c q : Quad) → Cites idx c q ↔ (supports idx.reverse q c ≡ true)
  pub inhabited : (c : Quad) → get idx.derivations c ≢ some []
  pub occupied : HasNoEmpty idx.reverse
  pub distinct : (c : Quad) (d : Derivation) → Memᴰ d (derivations_of idx c) → IsDistinct d

pub Agrees-IsWellFormed : {idx : DependencyIndex} → Agrees idx → IsWellFormed idx
Agrees-IsWellFormed a = record { covers = λ c q. (a.linked c q).0; inhabited = a.inhabited }

pub empty-Agrees : Agrees empty_index
unfolding get
empty-Agrees = record {
  linked = λ c q. (empty-IsWellFormed.covers c q, λ h. cc);
  inhabited = λ c h. cc;
  occupied = λ q h. cc;
  distinct = λ c d m. absurd (Memᴰ.not-nil m);
}

pub Cites-mem :
    (idx : DependencyIndex) (c q : Quad)
    → Cites idx c q
    → (d : Derivation) × Memᴰ d (derivations_of idx c) × (contains d q ≡ true)
Cites-mem idx c q h = (h.d, rw h.recorded h.one_of, h.premise)

insert-ne-nil : (s : HashSet Quad) (x : Quad) → insert s x ≢ []
unfolding insert
insert-ne-nil [] x h = ground arith
insert-ne-nil (y ∷ s) x h = elim (Bool-cases (contains (y ∷ s) x)) [
  | inl old ↦ let e : y ∷ s ≡ [] = ground (arith, old, h) in cc e
  | inr new ↦ let e : x ∷ y ∷ s ≡ [] = ground (arith, new, h) in cc e
]

add_reverse-HasNoEmpty :
    (rev : HashMap Quad (HashSet Quad)) (x : Quad) (ps : List Quad)
    → HasNoEmpty rev
    → HasNoEmpty (add_reverse rev x ps)
unfolding add_reverse
add_reverse-HasNoEmpty rev x [] full = full
add_reverse-HasNoEmpty rev x (p ∷ ps) full =
    let set = insert (or_default (get rev p) []) x in
    add_reverse-HasNoEmpty (put rev p set) x ps (λ q h.
      ground (arith, get-put rev p q set, full q, h, insert-ne-nil (or_default (get rev p) []) x))

-- Equal sets without repetitions have the same members.
same_set_lem :
    (d e : Derivation)
    → IsDistinct d
    → same_set d e ≡ true
    → (q : Quad) → contains e q ≡ true
    → contains d q ≡ true
unfolding same_set
same_set_lem d e distinct same q m = elim (Bool-cases (contains d q)) [
  | inl there ↦ there
  | inr missing ↦
      let inside : all (contains e) d ≡ true = ground arith in
      let few : length (q ∷ d) ≤ length e =
        length-le_of_Within (q ∷ d) e (missing, distinct)
          (λ a h. elim (Bool-cases (q == a)) [
            | inl same_quad ↦ subst (λ b. contains e b ≡ true) ((quad_eq.beq_iff q a).0 same_quad) m
            | inr other ↦ all_elim (contains e) d a inside (ground arith)
          ]) in
      absurd (ground (arith, few))
]

same_set-Within : (d e : Derivation) → same_set d e ≡ true → Within d e
unfolding same_set
same_set-Within d e same q m = all_elim (contains e) d q (ground arith) m

module _ (idx : DependencyIndex) (inferred : Quad) (premises : Derivation) where
  abbrev extended : DependencyIndex
  extended = record {
    derivations = put idx.derivations inferred (derivations_of idx inferred ++ premises ∷ []);
    reverse = add_reverse idx.reverse inferred premises;
  }

  derivations_of-extended :
      (c : Quad)
      → derivations_of extended c ≡ (
          if inferred == c
          then derivations_of idx inferred ++ premises ∷ []
          else derivations_of idx c)
  derivations_of-extended c =
      ground
        (arith, get-put idx.derivations inferred c (derivations_of idx inferred ++ premises ∷ []))

  kept :
      (c : Quad) (d : Derivation)
      → Memᴰ d (derivations_of idx c)
      → Memᴰ d (derivations_of extended c)
  kept c d m = elim (Bool-cases (inferred == c)) [
    | inl same ↦
        rw (derivations_of-extended c, same)
          (Memᴰ.append_left (premises ∷ []) (
            subst (λ b. Memᴰ d (derivations_of idx b)) (sym ((quad_eq.beq_iff inferred c).0 same))
              m))
    | inr other ↦ rw (derivations_of-extended c, other) m
  ]

  latest : Memᴰ premises (derivations_of extended inferred)
  latest =
      rw (derivations_of-extended inferred, (quad_eq.beq_iff inferred inferred).1 refl)
        (Memᴰ.append_right (derivations_of idx inferred) (Memᴰ.head refl))

  only :
      (c : Quad) (d : Derivation)
      → Memᴰ d (derivations_of extended c)
      → Memᴰ d (derivations_of idx c) ⊎ ((c ≡ inferred) × (d ≡ premises))
  only c d m = elim (Bool-cases (inferred == c)) [
    | inl same ↦
        let e : inferred ≡ c = (quad_eq.beq_iff inferred c).0 same in
        elim (Memᴰ.append_cases (derivations_of idx inferred)
          (rw (derivations_of-extended c, same) at m)) [
            | inl old ↦ inl (subst (λ b. Memᴰ d (derivations_of idx b)) e old)
            | inr new ↦ inr (sym e, Memᴰ.eq_of_singleton new)
          ]
    | inr other ↦ inl (rw (derivations_of-extended c, other) at m)
  ]

  linked-extended :
      Agrees idx → (c q : Quad) → Cites extended c q → supports extended.reverse q c ≡ true
  linked-extended a c q h =
      let (d, m, there) = Cites-mem extended c q h in
      let split = supports-add_reverse idx.reverse inferred premises q c in
      elim (only c d m) [
        | inl old ↦
            let before = (a.linked c q).0 (Cites-of_mem idx c q d old there) in
            ground (arith, split)
        | inr (e, same) ↦
            let hit : (inferred == c) ≡ true = (quad_eq.beq_iff inferred c).1 (sym e) in
            let one_of : contains premises q ≡ true = subst (λ b. contains b q ≡ true) same there in
            ground (arith, split)
      ]

  extended-linked :
      Agrees idx → (c q : Quad) → supports extended.reverse q c ≡ true → Cites extended c q
  extended-linked a c q h = elim (Bool-cases (supports idx.reverse q c)) [
    | inl before ↦
        let (d, m, there) = Cites-mem idx c q ((a.linked c q).1 before) in
        Cites-of_mem extended c q d (kept c d m) there
    | inr unlinked ↦
        let now : (contains premises q && inferred == c) ≡ true =
          ground (arith, supports-add_reverse idx.reverse inferred premises q c) in
        let e : inferred ≡ c = (quad_eq.beq_iff inferred c).0 (ground arith) in
        Cites-of_mem extended c q premises
          (subst (λ b. Memᴰ premises (derivations_of extended b)) e latest) (ground arith)
  ]

  inhabited-extended : Agrees idx → (c : Quad) → get extended.derivations c ≢ some []
  inhabited-extended a =
      (extended-IsWellFormed idx inferred premises (Agrees-IsWellFormed a)).inhabited

  extended-Agrees : Agrees idx → IsDistinct premises → Agrees extended
  extended-Agrees a set = record {
    linked = λ c q. (linked-extended a c q, extended-linked a c q);
    inhabited = inhabited-extended a;
    occupied = add_reverse-HasNoEmpty idx.reverse inferred premises a.occupied;
    distinct = λ c d m. elim (only c d m) [
      | inl old ↦ a.distinct c d old
      | inr (e, same) ↦ subst IsDistinct (sym same) set
    ];
  }

-- On an index whose two maps agree, recording a derivation without repetitions leaves two maps that
-- agree. A derivation with the same premises is then recorded for the quad, every derivation that
-- was recorded still is, and nothing else is recorded.
pub record-Agrees :
    (idx : DependencyIndex) (inferred : Quad) (premises : Derivation)
    → Agrees idx
    → IsDistinct premises
    → let idx' = record_derivation idx inferred premises in
      Agrees idx'
      × ((d : Derivation) × Memᴰ d (derivations_of idx' inferred)
          × ((q : Quad) → contains d q ≡ contains premises q))
      × ((c : Quad) (d : Derivation)
          → Memᴰ d (derivations_of idx c)
          → Memᴰ d (derivations_of idx' c))
      × ((c : Quad) (d : Derivation)
          → Memᴰ d (derivations_of idx' c)
          → Memᴰ d (derivations_of idx c) ⊎ ((c ≡ inferred) × (d ≡ premises)))
unfolding record_derivation
record-Agrees idx inferred premises a set =
    elim (Bool-cases (any (λ d. same_set d premises) (derivations_of idx inferred))) [
      | inl known ↦ rw known (
        a,
        (let (d, m, same) =
              any-mem (λ d. same_set d premises) (derivations_of idx inferred) known in
            (
              d,
              m,
              λ q.
                  Bool_ext (contains d q) (contains premises q) (same_set-Within d premises same q)
                    (same_set_lem d premises (a.distinct inferred d m) same q),
            )),
        λ c d m. m,
        λ c d m. inl m,
      )
      | inr fresh ↦ rw fresh (
        extended-Agrees idx inferred premises a set,
        (premises, latest idx inferred premises, λ q. refl),
        kept idx inferred premises,
        only idx inferred premises,
      )
    ]
