-- ===== src/DependencyIndex/Invariant.antt =====
-- The index of src/dependency_index.rs as the cascade needs it: every premise of a recorded derivation
-- points back to the inferred quad.
use mathlib.Core.List.{Memᴰ}
use mathlib.Core.List.Memᴰ
use sqlite_sparql.Prelude.{
  List, [], ◌∷◌, ◌++◌, ◌≡◌, ◌≢◌, inl, inr, sym, subst, Bool, true, ◌&&◌, ◌||◌, some, HashSet,
  HashMap, ◌==◌, any, contains, insert, get, put, or_default, get-put, contains-insert, Bool-cases,
  Option-cases, arith, if◌then◌else◌,
}
use sqlite_sparql.Rdf.{Quad}
use sqlite_sparql.Rdf.Equality.{quad_eq}
use sqlite_sparql.DependencyIndex.{
  Derivation, DependencyIndex, empty_index, same_set, add_reverse, record_derivation,
}

-- `q` is listed in `reverse` as a premise of `c`
abbrev pub supports : HashMap Quad (HashSet Quad) → Quad → Quad → Bool
supports rev q c = contains (or_default (get rev q) []) c

-- `c` has a recorded derivation in which `q` is a premise
pub record Cites (idx : DependencyIndex) (c q : Quad) : Type 0 where
  pub ds : List Derivation
  pub d : Derivation
  pub recorded : get idx.derivations c ≡ some ds
  pub one_of : Memᴰ d ds
  pub premise : contains d q ≡ true

pub record IsWellFormed (idx : DependencyIndex) : Type 0 where
  -- every premise of a recorded derivation points back to the inferred quad
  pub covers : (c q : Quad) → Cites idx c q → supports idx.reverse q c ≡ true
  -- no entry without a derivation
  pub inhabited : (c : Quad) → get idx.derivations c ≢ some []

pub supports-add_reverse :
    (rev : HashMap Quad (HashSet Quad)) (inferred : Quad) (ps : List Quad) (q c : Quad)
    → supports (add_reverse rev inferred ps) q c
      ≡ (supports rev q c || (contains ps q && inferred == c))
unfolding add_reverse
supports-add_reverse rev inferred [] q c = ground arith
supports-add_reverse rev inferred (p ∷ ps) q c =
    let set = or_default (get rev p) [] in
    ground (
      arith,
      supports-add_reverse (put rev p (insert set inferred)) inferred ps q c,
      get-put rev p q (insert set inferred),
      contains-insert set inferred c,
      quad_eq.beq_iff p q,
    )

append-ne-nil : (ds : List Derivation) (d : Derivation) → ds ++ d ∷ [] ≢ []
append-ne-nil [] d h = cc
append-ne-nil (e ∷ ds) d h = cc

pub Cites-of_mem :
    (idx : DependencyIndex) (c q : Quad) (d : Derivation)
    → Memᴰ d (or_default (get idx.derivations c) [])
    → contains d q ≡ true
    → Cites idx c q
Cites-of_mem idx c q d o m = elim (Option-cases (get idx.derivations c)) [
  | inl absent ↦ absurd (Memᴰ.not-nil (rw absent at o))
  | inr (ds, e) ↦ record { ds = ds; d = d; recorded = e; one_of = rw e at o; premise = m }
]

module _ (idx : DependencyIndex) (inferred : Quad) (premises : Derivation)
    (w : IsWellFormed idx) where
  abbrev entries : List Derivation
  entries = or_default (get idx.derivations inferred) []

  abbrev extended : DependencyIndex
  extended = record {
    derivations = put idx.derivations inferred (entries ++ premises ∷ []);
    reverse = add_reverse idx.reverse inferred premises;
  }

  covers-old : (c q : Quad) → Cites idx c q → supports extended.reverse q c ≡ true
  covers-old c q h = rw (supports-add_reverse idx.reverse inferred premises q c, w.covers c q h)

  covers-new : (q : Quad) → contains premises q ≡ true → supports extended.reverse q inferred ≡ true
  covers-new q m = ground (
    arith,
    supports-add_reverse idx.reverse inferred premises q inferred,
    quad_eq.beq_iff inferred inferred,
  )

  get-extended :
      (c : Quad)
      → get extended.derivations c
        ≡ (if inferred == c then some (entries ++ premises ∷ []) else get idx.derivations c)
  get-extended c = get-put idx.derivations inferred c (entries ++ premises ∷ [])

  covers-last :
      (q : Quad) (d : Derivation)
      → Memᴰ d (entries ++ premises ∷ [])
      → contains d q ≡ true
      → supports extended.reverse q inferred ≡ true
  covers-last q d o m = elim (Memᴰ.append_cases entries o) [
    | inl old ↦ covers-old inferred q (Cites-of_mem idx inferred q d old m)
    | inr same ↦ covers-new q (rw (Memᴰ.eq_of_singleton same) at m)
  ]

  covers-extended : (c q : Quad) → Cites extended c q → supports extended.reverse q c ≡ true
  covers-extended c q h = elim (Bool-cases (inferred == c)) [
    | inl same ↦
        let e : entries ++ premises ∷ [] ≡ h.ds = ground (arith, get-extended c, h.recorded) in
        rw (← (quad_eq.beq_iff inferred c).0 same)
          (covers-last q h.d (subst (Memᴰ h.d) (sym e) h.one_of) h.premise)
    | inr other ↦ covers-old c q (record {
      ds = h.ds;
      d = h.d;
      recorded = ground (arith, get-extended c, h.recorded);
      one_of = h.one_of;
      premise = h.premise;
    })
  ]

  inhabited-extended : (c : Quad) → get extended.derivations c ≢ some []
  inhabited-extended c h =
      ground (arith, get-extended c, w.inhabited c, append-ne-nil entries premises)

  pub extended-IsWellFormed : IsWellFormed extended
  extended-IsWellFormed = record { covers = covers-extended; inhabited = inhabited-extended }

  -- After recording a derivation, every premise of a recorded derivation still points back.
  pub record-IsWellFormed : IsWellFormed (record_derivation idx inferred premises)
  unfolding record_derivation
  record-IsWellFormed = elim (Bool-cases (any (λ d. same_set d premises) entries)) [
    | inl known ↦ rw known w
    | inr fresh ↦ rw fresh extended-IsWellFormed
  ]

pub empty-IsWellFormed : IsWellFormed empty_index
unfolding get
empty-IsWellFormed = record { covers = λ c q h. cc (h.recorded); inhabited = λ c h. cc }
