-- ===== src/DependencyIndex/Sound.antt =====
-- What `cascade` of src/dependency_index.rs returns, against a definition of the quads that lose
-- every derivation.
use mathlib.Core.List.{Memᴰ}
use sqlite_sparql.Prelude.{
  ℕ, zero, suc, List, [], ◌∷◌, ◌≡◌, subst, inl, inr, true, false, not, ◌||◌, some, some, HashSet,
  ◌==◌, any, contains, get, or_default, contains-insert, any-of_mem, all_counter, Bool-cases,
  Option-cases, List-cases, arith,
}
use sqlite_sparql.Rdf.{Quad}
use sqlite_sparql.Rdf.Equality.{quad_eq}
use sqlite_sparql.DependencyIndex.{
  Derivation, DependencyIndex, Cascade, survives, delete, visit, visit_all, pop_round, drain, start,
  enough, cascade,
}

-- The quads that fall when `retracted` does: the retracted ones, and each quad whose every
-- recorded derivation has a premise that falls.
pub data Falls (idx : DependencyIndex) (retracted : HashSet Quad) : Quad → Type 0 where
  base : {q : Quad} → contains retracted q ≡ true → Falls idx retracted q
  unsupported :
      {c : Quad} (ds : List Derivation)
      → get idx.derivations c ≡ some ds
      → (pick : (d : Derivation) → Memᴰ d ds → Quad)
      → ((d : Derivation) (m : Memᴰ d ds) → contains d (pick d m) ≡ true)
      → ((d : Derivation) (m : Memᴰ d ds) → Falls idx retracted (pick d m))
      → Falls idx retracted c

-- a premise that is removed, in a derivation that does not survive
pub broken_at :
    (removed : HashSet Quad) (d : Derivation)
    → survives removed d ≡ false
    → (q : Quad) × (contains d q ≡ true) × (contains removed q ≡ true)
broken_at removed d h =
    let (q, m, e) = all_counter (λ q. not (contains removed q)) d h in (q, m, ground arith)

pub none_survives :
    (removed : HashSet Quad) (ds : List Derivation) (d : Derivation)
    → any (survives removed) ds ≡ false
    → Memᴰ d ds
    → survives removed d ≡ false
none_survives removed ds d h m = elim (Bool-cases (survives removed d)) [
  | inl stands ↦ cc (any-of_mem (survives removed) d m stands, h)
  | inr gone ↦ gone
]

module _ (idx : DependencyIndex) (retracted : HashSet Quad) where
  pub record IsSound (st : Cascade) : Type 0 where
    pub parts :
        (q : Quad) → contains st.removed q ≡ (contains retracted q || contains st.over_deleted q)
    fresh : (q : Quad) → contains st.over_deleted q ≡ true → contains retracted q ≡ false
    falls : (q : Quad) → contains st.removed q ≡ true → Falls idx retracted q

  module _ (st : Cascade) (s : IsSound st) (c : Quad) (ds : List Derivation)
      (e : get idx.derivations c ≡ some ds) (h : any (survives st.removed) ds ≡ false)
      (f : contains st.removed c ≡ false) where
    Falls-now : Falls idx retracted c
    Falls-now =
        let witness = λ (d : Derivation) (m : Memᴰ d ds).
          broken_at st.removed d (none_survives st.removed ds d h m) in
        unsupported ds e (λ d m. (witness d m).0) (λ d m. (witness d m).1)
          (λ d m. s.falls (witness d m).0 (witness d m).2)

    delete-IsSound : IsSound (delete st c)
    delete-IsSound = record {
      parts = λ q.
          ground
            (arith, s.parts q, contains-insert st.removed c q, contains-insert st.over_deleted c q);
      fresh = λ q m. ground (
        arith,
        s.fresh q,
        s.parts q,
        s.parts c,
        contains-insert st.over_deleted c q,
        quad_eq.beq_iff c q,
      );
      falls = λ q m. elim (Bool-cases (c == q)) [
        | inl same ↦ subst (Falls idx retracted) ((quad_eq.beq_iff c q).0 same) Falls-now
        | inr other ↦ s.falls q (ground (arith, contains-insert st.removed c q))
      ];
    }

  visit-IsSound : (st : Cascade) (c : Quad) → IsSound st → IsSound (visit idx st c)
  unfolding visit
  visit-IsSound st c s = elim (Bool-cases (contains st.removed c)) [
    | inl old ↦ rw (old, visit) s
    | inr new ↦ elim (Option-cases (get idx.derivations c)) [
      | inl absent ↦ rw (new, absent, visit) s
      | inr (ds, e) ↦ elim (Bool-cases (any (survives st.removed) ds)) [
        | inl lives ↦ rw (new, e, visit) (rw lives s)
        | inr dies ↦ rw (new, e, visit) (rw dies (delete-IsSound st s c ds e dies new))
      ]
    ]
  ]

  visit_all-IsSound : (cs : List Quad) (st : Cascade) → IsSound st → IsSound (visit_all idx st cs)
  unfolding visit_all
  visit_all-IsSound [] st s = s
  visit_all-IsSound (c ∷ cs) st s = visit_all-IsSound cs (visit idx st c) (visit-IsSound st c s)

  pub drain-IsSound : (fuel : ℕ) (st : Cascade) → IsSound st → IsSound (drain idx fuel st)
  unfolding drain pop_round
  drain-IsSound zero st s = s
  drain-IsSound (suc fuel) st s = elim (List-cases st.worklist) [
    | inl empty ↦ rw (empty, drain) s
    | inr (p, rest, e) ↦
        rw (e, drain)
          (drain-IsSound fuel (pop_round idx st p rest) (
            visit_all-IsSound (or_default (get idx.reverse p) []) (record st { worklist = rest })
              (record { parts = s.parts; fresh = s.fresh; falls = s.falls })))
  ]

  pub start-IsSound : IsSound (start retracted)
  start-IsSound = record { parts = λ q. ground arith; fresh = λ q h. cc; falls = λ q h. base h }

  -- what is over-deleted falls, whatever the state of the index, and was not retracted itself
  pub cascade-Falls :
      (q : Quad)
      → contains (cascade idx retracted) q ≡ true
      → (contains retracted q ≡ false) × Falls idx retracted q
  unfolding cascade
  cascade-Falls q h =
      let s = drain-IsSound (enough idx retracted) (start retracted) start-IsSound in
      (s.fresh q h, s.falls q (ground (arith, s.parts q)))
