-- ===== src/DependencyIndex/Supported.antt =====
-- Which quads `cascade` of src/dependency_index.rs spares, and how it grows with what is retracted.
use mathlib.Core.List.{Memᴰ}
use sqlite_sparql.Prelude.{
  List, ◌≡◌, ◌⊎◌, inl, inr, true, false, some, Bool-cases, HashSet, contains, get, Within,
}
use sqlite_sparql.Rdf.{Quad}
use sqlite_sparql.Rdf.Equality.{quad_eq}
use sqlite_sparql.DependencyIndex.{Derivation, DependencyIndex, cascade}
use sqlite_sparql.DependencyIndex.Invariant.{IsWellFormed}
use sqlite_sparql.DependencyIndex.Sound.{Falls, base, unsupported, cascade-Falls}
use sqlite_sparql.DependencyIndex.Exact.{cascade_exact}

-- The quads of `P` hold each other up: each has a derivation whose premises are all in `P`.
abbrev pub IsSelfSupporting : DependencyIndex → (Quad → Type 0) → Type 0
IsSelfSupporting idx P =
    (c : Quad) (ds : List Derivation)
    → P c
    → get idx.derivations c ≡ some ds
    → (d : Derivation) × Memᴰ d ds × ((q : Quad) → contains d q ≡ true → P q)

module _ (idx : DependencyIndex) (retracted : HashSet Quad) (P : Quad → Type 0)
    (apart : (q : Quad) → P q → contains retracted q ≡ false) (held : IsSelfSupporting idx P) where
  spared : (c : Quad) → P c → Falls idx retracted c → ⊥
  spared c pc (base h) = cc (apart c pc, h)
  spared c pc (unsupported ds e pick picked falls) =
      let (d, m, all_in) = held c ds pc e in
      spared (pick d m) (all_in (pick d m) (picked d m)) (falls d m)

  -- Quads that hold each other up, none of them retracted, are all spared by the cascade, also
  -- where they do so in a circle that no other quad supports.
  pub cascade_spares : (c : Quad) → P c → contains (cascade idx retracted) c ≡ false
  cascade_spares c pc = elim (Bool-cases (contains (cascade idx retracted) c)) [
    | inl gone ↦ absurd (spared c pc (cascade-Falls idx retracted c gone).1)
    | inr kept ↦ kept
  ]

Falls-Within :
    (idx : DependencyIndex) (few many : HashSet Quad)
    → Within few many
    → (q : Quad) → Falls idx few q
    → Falls idx many q
Falls-Within idx few many sub q (base h) = base (sub q h)
Falls-Within idx few many sub q (unsupported ds e pick picked falls) =
    unsupported ds e pick picked (λ d m. Falls-Within idx few many sub (pick d m) (falls d m))

-- Retracting more quads over-deletes at least as many: on a well-formed index, what falls with few
-- quads is retracted or over-deleted with many. So two listings of one set give the same cascade.
pub cascade-Within :
    (idx : DependencyIndex) (few many : HashSet Quad)
    → IsWellFormed idx
    → Within few many
    → (q : Quad) → contains (cascade idx few) q ≡ true
    → (contains many q ≡ true) ⊎ (contains (cascade idx many) q ≡ true)
cascade-Within idx few many w sub q h = elim (Bool-cases (contains many q)) [
  | inl listed ↦ inl listed
  | inr other ↦ inr (
      (cascade_exact idx w many q).1
        (other, Falls-Within idx few many sub q ((cascade_exact idx w few q).0 h).1))
]
