-- ===== src/DependencyIndex/Examples.antt =====
-- The index of src/dependency_index.rs on three quads: `z` is derived from `y`, and `y` from `x`.
use mathlib.Core.List.{Memᴰ}
use sqlite_sparql.Prelude.{
  put, insert, [], ◌∷◌, ◌≡◌, ◌≢◌, ◌⊎◌, ◌↔◌, refl, sym, subst, inl, inr, arith, true, false, some,
  none, not, ◌&&◌, ◌==◌, if◌then◌else◌, contains, get, Within,
}
use sqlite_sparql.Rdf.{named_node, named_node_term, default_graph, Quad}
use sqlite_sparql.Rdf.Equality.{quad_eq, quad_beq}
use sqlite_sparql.DependencyIndex.{
  Derivation, DependencyIndex, empty_index, record_derivation, forget, drain, start, enough,
  cascade,
}
use sqlite_sparql.DependencyIndex.Invariant.{
  IsWellFormed, Cites, supports, empty-IsWellFormed, record-IsWellFormed,
}
use sqlite_sparql.DependencyIndex.Agreement.{Agrees, derivations_of, empty-Agrees, record-Agrees}
use sqlite_sparql.DependencyIndex.Forgetting.{forget-Agrees, forget-breaks}
use sqlite_sparql.DependencyIndex.Drain.{cascade-ends}
use sqlite_sparql.DependencyIndex.Sound.{Falls}
use sqlite_sparql.DependencyIndex.Exact.{cascade_exact}
use sqlite_sparql.DependencyIndex.Supported.{IsSelfSupporting, cascade_spares}
use sqlite_sparql.DependencyIndex.Stale.{rerecord_lost}

abbrev x : Quad
x = record {
  subject = named_node "x";
  predicate = "p";
  object = named_node_term "o";
  graph_name = default_graph;
}

abbrev y : Quad
y = record {
  subject = named_node "y";
  predicate = "p";
  object = named_node_term "o";
  graph_name = default_graph;
}

abbrev z : Quad
z = record {
  subject = named_node "z";
  predicate = "p";
  object = named_node_term "o";
  graph_name = default_graph;
}

abbrev one : DependencyIndex
one = record_derivation empty_index y (x ∷ [])

abbrev chain : DependencyIndex
chain = record_derivation one z (y ∷ [])

one-IsWellFormed : IsWellFormed one
one-IsWellFormed = record-IsWellFormed empty_index y (x ∷ []) empty-IsWellFormed

one-Agrees : Agrees one
one-Agrees = (record-Agrees empty_index y (x ∷ []) empty-Agrees (refl, tt)).0

record-Agrees_example :
    Agrees chain
    × ((d : Derivation) × Memᴰ d (derivations_of chain z)
        × ((q : Quad) → contains d q ≡ contains (y ∷ []) q))
    × ((c : Quad) (d : Derivation)
        → Memᴰ d (derivations_of one c)
        → Memᴰ d (derivations_of chain c))
    × ((c : Quad) (d : Derivation)
        → Memᴰ d (derivations_of chain c)
        → Memᴰ d (derivations_of one c) ⊎ ((c ≡ z) × (d ≡ y ∷ [])))
record-Agrees_example = record-Agrees one z (y ∷ []) one-Agrees (refl, tt)

chain-Agrees : Agrees chain
chain-Agrees = (record-Agrees one z (y ∷ []) one-Agrees (refl, tt)).0

chain-IsWellFormed : IsWellFormed chain
chain-IsWellFormed = record-IsWellFormed one z (y ∷ []) one-IsWellFormed

cascade_exact_example :
    (contains (cascade chain (x ∷ [])) z ≡ true)
    ↔ ((contains (x ∷ []) z ≡ false) × Falls chain (x ∷ []) z)
cascade_exact_example = cascade_exact chain chain-IsWellFormed (x ∷ []) z

cascade-ends_example : (drain chain (enough chain (x ∷ [])) (start (x ∷ []))).worklist ≡ []
cascade-ends_example = cascade-ends chain (x ∷ [])

-- `z` falls with `x`
cascade-chain : contains (cascade chain (x ∷ [])) z ≡ true
unfolding cascade record_derivation get put quad_beq insert
cascade-chain = refl

Within-both : Within (x ∷ []) (y ∷ x ∷ [])
Within-both a m = ground arith

y_cites_x : Cites chain y x
unfolding record_derivation get put quad_beq
y_cites_x = record {
  ds = (x ∷ []) ∷ [];
  d = x ∷ [];
  recorded = refl;
  one_of = Memᴰ.head refl;
  premise = refl;
}

y-ne-x : y ≢ x
unfolding quad_beq
y-ne-x h = let same = (quad_eq.beq_iff y x).1 h in cc same

forget-breaks_example :
    (get (forget chain x).derivations y ≡ get chain.derivations y)
    × (supports (forget chain x).reverse x y ≡ false)
    × ¬ IsWellFormed (forget chain x)
forget-breaks_example = forget-breaks chain x y y_cites_x y-ne-x

rerecord_lost_example :
    (record_derivation (forget chain x) y y_cites_x.d ≡ forget chain x)
    × (cascade (forget chain x) (x ∷ []) ≡ [])
rerecord_lost_example = rerecord_lost chain x y y_cites_x y-ne-x

nobody_cites_z : (c : Quad) → Cites chain c z → c ≡ z
unfolding record_derivation get put quad_beq
nobody_cites_z c h = let covered = chain-IsWellFormed.covers c z h in cc covered

forget-Agrees_example :
    Agrees (forget chain z)
    × ((c : Quad)
        → get (forget chain z).derivations c ≡ (if z == c then none else get chain.derivations c))
    × ((q c : Quad)
        → supports (forget chain z).reverse q c ≡ (supports chain.reverse q c && not (z == c)))
forget-Agrees_example = forget-Agrees chain z chain-Agrees nobody_cites_z

-- two quads that are derived from each other and from nothing else
abbrev circle : DependencyIndex
circle = record {
  derivations = (y, (z ∷ []) ∷ []) ∷ (z, (y ∷ []) ∷ []) ∷ [];
  reverse = (z, y ∷ []) ∷ (y, z ∷ []) ∷ [];
}

abbrev Either : Quad → Type 0
Either q = (q ≡ y) ⊎ (q ≡ z)

Either-apart : (q : Quad) → Either q → contains (x ∷ []) q ≡ false
unfolding quad_beq
Either-apart q (inl h) = rw h refl
Either-apart q (inr h) = rw h refl

circle-IsSelfSupporting : IsSelfSupporting circle Either
unfolding get quad_beq
circle-IsSelfSupporting c ds (inl h) e =
    let e' = subst (λ q. get circle.derivations q ≡ some ds) h e in
    let all : (z ∷ []) ∷ [] ≡ ds = cc e' in
    (
      z ∷ [],
      subst (Memᴰ (z ∷ [])) all (Memᴰ.head refl),
      λ q m. inr (sym ((quad_eq.beq_iff z q).0 (ground arith))),
    )
circle-IsSelfSupporting c ds (inr h) e =
    let e' = subst (λ q. get circle.derivations q ≡ some ds) h e in
    let all : (y ∷ []) ∷ [] ≡ ds = cc e' in
    (
      y ∷ [],
      subst (Memᴰ (y ∷ [])) all (Memᴰ.head refl),
      λ q m. inl (sym ((quad_eq.beq_iff y q).0 (ground arith))),
    )

cascade_spares_example : contains (cascade circle (x ∷ [])) y ≡ false
cascade_spares_example =
    cascade_spares circle (x ∷ []) Either Either-apart circle-IsSelfSupporting y (inl refl)
