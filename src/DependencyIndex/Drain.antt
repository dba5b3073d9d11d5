-- ===== src/DependencyIndex/Drain.antt =====
-- The worklist loop of `cascade` (src/dependency_index.rs) ends by its own test.
use sqlite_sparql.Prelude.{
  List-cases, ℕ, zero, suc, ◌+◌, ◌≤◌, List, [], ◌∷◌, ◌≡◌, ap, inl, inr, false, some, HashSet,
  HashMap, contains, insert, get, or_default, contains-insert, Option-cases, arith, length,
  if◌then◌else◌,
}
use sqlite_sparql.Rdf.{Quad}
use sqlite_sparql.Rdf.Equality.{quad_eq}
use sqlite_sparql.DependencyIndex.{
  Derivation, DependencyIndex, Cascade, visit, visit_all, pop_round, drain, start, enough,
}

-- the keys of the map that are not removed yet
pub open_keys : HashMap Quad (List Derivation) → HashSet Quad → ℕ
open_keys [] removed = 0
open_keys ((k, _) ∷ m) removed =
    if contains removed k then open_keys m removed else suc (open_keys m removed)

open_keys-le :
    (m : HashMap Quad (List Derivation)) (removed : HashSet Quad) → open_keys m removed ≤ length m
unfolding open_keys
open_keys-le [] removed = omega arith
open_keys-le ((k, v) ∷ m) removed = ground (arith, open_keys-le m removed)

open_keys-insert_le :
    (m : HashMap Quad (List Derivation)) (removed : HashSet Quad) (c : Quad)
    → open_keys m (insert removed c) ≤ open_keys m removed
unfolding open_keys
open_keys-insert_le [] removed c = omega arith
open_keys-insert_le ((k, v) ∷ m) removed c =
    ground (arith, open_keys-insert_le m removed c, contains-insert removed c k)

open_keys-insert :
    (m : HashMap Quad (List Derivation)) (removed : HashSet Quad) (c : Quad) (ds : List Derivation)
    → get m c ≡ some ds
    → contains removed c ≡ false
    → suc (open_keys m (insert removed c)) ≤ open_keys m removed
unfolding open_keys get
open_keys-insert [] removed c ds g f = cc
open_keys-insert ((k, v) ∷ m) removed c ds g f = ground (
  arith,
  open_keys-insert m removed c ds,
  open_keys-insert_le m removed c,
  contains-insert removed c k,
  quad_eq.beq_iff k c,
  quad_eq.beq_iff c k,
)

module _ (idx : DependencyIndex) where
  -- the quads that can still be popped
  abbrev pub work : Cascade → ℕ
  work st = length st.worklist + open_keys idx.derivations st.removed

  visit-work : (st : Cascade) (c : Quad) → work (visit idx st c) ≤ work st
  unfolding visit
  visit-work st c = elim (Option-cases (get idx.derivations c)) [
    | inl absent ↦ rw (absent, visit) (ground arith)
    | inr (ds, e) ↦
        rw (e, visit) (ground (arith, open_keys-insert idx.derivations st.removed c ds e))
  ]

  visit_all-work : (st : Cascade) (cs : List Quad) → work (visit_all idx st cs) ≤ work st
  unfolding visit_all
  visit_all-work st [] = omega arith
  visit_all-work st (c ∷ cs) = omega (arith, visit-work st c, visit_all-work (visit idx st c) cs)

  drain-ends : (fuel : ℕ) (st : Cascade) → work st ≤ fuel → (drain idx fuel st).worklist ≡ []
  unfolding drain pop_round
  drain-ends zero st h = ground arith
  drain-ends (suc fuel) st h = elim (List-cases st.worklist) [
    | inl empty ↦ rw (empty, drain) empty
    | inr (p, rest, e) ↦
        rw (e, drain)
          (drain-ends fuel (pop_round idx st p rest) (
            omega (
              arith,
              visit_all-work (record st { worklist = rest }) (or_default (get idx.reverse p) []),
              ap (length {A = Quad}) e,
            )))
  ]

  -- The loop of `cascade` ends by its own test: it stops with an empty worklist, whatever the index
  -- and whatever was retracted.
  pub cascade-ends :
      (retracted : HashSet Quad)
      → (drain idx (enough idx retracted) (start retracted)).worklist ≡ []
  cascade-ends retracted =
      drain-ends (enough idx retracted) (start retracted)
        (omega (arith, open_keys-le idx.derivations retracted))
