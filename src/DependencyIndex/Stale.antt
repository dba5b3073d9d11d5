-- ===== src/DependencyIndex/Stale.antt =====
-- What `forget` and `record` of src/dependency_index.rs lose together.
use sqlite_sparql.Prelude.{
  ℕ, zero, suc, List, [], ◌∷◌, ◌≡◌, ◌≢◌, refl, ap, subst, inl, inr, true, none, some, HashSet,
  HashMap, contains, get, get-put, get-remove_key, remove, remove_key, or_default, all_intro,
  any-of_mem, Option-cases, arith, length,
}
use sqlite_sparql.Rdf.{Quad}
use sqlite_sparql.Rdf.Equality.{quad_eq}
use sqlite_sparql.DependencyIndex.{
  Derivation, DependencyIndex, Cascade, same_set, record_derivation, put_or_drop, forget_premise,
  forget_derivation, forget_derivations, forget, pop_round, visit_all, drain, start, enough,
  cascade,
}
use sqlite_sparql.DependencyIndex.Invariant.{Cites}
use sqlite_sparql.DependencyIndex.Forgetting.{get-forget}

get-put_or_drop :
    (rev : HashMap Quad (HashSet Quad)) (p q : Quad) (s : HashSet Quad)
    → p ≢ q
    → get (put_or_drop rev p s) q ≡ get rev q
unfolding put_or_drop
get-put_or_drop rev p q [] h = ground (arith, get-remove_key rev p q, quad_eq.beq_iff p q)
get-put_or_drop rev p q (x ∷ xs) h = ground (arith, get-put rev p q (x ∷ xs), quad_eq.beq_iff p q)

absent-forget_premise :
    (rev : HashMap Quad (HashSet Quad)) (x p q : Quad)
    → get rev q ≡ none
    → get (forget_premise rev x p) q ≡ none
unfolding forget_premise
absent-forget_premise rev x p q h = elim (Option-cases (get rev p)) [
  | inl absent ↦ rw (absent, forget_premise) h
  | inr (s, e) ↦
      rw (e, forget_premise)
        (rw (get-put_or_drop rev p q (remove s x) (λ same. cc (ap (get rev) same))) h)
]

absent-forget_derivation :
    (d : List Quad) (rev : HashMap Quad (HashSet Quad)) (x q : Quad)
    → get rev q ≡ none
    → get (forget_derivation rev x d) q ≡ none
unfolding forget_derivation
absent-forget_derivation [] rev x q h = h
absent-forget_derivation (p ∷ ps) rev x q h =
    absent-forget_derivation ps (forget_premise rev x p) x q (absent-forget_premise rev x p q h)

absent-forget_derivations :
    (ds : List Derivation) (rev : HashMap Quad (HashSet Quad)) (x q : Quad)
    → get rev q ≡ none
    → get (forget_derivations rev x ds) q ≡ none
unfolding forget_derivations
absent-forget_derivations [] rev x q h = h
absent-forget_derivations (d ∷ ds) rev x q h =
    absent-forget_derivations ds (forget_derivation rev x d) x q
      (absent-forget_derivation d rev x q h)

-- no entry of `reverse` is left for the quad that is forgotten
get_reverse-forget : (idx : DependencyIndex) (x : Quad) → get (forget idx x).reverse x ≡ none
unfolding forget
get_reverse-forget idx x =
    absent-forget_derivations (or_default (get idx.derivations x) []) (remove_key idx.reverse x) x x
      (ground (arith, get-remove_key idx.reverse x x, quad_eq.beq_iff x x))

pub drain_idle :
    (idx : DependencyIndex) (fuel : ℕ) (st : Cascade) → st.worklist ≡ [] → drain idx fuel st ≡ st
unfolding drain
drain_idle idx zero st h = refl
drain_idle idx (suc fuel) st h = ground (arith, h)

-- nothing falls where nothing is retracted
pub cascade-nil : (idx : DependencyIndex) → cascade idx [] ≡ []
unfolding cascade
cascade-nil idx =
    ap (λ (s : Cascade). s.over_deleted) (drain_idle idx (enough idx []) (start []) refl)

drain_absent :
    (idx : DependencyIndex) (x : Quad) (fuel : ℕ)
    → get idx.reverse x ≡ none
    → (drain idx (suc fuel) (start (x ∷ []))).over_deleted ≡ []
unfolding drain pop_round visit_all
drain_absent idx x fuel h = rw h (
    ap (λ (s : Cascade). s.over_deleted)
      (drain_idle idx fuel (record { removed = x ∷ []; worklist = []; over_deleted = [] }) refl))

cascade_absent :
    (idx : DependencyIndex) (x : Quad) → get idx.reverse x ≡ none → cascade idx (x ∷ []) ≡ []
unfolding cascade
cascade_absent idx x h =
    let e : suc (length idx.derivations) ≡ enough idx (x ∷ []) = omega arith in
    subst (λ n. (drain idx n (start (x ∷ []))).over_deleted ≡ []) e
      (drain_absent idx x (length idx.derivations) h)

same_set_refl : (d : Derivation) → same_set d d ≡ true
unfolding same_set
same_set_refl d = rw (all_intro (contains d) d (λ a m. m)) (ground arith)

-- A quad `x` is forgotten while `c` still has a derivation from it. Recording that derivation once
-- more, as a new materialisation does, changes nothing, and a later cascade from `x` finds no
-- dependent at all, whatever the index.
pub rerecord_lost :
    (idx : DependencyIndex) (x c : Quad) (h : Cites idx c x)
    → c ≢ x
    → (record_derivation (forget idx x) c h.d ≡ forget idx x)
      × (cascade (forget idx x) (x ∷ []) ≡ [])
unfolding record_derivation
rerecord_lost idx x c h ne =
    let kept : get (forget idx x).derivations c ≡ some h.ds =
      ground (arith, get-forget idx x c, h.recorded, quad_eq.beq_iff x c) in
    let known = any-of_mem (λ e. same_set e h.d) h.d h.one_of (same_set_refl h.d) in
    (rw kept (rw known refl), cascade_absent (forget idx x) x (get_reverse-forget idx x))
