-- ===== src/Dred/Correct.antt =====
-- What a call of `rdf_dred_overdelete` does to the store and to the index.
use mathlib.Core.Bool.{false≢true}
use sqlite_sparql.Prelude.{
  ℕ, String, List, [], ◌∷◌, ◌≡◌, ap, sym, ◌∙◌, ◌↔◌, ◌⊎◌, refl, inl, inr, true, false, not, ◌&&◌,
  Option, none, Result, SparqlError, ok, err, HashSet, contains, get, length, if◌then◌else◌, arith,
  Bool-cases, Result-cases,
}
use sqlite_sparql.Rdf.{Quad}
use sqlite_sparql.Rdf.Equality.{quad_eq}
use sqlite_sparql.Oxigraph.{QuadStore, IsQuadSet, TermParsers, Json}
use sqlite_sparql.DependencyIndex.{DependencyIndex, cascade, forget, is_empty}
use sqlite_sparql.DependencyIndex.Invariant.{IsWellFormed}
use sqlite_sparql.DependencyIndex.Forgetting.{get-forget}
use sqlite_sparql.DependencyIndex.Sound.{Falls}
use sqlite_sparql.DependencyIndex.Exact.{cascade_exact}
use sqlite_sparql.DependencyIndex.Stale.{cascade-nil}
use sqlite_sparql.Dred.{
  no_index, World, remove_all, forget_all, overdelete, checked_premises, rdf_dred_overdelete,
}

module _ (db : QuadStore) (law : IsQuadSet db) (api : TermParsers) (json : Json) where
  open law use {contents}

  contains-remove_all :
      (qs : List Quad) (s : db.Store) (r : Quad)
      → contains (contents (remove_all db api json s qs)) r
        ≡ (contains (contents s) r && not (contains qs r))
  unfolding remove_all
  contains-remove_all [] s r = ground arith
  contains-remove_all (q ∷ qs) s r = ground (
    arith,
    contains-remove_all qs (db.remove_quad s q).0 r,
    law.remove_law s q r,
    quad_eq.beq_iff q r,
  )

  get-forget_all :
      (qs : List Quad) (idx : DependencyIndex) (c : Quad)
      → get (forget_all db api json idx qs).derivations c
        ≡ (if contains qs c then none else get idx.derivations c)
  unfolding forget_all
  get-forget_all [] idx c = refl
  get-forget_all (q ∷ qs) idx c =
      ground (arith, get-forget_all qs (forget idx q) c, get-forget idx q c)

  -- the effect of a call that returns a count
  pub record Overdeleted (w : World db) (retracted : HashSet Quad) (out : World db × Result ℕ)
      : Type 0 where
    -- a quad leaves the store exactly if it falls with the retracted ones and is none of them
    pub leaves :
        (q : Quad)
        → contains (contents w.store) q ≡ true
        → (contains (contents out.0.store) q ≡ false)
          ↔ ((contains retracted q ≡ false) × Falls w.index retracted q)
    -- nothing new comes into the store
    pub no_more :
        (q : Quad) → contains (contents out.0.store) q ≡ true → contains (contents w.store) q ≡ true
    -- the index keeps the derivations of the quads that stay, and no others
    pub derivations :
        (q : Quad)
        → get out.0.index.derivations q
          ≡ (if contains (cascade w.index retracted) q then none else get w.index.derivations q)
    pub result : out.1 ≡ ok (length (cascade w.index retracted))

  overdelete-Overdeleted :
      (w : World db) (retracted : HashSet Quad)
      → IsWellFormed w.index
      → Overdeleted w retracted (overdelete db api json w retracted)
  unfolding overdelete
  overdelete-Overdeleted w retracted wf =
      let fallen = cascade w.index retracted in
      let left = contains-remove_all fallen w.store in
      record {
        leaves = λ q there. (
          λ gone. (cascade_exact w.index wf retracted q).0 (ground (arith, left q)),
          λ falls. ground (arith, left q, (cascade_exact w.index wf retracted q).1 falls),
        );
        no_more = λ q there. ground (arith, left q);
        derivations = get-forget_all fallen w.index;
        result = refl;
      }

  idle-Overdeleted : (w : World db) → IsWellFormed w.index → Overdeleted w [] (w, ok 0)
  idle-Overdeleted w wf = record {
    leaves = λ q there. (
      λ gone. cc (there, gone),
      λ falls. absurd (
          false≢true (
            sym (ap (λ l. contains l q) (cascade-nil w.index))
            ∙ (cascade_exact w.index wf [] q).1 falls)),
    );
    no_more = λ q there. there;
    derivations = λ q. rw (cascade-nil w.index) refl;
    result = rw (cascade-nil w.index) refl;
  }

  -- A call of `rdf_dred_overdelete` over a well-formed index either returns an error, and then
  -- changes neither the store nor the index, or returns the number of over-deleted quads. Then a
  -- quad of the store is gone exactly if it was not retracted and falls with the retracted quads,
  -- nothing is added, and the index has lost the derivations of the over-deleted quads and no
  -- others.
  pub overdelete_correct :
      (w : World db) (inferred retracted_json : Option String)
      → IsWellFormed w.index
      → ((e : SparqlError) × (rdf_dred_overdelete db api json w inferred retracted_json
            ≡ (w, err e)))
        ⊎ ((retracted : HashSet Quad) × (checked_premises db api json inferred retracted_json
              ≡ ok retracted)
            × Overdeleted w retracted (rdf_dred_overdelete db api json w inferred retracted_json))
  unfolding rdf_dred_overdelete
  overdelete_correct w inferred text wf =
      elim (Result-cases (checked_premises db api json inferred text)) [
        | inr (e, h) ↦ inl (e, rw (h, rdf_dred_overdelete) refl)
        | inl ([], h) ↦ inr ([], h, rw (h, rdf_dred_overdelete) (idle-Overdeleted w wf))
        | inl (q ∷ qs, h) ↦ elim (Bool-cases (is_empty w.index)) [
          | inl empty ↦
              inl (no_index, rw (h, rdf_dred_overdelete) (rw (empty, rdf_dred_overdelete) refl))
          | inr full ↦ inr (
            q ∷ qs,
            h,
            rw (h, rdf_dred_overdelete)
                (rw (full, rdf_dred_overdelete) (overdelete-Overdeleted w (q ∷ qs) wf)),
          )
        ]
      ]
